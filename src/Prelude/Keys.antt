-- ===== src/Prelude/Keys.antt =====
-- What the maps and sets of the program need of a key: decidable equality.
use Prim.Native.Nat.{ℕ}
use mathlib.Core.List.{List, [], ◌∷◌}
use mathlib.Core.Path.{◌≡◌, refl, ap₂}
use native.Mathlib.Decide.{ℕ_discrete}

pub record Key (K : Type 0) : Type 0 where
  pub dec : Discrete K

instance abbrev pub ℕ_key : Key ℕ
ℕ_key = record { dec = ℕ_discrete }

cons-decision : {x y : ℕ} {xs ys : List ℕ} → Dec (x ≡ y) → Dec (xs ≡ ys) → Dec (x ∷ xs ≡ y ∷ ys)
cons-decision (yes p) (yes q) = yes (ap₂ ◌∷◌ p q)
cons-decision (yes p) (no q) = no (λ e. q (cc e))
cons-decision (no p) _ = no (λ e. p (cc e))

unfoldable pub text_discrete : Discrete (List ℕ)
unfolding cons-decision ℕ_discrete
text_discrete [] [] = yes refl
text_discrete [] (y ∷ ys) = no (λ e. cc e)
text_discrete (x ∷ xs) [] = no (λ e. cc e)
text_discrete (x ∷ xs) (y ∷ ys) = cons-decision (ℕ_discrete x y) (text_discrete xs ys)

-- Text is a list of code points.
instance abbrev pub text_key : Key (List ℕ)
text_key = record { dec = text_discrete }
