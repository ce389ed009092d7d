-- ===== src/Prelude/Panics.antt =====
-- Code that may panic: `none` is the panic, and a chain of calls stops at the first.
use mathlib.Core.Option.{Option, none, some}
use mathlib.Core.List.{List, [], ◌∷◌}
use mathlib.Core.Path.{◌≡◌, refl, sym, ap, ◌∙◌}
use turtletap.Prelude.Lists.{length}
use Prim.Native.Nat.{ℕ, zero, suc}

module _ {A B : Type 0} where
  infixl 5 ◌>>=◌
  abbrev pub ◌>>=◌ : Option A → (A → Option B) → Option B
  none >>= f = none
  some a >>= f = f a

-- `xs[index]`
unfoldable pub at_index : {A : Type 0} → ℕ → List A → Option A
at_index n [] = none
at_index zero (x ∷ xs) = some x
at_index (suc n) (x ∷ xs) = at_index n xs

-- A call of a method of `xs[index]` that changes it.
unfoldable pub update_at : {A : Type 0} → ℕ → (A → A) → List A → Option (List A)
update_at n f [] = none
update_at zero f (x ∷ xs) = some (f x ∷ xs)
update_at (suc n) f (x ∷ xs) = update_at n f xs >>= λ ys. some (x ∷ ys)

-- `Vec::remove`
unfoldable pub remove_at : {A : Type 0} → ℕ → List A → Option (List A)
remove_at n [] = none
remove_at zero (x ∷ xs) = some xs
remove_at (suc n) (x ∷ xs) = remove_at n xs >>= λ ys. some (x ∷ ys)

pub >>=-some :
    {A B : Type 0} (o : Option A) (f : A → Option B) (b : B)
    → (o >>= f) ≡ some b
    → (a : A) × (o ≡ some a) × (f a ≡ some b)
>>=-some none f b h = cc h
>>=-some (some a) f b h = (a, refl, h)

pub update_at-length :
    {A : Type 0} (n : ℕ) (f : A → A) (xs ys : List A)
    → update_at n f xs ≡ some ys
    → length ys ≡ length xs
unfolding update_at
update_at-length n f [] ys h = cc h
update_at-length zero f (x ∷ xs) ys h = let same : f x ∷ xs ≡ ys = cc h in ap length (sym same)
update_at-length (suc n) f (x ∷ xs) ys h =
    let (zs, run, end) = >>=-some (update_at n f xs) (λ ys. some (x ∷ ys)) ys h in
    let same : x ∷ zs ≡ ys = cc end in
    ap length (sym same) ∙ ap suc (update_at-length n f xs zs run)
