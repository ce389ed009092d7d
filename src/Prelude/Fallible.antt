-- ===== src/Prelude/Fallible.antt =====
-- `?` on a `Result` with no state: `do` blocks for functions that may fail.
use mathlib.Core.Logic.{◌⊎◌, inl, inr}
use mathlib.Core.Path.{◌≡◌, refl}
use turtletap.Prelude.Results.{Result, ok, err}

module _ {E A B : Type 0} where
  infixl 5 ◌>>=◌
  abbrev pub ◌>>=◌ : Result E A → (A → Result E B) → Result E B
  ok a >>= f = f a
  err e >>= f = err e

  -- A chain that succeeds, from its parts.
  pub >>=-ok :
      (m : Result E A) (f : A → Result E B) (b : B)
      → (m >>= f) ≡ ok b
      → (a : A) × (m ≡ ok a) × (f a ≡ ok b)
  >>=-ok (ok a) f b h = (a, refl, h)
  >>=-ok (err e) f b h = cc

module _ {E B : Type 0} where
  infixl 5 ◌>>◌
  abbrev pub ◌>>◌ : Result E (Unit {0}) → Result E B → Result E B
  m >> n = m >>= λ _. n

-- A sequence of two steps, from how it ends.
module _ {E : Type 0} {B : Type 0} where
  pub >>-ok :
      (m : Result E (Unit {0})) (n : Result E B) (b : B)
      → (m >> n) ≡ ok b
      → (m ≡ ok tt) × (n ≡ ok b)
  >>-ok (ok u) n b h = (refl, h)
  >>-ok (err e) n b h = cc h

  pub >>-err :
      (m : Result E (Unit {0})) (n : Result E B) (e : E)
      → (m >> n) ≡ err e
      → (m ≡ err e) ⊎ ((m ≡ ok tt) × (n ≡ err e))
  >>-err (ok u) n e h = inr (refl, h)
  >>-err (err e') n e h = inl (cc h)

  pub >>-intro :
      {m : Result E (Unit {0})} {n : Result E B} {b : B} → m ≡ ok tt → n ≡ ok b → (m >> n) ≡ ok b
  >>-intro {m} {n} {b} first rest = rw first rest
