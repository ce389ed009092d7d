-- ===== src/Prelude/Results.antt =====
-- `Result<T, E>`, and methods that take `&mut self` and may fail. What such a method wrote before
-- an early return stays written, so the state comes back beside the error too.
use mathlib.Core.Option.{Option, none, some}
use mathlib.Core.Path.{◌≡◌, refl}
use mathlib.Core.Logic.{◌⊎◌, inl, inr}
use mathlib.Core.Bool.{Bool, true, false}

pub data Result (E A : Type 0) : Type 0 where
  ok : A → Result E A
  err : E → Result E A

pub Result-cases :
    {E A : Type 0} (r : Result E A) → ((e : E) × (r ≡ err e)) ⊎ ((a : A) × (r ≡ ok a))
Result-cases (ok a) = inr (a, refl)
Result-cases (err e) = inl (e, refl)

abbrev pub Op : Type 0 → Type 0 → Type 0 → Type 0
Op S E A = S → Result E A × S

module _ {S E A : Type 0} where
  abbrev pub pure : A → Op S E A
  pure a s = (ok a, s)

  abbrev pub fail : E → Op S E A
  fail e s = (err e, s)

  -- `option.ok_or(error)?`
  abbrev pub ok_or : E → Option A → Op S E A
  ok_or e none s = (err e, s)
  ok_or e (some a) s = (ok a, s)

  -- A value read from the state.
  abbrev pub gets : (S → A) → Op S E A
  gets f s = (ok (f s), s)

module _ {S E : Type 0} where
  -- `if !test { return Err(error); }`
  abbrev pub require : Bool → E → Op S E (Unit {0})
  require true e s = (ok tt, s)
  require false e s = (err e, s)

  abbrev pub modify : (S → S) → Op S E (Unit {0})
  modify f s = (ok tt, f s)

module _ {S E A B : Type 0} where
  abbrev pub continue : Result E A → (A → Op S E B) → Op S E B
  continue (ok a) f s = f a s
  continue (err e) f s = (err e, s)

  infixl 5 ◌>>=◌ ◌>>◌
  abbrev pub ◌>>=◌ : Op S E A → (A → Op S E B) → Op S E B
  ◌>>=◌ m f s = let (r, s') = m s in continue r f s'

  abbrev pub ◌>>◌ : Op S E A → Op S E B → Op S E B
  m >> n = m >>= λ _. n
