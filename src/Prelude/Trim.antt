-- ===== src/Prelude/Trim.antt =====
-- `str::trim` on the code points of a text.
use Prim.Native.Nat.{ℕ}
use mathlib.Core.Bool.{false}
use mathlib.Core.List.{List, [], ◌∷◌, ◌++◌}
use mathlib.Core.Logic.{inl, inr}
use mathlib.Core.Path.{◌≡◌, refl, ap}
use native.Mathlib.Omega.{arith}
use turtletap.Prelude.Strings.{is_whitespace}
use turtletap.Prelude.Tests.{if◌then◌else◌, Bool-cases}

unfoldable pub trim_start : List ℕ → List ℕ
trim_start [] = []
trim_start (c ∷ cs) = let rest = trim_start cs in if is_whitespace c then rest else c ∷ cs

-- A character goes with the white space behind it.
drop_last : ℕ → List ℕ → List ℕ
drop_last c [] = if is_whitespace c then [] else c ∷ []
drop_last c (d ∷ ds) = c ∷ d ∷ ds

unfoldable pub trim_end : List ℕ → List ℕ
unfolding drop_last
trim_end [] = []
trim_end (c ∷ cs) = drop_last c (trim_end cs)

unfoldable pub trim : List ℕ → List ℕ
unfolding trim_start trim_end is_whitespace
trim s = trim_end (trim_start s)

trim_end-drop_last :
    (c : ℕ) (ds : List ℕ) → trim_end ds ≡ ds → trim_end (drop_last c ds) ≡ drop_last c ds
unfolding trim_end drop_last
trim_end-drop_last c [] h = ground arith
trim_end-drop_last c (d ∷ ds) h = ap (drop_last c) h

trim_end_idem : (cs : List ℕ) → trim_end (trim_end cs) ≡ trim_end cs
unfolding trim_end
trim_end_idem [] = refl
trim_end_idem (c ∷ cs) = trim_end-drop_last c (trim_end cs) (trim_end_idem cs)

trim_start-drop_last :
    (c : ℕ) (ds : List ℕ) → is_whitespace c ≡ false → trim_start (drop_last c ds) ≡ drop_last c ds
unfolding trim_start drop_last
trim_start-drop_last c [] h = ground arith
trim_start-drop_last c (d ∷ ds) h = ground arith

trim_start-trim_end :
    (cs : List ℕ) → trim_start (trim_end (trim_start cs)) ≡ trim_end (trim_start cs)
unfolding trim_start trim_end is_whitespace
trim_start-trim_end [] = refl
trim_start-trim_end (c ∷ cs) = elim (Bool-cases (is_whitespace c)) [
  | inl space ↦ rw space (trim_start-trim_end cs)
  | inr solid ↦ rw solid (trim_start-drop_last c (trim_end cs) solid)
]

-- A trimmed text is its own normal form.
pub trim_idem : (s : List ℕ) → trim (trim s) ≡ trim s
unfolding trim
trim_idem s = rw (trim_start-trim_end s) (trim_end_idem (trim_start s))

-- A text that begins and ends with no white space stays.
pub trim_end-solid :
    (s : List ℕ) (c : ℕ) → is_whitespace c ≡ false → trim_end (s ++ c ∷ []) ≡ s ++ c ∷ []
unfolding trim_end
trim_end-solid [] c solid = ground arith
trim_end-solid (d ∷ []) c solid = ground (arith, trim_end-solid [] c solid)
trim_end-solid (d ∷ e ∷ s) c solid = ground (arith, trim_end-solid (e ∷ s) c solid)
