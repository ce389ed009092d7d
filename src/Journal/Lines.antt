-- ===== src/Journal/Lines.antt =====
-- src/resident/journal.rs: the lines of a file that `load` reads.
use mathlib.Core.List.{append_assoc}
use turtletap.Prelude.{◌≡◌, refl, subst, [], ◌∷◌, ◌++◌, arith, ◌==◌, false}
use turtletap.Framing.{Bytes}
use turtletap.Journal.{newline, split_lines}
use turtletap.Journal.TornTail.{complete}

abbrev pub NoNewline : Bytes → Type 0
NoNewline [] = Unit {0}
NoNewline (b ∷ bs) = ((b == newline) ≡ false) × NoNewline bs

pub split_lines-NoNewline : (torn : Bytes) → NoNewline torn → split_lines torn ≡ ([], torn)
unfolding split_lines
split_lines-NoNewline [] h = refl
split_lines-NoNewline (b ∷ bs) h = ground (arith, split_lines-NoNewline bs h.1)

pub split_lines-line :
    (line rest : Bytes)
    → NoNewline line
    → split_lines (line ++ newline ∷ rest) ≡ (line ∷ (split_lines rest).0, (split_lines rest).1)
unfolding split_lines
split_lines-line [] rest h = refl
split_lines-line (b ∷ bs) rest h = ground (arith, split_lines-line bs rest h.1)

lines_of_none : (file : Bytes) → complete file ≡ [] → (split_lines file).0 ≡ []
unfolding split_lines complete
lines_of_none [] h = refl
lines_of_none (b ∷ bs) h = ground (arith, lines_of_none bs)

complete_of_no_lines : (file : Bytes) → (split_lines file).0 ≡ [] → complete file ≡ []
unfolding split_lines complete
complete_of_no_lines [] h = refl
complete_of_no_lines (b ∷ bs) h = ground (arith, complete_of_no_lines bs)

-- What stands behind the complete lines is split on its own.
pub split_lines-complete :
    (file more : Bytes)
    → split_lines (complete file ++ more)
      ≡ ((split_lines file).0 ++ (split_lines more).0, (split_lines more).1)
unfolding split_lines complete
split_lines-complete [] more = refl
split_lines-complete (b ∷ bs) more =
    ground (arith, split_lines-complete bs more, lines_of_none bs, complete_of_no_lines bs)

complete-newline : (xs : Bytes) → complete (xs ++ newline ∷ []) ≡ xs ++ newline ∷ []
unfolding complete
complete-newline [] = refl
complete-newline (x ∷ []) = refl
complete-newline (x ∷ y ∷ ys) = ground (arith, complete-newline (y ∷ ys))

-- A file that was given a line is complete.
pub complete-line :
    (file line : Bytes) → complete (file ++ (line ++ newline ∷ [])) ≡ file ++ (line ++ newline ∷ [])
complete-line file line =
    subst (λ xs. complete xs ≡ xs) (append_assoc file line (newline ∷ []))
      (complete-newline (file ++ line))
