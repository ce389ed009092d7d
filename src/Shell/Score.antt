-- ===== src/Shell/Score.antt =====
-- src/shell.rs: how well a text matches a query, `fuzzy_score`. A position in a text is one in its
-- UTF-8 bytes.
use turtletap.Prelude.{
  ℕ, ◌+◌, ◌-◌, Bool, true, false, not, ◌&&◌, Option, none, some, List, [], ◌∷◌, ltb, ◌==◌, any,
  if◌then◌else◌,
}
use turtletap.Prelude.Strings.{text_eq, split}
use turtletap.Protocol.{Text}

unfoldable pub len_utf8 : ℕ → ℕ
len_utf8 c = if ltb c 0x80 then 1 else if ltb c 0x800 then 2 else if ltb c 0x10000 then 3 else 4

unfoldable pub starts_with : Text → Text → Bool
starts_with s [] = true
starts_with [] (c ∷ needle) = false
starts_with (d ∷ s) (c ∷ needle) = c == d && starts_with s needle

-- `str::find`, from a position on.
unfoldable pub find_text : Text → ℕ → Text → Option ℕ
unfolding starts_with len_utf8
find_text needle position [] = if starts_with [] needle then some position else none
find_text needle position (c ∷ s) =
    let rest = find_text needle (position + len_utf8 c) s in
    if starts_with (c ∷ s) needle then some position else rest

-- The next place of a character: what is behind it, and its position.
unfoldable pub seek : ℕ → ℕ → Text → Option (Text × ℕ)
unfolding len_utf8
seek c position [] = none
seek c position (d ∷ s) =
    let rest = seek c (position + len_utf8 d) s in if c == d then some (s, position) else rest

unfoldable pub first_or : Option ℕ → ℕ → ℕ
first_or none position = position
first_or (some first) position = first

-- The characters of the needle in their order: the distance from the first to the last.
unfoldable pub spread : Text → ℕ → Text → Option ℕ → ℕ → Option ℕ
unfolding seek first_or len_utf8
spread [] cursor s first last = some (100 + (last - first_or first 0))
spread (c ∷ needle) cursor s first last = elim (seek c cursor s) [
  | none ↦ none
  | some (rest, position) ↦
      spread needle (position + len_utf8 c) rest (some (first_or first position)) position
]

unfoldable pub or_else : Option ℕ → Option ℕ → Option ℕ
or_else none other = other
or_else (some n) other = some n

unfoldable pub raised : ℕ → Option ℕ → Option ℕ
raised base none = none
raised base (some n) = some (base + n)

unfoldable pub fuzzy_score : (ℕ → Bool) → Text → Text → Text → Option ℕ
unfolding split text_eq starts_with find_text spread or_else raised
fuzzy_score is_alphanumeric needle label haystack =
    let words = split (λ c. not (is_alphanumeric c)) label in
    if text_eq label needle
    then some 0
    else if any (λ word. text_eq word needle) words
    then some 10
    else if any (λ word. starts_with word needle) words
    then some 20
    else or_else (raised 30 (find_text needle 0 label))
        (or_else (raised 50 (find_text needle 0 haystack)) (spread needle 0 haystack none 0))

unfoldable pub filled : Text → Bool
filled [] = false
filled (c ∷ s) = true

-- `try_fold` over the words of the query.
unfoldable pub total_score : (Text → Option ℕ) → ℕ → List Text → Option ℕ
total_score score total [] = some total
total_score score total (word ∷ words) = elim (score word) [
  | none ↦ none
  | some n ↦ total_score score (total + n) words
]
