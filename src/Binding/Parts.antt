-- ===== src/Binding/Parts.antt =====
-- src/binding.rs: how `from_str` cuts a text of flags and a key into its parts.
use turtletap.Prelude.{
  ℕ, ◌≡◌, refl, ap, Bool, true, false, ◌&&◌, some, List, [], ◌∷◌, ◌++◌, arith, leb, all, ok, ◌∙◌,
}
use turtletap.Prelude.Strings.{is_whitespace, join, lowercase, pop, split, to_ascii_lowercase}
use turtletap.Prelude.Trim.{trim, trim_start, trim_end}
use turtletap.Protocol.{Text}
use turtletap.Binding.{KeyModifiers}
use turtletap.Binding.Chords.{Flag}
use turtletap.Binding.Labels.{flag_names, stored_flags, parse_modifier_parts}
use turtletap.Binding.Parse.{is_dash}

abbrev letter : ℕ → Bool
letter c = leb b'a' c && leb c b'z'

-- A word of lower-case letters.
abbrev plain : Text → Bool
plain [] = false
plain (c ∷ cs) = letter c && all letter cs

-- The parts of a text that does not begin with white space.
unfoldable pub parts : Text → List Text
unfolding split lowercase trim_end
parts t = split is_dash (lowercase (trim_end t))

trim_end-dash : (n t : Text) → trim_end (n ++ b'-' ∷ t) ≡ n ++ b'-' ∷ trim_end t
unfolding trim_end is_whitespace
trim_end-dash [] [] = refl
trim_end-dash [] (c ∷ t) = ground arith
trim_end-dash (c ∷ []) t = rw (trim_end-dash [] t) refl
trim_end-dash (c ∷ d ∷ n) t = rw (trim_end-dash (d ∷ n) t) refl

split-name :
    (n t : Text)
    → all letter n ≡ true
    → split is_dash (lowercase (n ++ b'-' ∷ t)) ≡ n ∷ split is_dash (lowercase t)
unfolding split lowercase to_ascii_lowercase
split-name [] t h = refl
split-name (c ∷ n) t h = ground (arith, split-name n t)

parts-name : (n t : Text) → plain n ≡ true → parts (n ++ b'-' ∷ t) ≡ n ∷ parts t
unfolding parts
parts-name [] t h = ground arith
parts-name (c ∷ n) t h =
    ap (λ s. split is_dash (lowercase s)) (trim_end-dash (c ∷ n) t)
    ∙ split-name (c ∷ n) (trim_end t) h

parts-join :
    (ns : List Text) (k : Text)
    → all plain ns ≡ true
    → parts (join b'-' (ns ++ k ∷ [])) ≡ ns ++ parts k
unfolding join
parts-join [] k h = refl
parts-join (n ∷ []) k h = parts-name n k (ground arith)
parts-join (n ∷ m ∷ ns) k h =
    parts-name n (join b'-' (m ∷ ns ++ k ∷ [])) (ground arith)
    ∙ ap (◌∷◌ n) (parts-join (m ∷ ns) k (ground arith))

trim_start-plain : (n t : Text) → plain n ≡ true → trim_start (n ++ t) ≡ n ++ t
unfolding trim_start is_whitespace
trim_start-plain [] t h = ground arith
trim_start-plain (c ∷ n) t h = ground arith

-- `trim` takes nothing off the front when there is a flag.
trim-join :
    (n : Text) (ns : List Text) (k : Text)
    → plain n ≡ true
    → trim (join b'-' (n ∷ ns ++ k ∷ [])) ≡ trim_end (join b'-' (n ∷ ns ++ k ∷ []))
unfolding trim join
trim-join n [] k h = ap trim_end (trim_start-plain n (b'-' ∷ k) h)
trim-join n (m ∷ ns) k h = ap trim_end (trim_start-plain n (b'-' ∷ join b'-' (m ∷ ns ++ k ∷ [])) h)

-- The words before the key come back as they are.
pub split-join :
    (ns : List Text) (k : Text)
    → all plain ns ≡ true
    → trim k ≡ trim_end k
    → split is_dash (lowercase (trim (join b'-' (ns ++ k ∷ [])))) ≡ ns ++ parts k
unfolding parts join
split-join [] k h front = ap (λ s. split is_dash (lowercase s)) front
split-join (n ∷ ns) k h front =
    ap (λ s. split is_dash (lowercase s)) (trim-join n ns k (ground arith))
    ∙ parts-join (n ∷ ns) k h

pub pop-append : (ns : List Text) (k : Text) → pop (ns ++ k ∷ []) ≡ some (ns, k)
unfolding pop
pop-append [] k = refl
pop-append (n ∷ []) k = refl
pop-append (n ∷ m ∷ ns) k = rw (pop-append (m ∷ ns) k) refl

plain-flag_names :
    (flags : List (Flag × Text)) (m : KeyModifiers)
    → all (λ e. plain e.1) flags ≡ true
    → all plain (flag_names flags m) ≡ true
unfolding flag_names
plain-flag_names [] m h = refl
plain-flag_names ((flag, name) ∷ flags) m h = ground (arith, plain-flag_names flags m)

pub plain-stored : (m : KeyModifiers) → all plain (flag_names stored_flags m) ≡ true
plain-stored m = plain-flag_names stored_flags m refl

-- The flags of configuration.
abbrev pub flagged : Bool → Bool → Bool → Bool → KeyModifiers
flagged c a s p = record { control = c; alt = a; shift = s; super = p; others = 0 }

-- The flags come back.
pub parse_modifier_parts-flag_names :
    (c a s p : Bool)
    → parse_modifier_parts (flag_names stored_flags (flagged c a s p)) ≡ ok (flagged c a s p)
unfolding parse_modifier_parts flag_names
parse_modifier_parts-flag_names true true true true = refl
parse_modifier_parts-flag_names true true true false = refl
parse_modifier_parts-flag_names true true false true = refl
parse_modifier_parts-flag_names true true false false = refl
parse_modifier_parts-flag_names true false true true = refl
parse_modifier_parts-flag_names true false true false = refl
parse_modifier_parts-flag_names true false false true = refl
parse_modifier_parts-flag_names true false false false = refl
parse_modifier_parts-flag_names false true true true = refl
parse_modifier_parts-flag_names false true true false = refl
parse_modifier_parts-flag_names false true false true = refl
parse_modifier_parts-flag_names false true false false = refl
parse_modifier_parts-flag_names false false true true = refl
parse_modifier_parts-flag_names false false true false = refl
parse_modifier_parts-flag_names false false false true = refl
parse_modifier_parts-flag_names false false false false = refl
