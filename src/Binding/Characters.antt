-- ===== src/Binding/Characters.antt =====
-- src/binding.rs: the parser on the text of a chord, and on that of a chord with a character.
use mathlib.Core.List.{append_assoc}
use turtletap.Prelude.{
  ℕ, ◌≡◌, ◌∙◌, refl, sym, inl, inr, Bool-cases, ap, Bool, true, false, not, ◌||◌, List, [], ◌∷◌,
  ◌++◌, arith, ◌==◌, if◌then◌else◌, ok, err,
}
use turtletap.Prelude.Strings.{codes, is_whitespace, to_ascii_lowercase, join}
use turtletap.Prelude.Trim.{trim, trim_end}
use turtletap.Protocol.{Text}
use turtletap.Binding.{KeyCode, KeyModifiers, char}
use turtletap.Binding.Chords.{canonical, missing_key}
use turtletap.Binding.Labels.{flag_names, stored_flags, config_label, key_code_config_label}
use turtletap.Binding.Parse.{from_str, parse_key_code}
use turtletap.Binding.Parts.{
  flagged, parts, split-join, pop-append, plain-stored, parse_modifier_parts-flag_names,
}
use turtletap.Binding.Stored.{Names, trim-one, char-Names}

-- A key that the parser reads back from its text.
unfoldable pub readable : KeyCode → Bool
readable (char c) = (c == b' ') || not (is_whitespace c || (c == b'-'))
readable _ = true

unfoldable pub stored : KeyModifiers → Text → Text
unfolding flag_names join
stored m key = join b'-' (flag_names stored_flags m ++ key ∷ [])

pub from_str-stored :
    (c a s p : Bool) (x : ℕ) (xs : Text) (code : KeyCode)
    → Names (x ∷ xs) code
    → from_str (stored (flagged c a s p) (x ∷ xs))
      ≡ canonical (record { code = code; modifiers = flagged c a s p })
unfolding from_str stored
from_str-stored c a s p x xs code (front, part, named) =
    let m = flagged c a s p in
    let names = flag_names stored_flags m in
    let cut = split-join names (x ∷ xs) (plain-stored m) front ∙ ap (names ++◌) part in
    rw (cut, pop-append names (x ∷ xs), parse_modifier_parts-flag_names c a s p, named) refl

from_str-stored_none :
    (c a s p : Bool) (k : Text) (qs : List Text)
    → trim k ≡ trim_end k
    → parts k ≡ qs ++ [] ∷ []
    → from_str (stored (flagged c a s p) k) ≡ err missing_key
unfolding from_str stored
from_str-stored_none c a s p k qs front h =
    let names = flag_names stored_flags (flagged c a s p) in
    let cut = split-join names k (plain-stored (flagged c a s p)) front ∙ ap (names ++◌) h in
    rw (cut, sym (append_assoc names qs ([] ∷ [])), pop-append (names ++ qs) []) refl

key_code_config_label-char :
    (x : ℕ)
    → key_code_config_label (char (to_ascii_lowercase x))
      ≡ (if x == b' ' then ok (codes "space") else ok (to_ascii_lowercase x ∷ []))
unfolding key_code_config_label to_ascii_lowercase
key_code_config_label-char x = ground arith

unreadable :
    (x : ℕ)
    → (x == b' ') ≡ false
    → (is_whitespace x || (x == b'-')) ≡ true
    → readable (char x) ≡ false
unfolding readable
unreadable x h bad = ground arith

is-readable : (x : ℕ) → (is_whitespace x || (x == b'-')) ≡ false → readable (char x) ≡ true
unfolding readable
is-readable x good = ground arith

canonical-lower :
    (c a s p : Bool) (x : ℕ)
    → canonical (record { code = char (to_ascii_lowercase x); modifiers = flagged c a s p })
      ≡ canonical (record { code = char x; modifiers = flagged c a s p })
unfolding canonical to_ascii_lowercase
canonical-lower c a s p x = ground arith

-- What is stored for a character other than the space.
from_str-lower :
    (c a s p : Bool) (x : ℕ)
    → (x == b' ') ≡ false
    → from_str (stored (flagged c a s p) (to_ascii_lowercase x ∷ [])) ≡ (
        if readable (char x)
        then canonical (record { code = char x; modifiers = flagged c a s p })
        else err missing_key)
unfolding parts to_ascii_lowercase is_whitespace
from_str-lower c a s p x h = elim (Bool-cases (x == b'-')) [
  | inl dash ↦ rw (unreadable x h (ground arith)) (
      from_str-stored_none c a s p (to_ascii_lowercase x ∷ []) ([] ∷ [])
        (trim-one (to_ascii_lowercase x)) (ground arith))
  | inr no_dash ↦ elim (Bool-cases (is_whitespace x)) [
    | inl space ↦ rw (unreadable x h (ground arith)) (
        from_str-stored_none c a s p (to_ascii_lowercase x ∷ []) []
          (trim-one (to_ascii_lowercase x)) (ground arith))
    | inr solid ↦
        rw (is-readable x (ground arith), sym (canonical-lower c a s p x))
          (from_str-stored c a s p (to_ascii_lowercase x) [] (char (to_ascii_lowercase x))
            (char-Names (to_ascii_lowercase x) (ground arith) (ground arith) (ground arith)))
  ]
]

from_str-space :
    (c a s p : Bool)
    → from_str (stored (flagged c a s p) (codes "space"))
      ≡ canonical (record { code = char b' '; modifiers = flagged c a s p })
unfolding parts is_whitespace trim parse_key_code
from_str-space c a s p = from_str-stored c a s p b's' (codes "pace") (char b' ') (refl, refl, refl)

-- A character, from the text that is stored for it.
pub from_str-char :
    (c a s p : Bool) (x : ℕ) (text : Text)
    → config_label (record { code = char x; modifiers = flagged c a s p }) ≡ ok text
    → from_str text ≡ (
        if readable (char x)
        then canonical (record { code = char x; modifiers = flagged c a s p })
        else err missing_key)
unfolding config_label readable stored
from_str-char c a s p x text h = elim (Bool-cases (x == b' ')) [
  | inl space ↦
      let is_space : x ≡ b' ' = ground arith in
      let kept : config_label (record { code = char x; modifiers = flagged c a s p })
          ≡ ok (stored (flagged c a s p) (codes "space")) =
        rw (key_code_config_label-char x, space) refl in
      let same : text ≡ stored (flagged c a s p) (codes "space") = cc (h, kept) in
      rw (same, is_space) (from_str-space c a s p)
  | inr no_space ↦
      let kept : config_label (record { code = char x; modifiers = flagged c a s p })
          ≡ ok (stored (flagged c a s p) (to_ascii_lowercase x ∷ [])) =
        rw (key_code_config_label-char x, no_space) refl in
      let same : text ≡ stored (flagged c a s p) (to_ascii_lowercase x ∷ []) = cc (h, kept) in
      rw same (from_str-lower c a s p x no_space)
]
