-- ===== src/Binding/Stored.antt =====
-- src/binding.rs: the parser on the texts that `key_code_config_label` writes.
use turtletap.Prelude.{
  ℕ, ◌≡◌, ◌≢◌, refl, Bool, true, false, ◌&&◌, none, List, [], ◌∷◌, arith, leb, length, ok,
}
use turtletap.Prelude.Strings.{
  digits_u8, find_name, is_whitespace, split, text_eq, to_ascii_lowercase,
}
use turtletap.Prelude.Trim.{trim, trim_end}
use turtletap.Protocol.{Text}
use turtletap.Binding.{KeyCode, char, f}
use turtletap.Binding.Parts.{parts}
use turtletap.Binding.Parse.{parse_key_code, unnamed_key, key_names}

-- A text that the parser reads as one part, which stands for the code.
abbrev pub Names : Text → KeyCode → Type 0
Names key code = (trim key ≡ trim_end key) × (parts key ≡ key ∷ []) × (parse_key_code key ≡ ok code)

long_names : {A : Type 0} → List (Text × A) → Bool
long_names [] = true
long_names ((name, a) ∷ names) = leb 2 (length name) && long_names names

find_name-short :
    {A : Type 0} (c : ℕ) (names : List (Text × A))
    → long_names names ≡ true
    → find_name (c ∷ []) names ≡ none
unfolding find_name long_names text_eq
find_name-short c [] h = refl
find_name-short c (([], a) ∷ names) h = ground arith
find_name-short c ((x ∷ [], a) ∷ names) h = ground arith
find_name-short c ((x ∷ y ∷ xs, a) ∷ names) h =
    ground (arith, find_name-short c names (ground arith))

parse-char : (c : ℕ) → parse_key_code (c ∷ []) ≡ ok (char c)
unfolding parse_key_code long_names
parse-char c = rw (parse_key_code, find_name-short c key_names refl) refl

pub trim-one : (c : ℕ) → trim (c ∷ []) ≡ trim_end (c ∷ [])
unfolding trim trim_end
trim-one c = ground arith

-- A single character stands for itself, in lower case.
pub char-Names :
    (c : ℕ)
    → is_whitespace c ≡ false
    → c ≢ b'-'
    → to_ascii_lowercase c ≡ c
    → Names (c ∷ []) (char c)
unfolding trim trim_end parts
char-Names c solid not_dash low = (trim-one c, ground arith, parse-char c)

pub f-Names : (n : ℕ) → leb 1 n && leb n 24 ≡ true → Names (b'f' ∷ digits_u8 n) (f n)
unfolding trim split parts trim_end parse_key_code unnamed_key digits_u8 is_whitespace
    to_ascii_lowercase
f-Names n h = (refl, ground arith, ground arith)
