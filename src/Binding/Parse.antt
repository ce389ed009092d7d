-- ===== src/Binding/Parse.antt =====
-- src/binding.rs: the parser of chords and of modifier values.
use turtletap.Prelude.{
  ℕ, ◌+◌, ◌-◌, ◌*◌, Bool, ◌&&◌, ◌||◌, Option, none, some, List, [], ◌∷◌, leb, ◌==◌, if◌then◌else◌,
  Result, ok, err,
}
use turtletap.Prelude.Fallible.{◌>>=◌}
use turtletap.Prelude.Strings.{codes, text_eq, lowercase, split, pop, find_name}
use turtletap.Prelude.Trim.{trim}
use turtletap.Protocol.{Text}
use turtletap.Binding.{
  KeyCode, KeyModifiers, KeyBinding, backspace, enter, left, right, up, down, home, end, page_up,
  page_down, tab, back_tab, delete, insert, esc, f, char,
}
use turtletap.Binding.Chords.{
  empty, is_empty, canonical, KeyBindingError, missing_key, missing_modifier, unsupported_key,
}
use turtletap.Binding.Labels.{parse_modifier_parts}

-- `str::parse::<u8>`: an optional plus sign and at least one digit, up to 255.
unfoldable pub parse_digits : ℕ → List ℕ → Option ℕ
parse_digits n [] = some n
parse_digits n (c ∷ cs) =
    let rest = parse_digits (n * 10 + (c - b'0')) cs in
    if leb b'0' c && leb c b'9' && leb (n * 10 + (c - b'0')) 255 then rest else none

unfoldable pub parse_u8 : List ℕ → Option ℕ
unfolding parse_digits
parse_u8 [] = none
parse_u8 (c ∷ []) = parse_digits 0 (c ∷ [])
parse_u8 (c ∷ d ∷ cs) = if c == b'+' then parse_digits 0 (d ∷ cs) else parse_digits 0 (c ∷ d ∷ cs)

-- The literals of the match in `parse_key_code`.
abbrev pub key_names : List (Text × KeyCode)
key_names =
    (codes "backspace", backspace)
    ∷ (codes "enter", enter)
    ∷ (codes "return", enter)
    ∷ (codes "left", left)
    ∷ (codes "right", right)
    ∷ (codes "up", up)
    ∷ (codes "down", down)
    ∷ (codes "home", home)
    ∷ (codes "end", end)
    ∷ (codes "pageup", page_up)
    ∷ (codes "pgup", page_up)
    ∷ (codes "pagedown", page_down)
    ∷ (codes "pgdown", page_down)
    ∷ (codes "tab", tab)
    ∷ (codes "backtab", back_tab)
    ∷ (codes "delete", delete)
    ∷ (codes "del", delete)
    ∷ (codes "insert", insert)
    ∷ (codes "ins", insert)
    ∷ (codes "escape", esc)
    ∷ (codes "esc", esc)
    ∷ (codes "space", char b' ')
    ∷ []

unfoldable pub function_key : Text → Option ℕ → Result KeyBindingError KeyCode
function_key key none = err (unsupported_key key)
function_key key (some n) = if leb 1 n && leb n 24 then ok (f n) else err (unsupported_key key)

-- A key that has no name: one character, or `f` and a number.
unfoldable pub unnamed_key : Text → Result KeyBindingError KeyCode
unfolding function_key parse_u8
unnamed_key [] = err (unsupported_key [])
unnamed_key (c ∷ []) = ok (char c)
unnamed_key (c ∷ d ∷ cs) =
    if c == b'f'
    then function_key (c ∷ d ∷ cs) (parse_u8 (d ∷ cs))
    else err (unsupported_key (c ∷ d ∷ cs))

unfoldable pub parse_key_code : Text → Result KeyBindingError KeyCode
unfolding find_name unnamed_key
parse_key_code key = elim (find_name key key_names) [ some code ↦ ok code | none ↦ unnamed_key key ]

-- `pop`, and the test that the key is not empty.
unfoldable pub last_part : Option (List Text × Text) → Result KeyBindingError (List Text × Text)
last_part none = err missing_key
last_part (some (parts, [])) = err missing_key
last_part (some (parts, c ∷ key)) = ok (parts, c ∷ key)

abbrev pub is_dash : ℕ → Bool
is_dash c = c == b'-'

-- `FromStr` for `KeyBinding`.
unfoldable pub from_str : Text → Result KeyBindingError KeyBinding
unfolding lowercase trim split pop last_part parse_modifier_parts parse_key_code canonical
from_str value = do
  (parts, key) ← last_part (pop (split is_dash (lowercase (trim value))))
  modifiers ← parse_modifier_parts parts
  code ← parse_key_code key
  canonical (record { code = code; modifiers = modifiers })

abbrev pub is_joint : ℕ → Bool
is_joint c = (c == b'-') || (c == b'+')

unfoldable pub some_modifiers : KeyModifiers → Result KeyBindingError KeyModifiers
unfolding is_empty
some_modifiers m = if is_empty m then err missing_modifier else ok m

unfoldable pub parse_key_modifiers : Text → Result KeyBindingError KeyModifiers
unfolding lowercase trim split parse_modifier_parts some_modifiers text_eq
parse_key_modifiers value =
    let normalized = lowercase (trim value) in
    let parsed = parse_modifier_parts (split is_joint normalized) >>= some_modifiers in
    if text_eq normalized (codes "none") then ok empty else parsed
