-- ===== src/Binding/Labels.antt =====
-- src/binding.rs: chords and modifiers as text: the label on the screen, and the configuration
-- format with its parser.
use turtletap.Prelude.{
  ℕ, Bool, true, false, ◌&&◌, none, some, List, [], ◌∷◌, ◌++◌, leb, ◌==◌, if◌then◌else◌, Result, ok,
  err,
}
use turtletap.Prelude.Fallible.{◌>>=◌}
use turtletap.Prelude.Strings.{
  codes, to_ascii_lowercase, digits_u8, join, trim_end_matches, find_name,
}
use turtletap.Protocol.{Text}
use turtletap.Binding.{
  KeyCode, KeyModifiers, KeyBinding, backspace, enter, left, right, up, down, home, end, page_up,
  page_down, tab, back_tab, delete, insert, esc, f, char, other,
}
use turtletap.Binding.Chords
use turtletap.Binding.Chords.{
  Flag, contains, is_empty, empty, canonical, KeyBindingError, missing_key, empty_modifier,
  missing_modifier, unsupported_key, unsupported_modifier, repeated_modifier, unsupported_code,
}

-- The names of the flags that are set, in the order in which the source tests them.
unfoldable pub flag_names : List (Flag × Text) → KeyModifiers → List Text
unfolding contains
flag_names [] m = []
flag_names ((flag, name) ∷ flags) m =
    let rest = flag_names flags m in if contains m flag then name ∷ rest else rest

-- `cfg!(target_os = "macos")` and `char::to_uppercase` are parameters.
shown_flags : Bool → List (Flag × Text)
shown_flags macos =
    (Flag.control, codes "Ctrl")
    ∷ (Flag.alt, codes "Alt")
    ∷ (Flag.shift, codes "Shift")
    ∷ (Flag.super, if macos then codes "Cmd" else codes "Super")
    ∷ []

shown_code : (ℕ → Text) → KeyCode → Text
unfolding digits_u8
shown_code to_uppercase backspace = codes "Backspace"
shown_code to_uppercase enter = codes "Enter"
shown_code to_uppercase left = codes "Left"
shown_code to_uppercase right = codes "Right"
shown_code to_uppercase up = codes "Up"
shown_code to_uppercase down = codes "Down"
shown_code to_uppercase home = codes "Home"
shown_code to_uppercase end = codes "End"
shown_code to_uppercase page_up = codes "PageUp"
shown_code to_uppercase page_down = codes "PageDown"
shown_code to_uppercase tab = codes "Tab"
shown_code to_uppercase back_tab = codes "BackTab"
shown_code to_uppercase delete = codes "Delete"
shown_code to_uppercase insert = codes "Insert"
shown_code to_uppercase (f n) = b'F' ∷ digits_u8 n
shown_code to_uppercase (char c) = if c == b' ' then codes "Space" else to_uppercase c
shown_code to_uppercase esc = codes "Esc"
shown_code to_uppercase (other n) = codes "Key"

unfoldable pub label : Bool → (ℕ → Text) → KeyBinding → Text
unfolding flag_names shown_flags shown_code join
label macos to_uppercase self =
    join b'-'
      (flag_names (shown_flags macos) self.modifiers ++ shown_code to_uppercase self.code ∷ [])

unfoldable pub key_code_config_label : KeyCode → Result KeyBindingError Text
unfolding digits_u8 to_ascii_lowercase
key_code_config_label backspace = ok (codes "backspace")
key_code_config_label enter = ok (codes "enter")
key_code_config_label left = ok (codes "left")
key_code_config_label right = ok (codes "right")
key_code_config_label up = ok (codes "up")
key_code_config_label down = ok (codes "down")
key_code_config_label home = ok (codes "home")
key_code_config_label end = ok (codes "end")
key_code_config_label page_up = ok (codes "pageup")
key_code_config_label page_down = ok (codes "pagedown")
key_code_config_label tab = ok (codes "tab")
key_code_config_label back_tab = ok (codes "backtab")
key_code_config_label delete = ok (codes "delete")
key_code_config_label insert = ok (codes "insert")
key_code_config_label esc = ok (codes "esc")
key_code_config_label (f n) =
    if leb 1 n && leb n 24 then ok (b'f' ∷ digits_u8 n) else err (unsupported_code (f n))
key_code_config_label (char c) =
    if c == b' ' then ok (codes "space") else ok (to_ascii_lowercase c ∷ [])
key_code_config_label (other n) = err (unsupported_code (other n))

abbrev pub stored_flags : List (Flag × Text)
stored_flags =
    (Flag.control, codes "ctrl")
    ∷ (Flag.alt, codes "alt")
    ∷ (Flag.shift, codes "shift")
    ∷ (Flag.super, codes "super")
    ∷ []

unfoldable pub config_label : KeyBinding → Result KeyBindingError Text
unfolding flag_names canonical key_code_config_label
config_label self = do
  binding ← canonical self
  key ← key_code_config_label binding.code
  ok (join b'-' (flag_names stored_flags binding.modifiers ++ key ∷ []))

unfoldable pub key_modifiers_config_label : KeyModifiers → Result KeyBindingError Text
unfolding is_empty config_label trim_end_matches
key_modifiers_config_label modifiers = if is_empty modifiers then ok (codes "none") else (do
  text ← config_label (record { code = char b'1'; modifiers = modifiers })
  ok (trim_end_matches (codes "-1") text))

-- The match of `parse_modifier_parts`.
abbrev pub modifier_names : List (Text × Flag)
modifier_names =
    (codes "ctrl", Flag.control)
    ∷ (codes "control", Flag.control)
    ∷ (codes "alt", Flag.alt)
    ∷ (codes "option", Flag.alt)
    ∷ (codes "opt", Flag.alt)
    ∷ (codes "shift", Flag.shift)
    ∷ (codes "super", Flag.super)
    ∷ (codes "cmd", Flag.super)
    ∷ (codes "command", Flag.super)
    ∷ []

unknown_modifier : Text → KeyBindingError
unknown_modifier [] = empty_modifier
unknown_modifier (c ∷ part) = unsupported_modifier (c ∷ part)

-- The loop of `parse_modifier_parts`, with the flags so far.
unfoldable pub parse_modifiers : KeyModifiers → List Text → Result KeyBindingError KeyModifiers
unfolding find_name contains Chords.insert unknown_modifier
parse_modifiers m [] = ok m
parse_modifiers m (part ∷ parts) = elim (find_name part modifier_names) [
  | none ↦ err (unknown_modifier part)
  | some flag ↦ elim (contains m flag) [
    | true ↦ err (repeated_modifier part)
    | false ↦ parse_modifiers (Chords.insert flag m) parts
  ]
]

unfoldable pub parse_modifier_parts : List Text → Result KeyBindingError KeyModifiers
unfolding parse_modifiers
parse_modifier_parts parts = parse_modifiers empty parts
