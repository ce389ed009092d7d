-- ===== src/Binding/Chords.antt =====
-- src/binding.rs: `KeyBinding`, its normal form, and the modifier flags.
use turtletap.Prelude.{
  ℕ, Bool, true, false, not, ◌&&◌, ◌||◌, leb, ◌==◌, if◌then◌else◌, Result, ok, err,
}
use turtletap.Prelude.Strings.{to_ascii_lowercase}
use turtletap.Protocol.{Text}
use turtletap.Binding.{
  KeyCode, KeyModifiers, KeyBinding, KeyEvent, KeyBinding-discrete, f, char, other,
}

-- `KeyModifiers::empty()` and the flags that configuration knows.
abbrev pub empty : KeyModifiers
empty = record { control = false; alt = false; shift = false; super = false; others = 0 }

abbrev pub control_only : KeyModifiers
control_only = record empty { control = true }

abbrev pub alt_only : KeyModifiers
alt_only = record empty { alt = true }

abbrev pub super_only : KeyModifiers
super_only = record empty { super = true }

pub data Flag : Type 0 where
  control alt shift super : Flag

unfoldable pub contains : KeyModifiers → Flag → Bool
contains m control = m.control
contains m alt = m.alt
contains m shift = m.shift
contains m super = m.super

unfoldable pub insert : Flag → KeyModifiers → KeyModifiers
insert control m = record m { control = true }
insert alt m = record m { alt = true }
insert shift m = record m { shift = true }
insert super m = record m { super = true }

unfoldable pub is_empty : KeyModifiers → Bool
is_empty m = not (m.control || m.alt || m.shift || m.super) && (m.others == 0)

-- An error with a `String` that is the debug text of a code has the code.
pub data KeyBindingError : Type 0 where
  missing_key empty_modifier missing_modifier : KeyBindingError
  unsupported_key unsupported_modifier repeated_modifier : Text → KeyBindingError
  unsupported_code : KeyCode → KeyBindingError
  unsupported_modifier_flags : ℕ → KeyBindingError

-- The chord of an event.
abbrev pub pressed : KeyEvent → KeyBinding
pressed key = record { code = key.code; modifiers = key.modifiers }

unfoldable pub matches : KeyBinding → KeyEvent → Bool
unfolding KeyBinding-discrete
matches self key = elim (KeyBinding-discrete self (pressed key)) [ yes _ ↦ true | no _ ↦ false ]

unfoldable pub canonical_code : KeyCode → Result KeyBindingError KeyCode
unfolding to_ascii_lowercase
canonical_code (char c) = ok (char (to_ascii_lowercase c))
canonical_code (f n) = if leb 1 n && leb n 24 then ok (f n) else err (unsupported_code (f n))
canonical_code (other n) = err (unsupported_code (other n))
canonical_code code = ok code

unfoldable pub canonical : KeyBinding → Result KeyBindingError KeyBinding
unfolding canonical_code
canonical self =
    if self.modifiers.others == 0
    then elim (canonical_code self.code) [
      | err e ↦ err e
      | ok code ↦ ok (record { code = code; modifiers = self.modifiers })
    ]
    else err (unsupported_modifier_flags self.modifiers.others)

unfoldable pub from_event : KeyEvent → Result KeyBindingError KeyBinding
unfolding canonical
from_event event = canonical (pressed event)
