-- ===== src/Tests/Binding.antt =====
-- Key bindings: runs on concrete chords and sets, and the theorems on them.
use turtletap.Prelude.{◌≡◌, refl, [], ◌∷◌, ok, err}
use turtletap.Prelude.Strings.{codes, join, is_whitespace}
use turtletap.Binding.{KeyBinding-discrete, backspace, char, right}
use turtletap.Binding.Chords.{empty, alt_only, control_only, super_only, missing_key}
use turtletap.Binding.Labels.{config_label, key_modifiers_config_label}
use turtletap.Binding.Parse.{from_str, parse_key_modifiers}
use turtletap.Binding.Characters.{readable}
use turtletap.Binding.RoundTrip.{from_str-config_label}
use turtletap.Binding.Modifiers.{parse_key_modifiers-config_label}
use turtletap.Binding.Actions.{key_id, session_interrupt}
use turtletap.Binding.Sets.{ShellBindings, set_keys}
use turtletap.Binding.Defaults.{default, chord}
use turtletap.Binding.Validate.{context-discrete, validate, unsafe_text_key}
use turtletap.Binding.Accept.{validate-ok_iff}
use turtletap.Binding.Reports.Loops.{validate-err}
use turtletap.Binding.Reports.{IsViolation}
use turtletap.Binding.Safe.{IsSafe}

parses_alias : from_str (codes " Option-Right ") ≡ ok (chord right alt_only)
unfolding from_str chord
parses_alias = refl

stores_super : config_label (chord backspace super_only) ≡ ok (codes "super-backspace")
unfolding config_label chord join
stores_super = refl

-- A chord with the dash is stored, and its text has no key.
from_str-config_label_example : from_str (codes "ctrl--") ≡ err missing_key
unfolding config_label chord readable join is_whitespace
from_str-config_label_example =
    from_str-config_label (chord (char b'-') control_only) (codes "ctrl--") refl

parse_key_modifiers-config_label_example : parse_key_modifiers (codes "ctrl") ≡ ok control_only
unfolding key_modifiers_config_label join
parse_key_modifiers-config_label_example =
    parse_key_modifiers-config_label control_only (codes "ctrl") refl

-- The bindings of a shell that is not configured are accepted.
default-validate : validate default ≡ ok tt
unfolding validate default KeyBinding-discrete context-discrete
default-validate = refl

validate-ok_iff_example : IsSafe default
validate-ok_iff_example = (validate-ok_iff default).0 default-validate

-- A plain key in a session would take text.
plain_interrupt : ShellBindings
unfolding set_keys
plain_interrupt = (set_keys (key_id session_interrupt) (chord (char b'x') empty ∷ []) default).1

plain_interrupt-validate :
    validate plain_interrupt
    ≡ err (unsafe_text_key (key_id session_interrupt) (chord (char b'x') empty))
unfolding validate default plain_interrupt KeyBinding-discrete
plain_interrupt-validate = refl

validate-err_example :
    IsViolation plain_interrupt
      (unsafe_text_key (key_id session_interrupt) (chord (char b'x') empty))
validate-err_example =
    validate-err plain_interrupt
      (unsafe_text_key (key_id session_interrupt) (chord (char b'x') empty))
      plain_interrupt-validate
