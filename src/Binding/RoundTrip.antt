-- ===== src/Binding/RoundTrip.antt =====
-- src/binding.rs: what the parser makes of the configuration text of a chord.
use turtletap.Prelude.{
  ℕ, zero, suc, ◌≡◌, refl, inl, inr, Bool-cases, Bool, ◌&&◌, ◌∷◌, arith, leb, if◌then◌else◌, ok,
  err,
}
use turtletap.Prelude.Strings.{codes, digits_u8, is_whitespace}
use turtletap.Prelude.Trim.{trim}
use turtletap.Protocol.{Text}
use turtletap.Binding.{
  KeyCode, KeyBinding, char, f, other, backspace, enter, left, right, up, down, home, end, page_up,
  page_down, tab, back_tab, delete, insert, esc,
}
use turtletap.Binding.Chords.{canonical, missing_key}
use turtletap.Binding.Labels.{config_label}
use turtletap.Binding.Parse.{from_str, parse_key_code}
use turtletap.Binding.Parts.{flagged, parts}
use turtletap.Binding.Characters.{readable, stored, from_str-stored, from_str-char}
use turtletap.Binding.Stored.{Names, f-Names}

from_str-key :
    (code : KeyCode) (c a s p : Bool) (x : ℕ) (xs text : Text)
    → config_label (record { code = code; modifiers = flagged c a s p })
      ≡ ok (stored (flagged c a s p) (x ∷ xs))
    → config_label (record { code = code; modifiers = flagged c a s p }) ≡ ok text
    → Names (x ∷ xs) code
    → from_str text ≡ canonical (record { code = code; modifiers = flagged c a s p })
from_str-key code c a s p x xs text kept h named =
    let same : text ≡ stored (flagged c a s p) (x ∷ xs) = cc (h, kept) in
    rw same (from_str-stored c a s p x xs code named)

-- The flags of configuration.
from_str-supported :
    (code : KeyCode) (c a s p : Bool) (text : Text)
    → config_label (record { code = code; modifiers = flagged c a s p }) ≡ ok text
    → from_str text ≡ (
        if readable code
        then canonical (record { code = code; modifiers = flagged c a s p })
        else err missing_key)
unfolding readable config_label stored parts is_whitespace trim parse_key_code
from_str-supported (char x) c a s p text h = from_str-char c a s p x text h
from_str-supported (f n) c a s p text h = elim (Bool-cases (leb 1 n && leb n 24)) [
  | inl number ↦
      from_str-key (f n) c a s p b'f' (digits_u8 n) text (ground arith) h (f-Names n number)
  | inr big ↦ absurd (ground arith)
]
from_str-supported (other n) c a s p text h = cc h
from_str-supported backspace c a s p text h =
    from_str-key backspace c a s p b'b' (codes "ackspace") text refl h (refl, refl, refl)
from_str-supported enter c a s p text h =
    from_str-key enter c a s p b'e' (codes "nter") text refl h (refl, refl, refl)
from_str-supported left c a s p text h =
    from_str-key left c a s p b'l' (codes "eft") text refl h (refl, refl, refl)
from_str-supported right c a s p text h =
    from_str-key right c a s p b'r' (codes "ight") text refl h (refl, refl, refl)
from_str-supported up c a s p text h =
    from_str-key up c a s p b'u' (codes "p") text refl h (refl, refl, refl)
from_str-supported down c a s p text h =
    from_str-key down c a s p b'd' (codes "own") text refl h (refl, refl, refl)
from_str-supported home c a s p text h =
    from_str-key home c a s p b'h' (codes "ome") text refl h (refl, refl, refl)
from_str-supported end c a s p text h =
    from_str-key end c a s p b'e' (codes "nd") text refl h (refl, refl, refl)
from_str-supported page_up c a s p text h =
    from_str-key page_up c a s p b'p' (codes "ageup") text refl h (refl, refl, refl)
from_str-supported page_down c a s p text h =
    from_str-key page_down c a s p b'p' (codes "agedown") text refl h (refl, refl, refl)
from_str-supported tab c a s p text h =
    from_str-key tab c a s p b't' (codes "ab") text refl h (refl, refl, refl)
from_str-supported back_tab c a s p text h =
    from_str-key back_tab c a s p b'b' (codes "acktab") text refl h (refl, refl, refl)
from_str-supported delete c a s p text h =
    from_str-key delete c a s p b'd' (codes "elete") text refl h (refl, refl, refl)
from_str-supported insert c a s p text h =
    from_str-key insert c a s p b'i' (codes "nsert") text refl h (refl, refl, refl)
from_str-supported esc c a s p text h =
    from_str-key esc c a s p b'e' (codes "sc") text refl h (refl, refl, refl)

from_str-flags :
    (code : KeyCode) (c a s p : Bool) (bits : ℕ) (text : Text)
    → config_label (record { code = code; modifiers = record (flagged c a s p) { others = bits } })
      ≡ ok text
    → from_str text ≡ (
        if readable code
        then canonical
            (record { code = code; modifiers = record (flagged c a s p) { others = bits } })
        else err missing_key)
unfolding config_label
from_str-flags code c a s p zero text h = from_str-supported code c a s p text h
from_str-flags code c a s p (suc n) text h = absurd (ground arith)

-- A chord that is stored is read back in its normal form, unless its key is the dash or white
-- space other than the space: then the text has no key for the parser.
pub from_str-config_label :
    (b : KeyBinding) (text : Text)
    → config_label b ≡ ok text
    → from_str text ≡ (if readable b.code then canonical b else err missing_key)
from_str-config_label b text h =
    let m = b.modifiers in from_str-flags b.code m.control m.alt m.shift m.super m.others text h
