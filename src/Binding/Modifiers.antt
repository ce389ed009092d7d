-- ===== src/Binding/Modifiers.antt =====
-- src/binding.rs: what the parser makes of the configuration text of a set of flags.
use turtletap.Prelude.{ℕ, zero, suc, ◌≡◌, ◌∙◌, refl, sym, ap, Bool, true, false, arith, ok}
use turtletap.Prelude.Fallible.{◌>>=◌}
use turtletap.Prelude.Strings.{join}
use turtletap.Protocol.{Text}
use turtletap.Binding.{KeyModifiers}
use turtletap.Binding.Labels.{config_label, key_modifiers_config_label}
use turtletap.Binding.Parse.{parse_key_modifiers}
use turtletap.Binding.Parts.{flagged}

parse-stored :
    (c a s p : Bool)
    → (key_modifiers_config_label (flagged c a s p) >>= parse_key_modifiers) ≡ ok (flagged c a s p)
unfolding key_modifiers_config_label parse_key_modifiers join
parse-stored true true true true = refl
parse-stored true true true false = refl
parse-stored true true false true = refl
parse-stored true true false false = refl
parse-stored true false true true = refl
parse-stored true false true false = refl
parse-stored true false false true = refl
parse-stored true false false false = refl
parse-stored false true true true = refl
parse-stored false true true false = refl
parse-stored false true false true = refl
parse-stored false true false false = refl
parse-stored false false true true = refl
parse-stored false false true false = refl
parse-stored false false false true = refl
parse-stored false false false false = refl

parse-bits :
    (c a s p : Bool) (bits : ℕ) (label : Text)
    → key_modifiers_config_label (record (flagged c a s p) { others = bits }) ≡ ok label
    → parse_key_modifiers label ≡ ok (record (flagged c a s p) { others = bits })
unfolding key_modifiers_config_label config_label
parse-bits c a s p zero label h = ap (λ r. r >>= parse_key_modifiers) (sym h) ∙ parse-stored c a s p
parse-bits c a s p (suc n) label h = absurd (ground arith)

-- A set of flags that is stored is read back as it was.
pub parse_key_modifiers-config_label :
    (m : KeyModifiers) (label : Text)
    → key_modifiers_config_label m ≡ ok label
    → parse_key_modifiers label ≡ ok m
parse_key_modifiers-config_label m label h =
    parse-bits m.control m.alt m.shift m.super m.others label h
