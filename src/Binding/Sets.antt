-- ===== src/Binding/Sets.antt =====
-- src/binding.rs: `ShellBindings`, the chords of every action. The fields of the struct, which the
-- macro names after the actions, are the values of two functions.
use turtletap.Prelude.{Option, none, some, List, Result, ok, err, Key, Key}
use turtletap.Binding.{KeyModifiers, KeyBinding}
use turtletap.Binding.Actions.{BindingKind, KeyId, ModifierId, BindingId, key_id, modifier_id}

pub record ShellBindings : Type 0 where
  pub key_lists : KeyId → List KeyBinding
  pub modifier_lists : ModifierId → List KeyModifiers

pub record BindingTypeError : Type 0 where
  pub id : BindingId
  pub expected : BindingKind

unfoldable pub KeyId-discrete : Discrete KeyId
KeyId-discrete = hlevel

unfoldable pub ModifierId-discrete : Discrete ModifierId
ModifierId-discrete = hlevel

instance abbrev pub action_key : Key KeyId
action_key = record { dec = KeyId-discrete }

instance abbrev pub jump_key : Key ModifierId
jump_key = record { dec = ModifierId-discrete }

unfoldable pub keys : ShellBindings → BindingId → Option (List KeyBinding)
keys self (key_id id) = some (self.key_lists id)
keys self (modifier_id id) = none

-- An assignment to the field of one action.
unfoldable pub set_field {ℓ} : {I : Type 0} {A : Type ℓ} → Discrete I → I → A → (I → A) → I → A
set_field dec id a fields j = elim (dec id j) [ yes _ ↦ a | no _ ↦ fields j ]

unfoldable pub set_keys :
    BindingId → List KeyBinding → ShellBindings → Result BindingTypeError (Unit {0}) × ShellBindings
unfolding set_field KeyId-discrete
set_keys (key_id id) chords self =
    (ok tt, record self { key_lists = set_field KeyId-discrete id chords self.key_lists })
set_keys (modifier_id id) chords self =
    (err (record { id = modifier_id id; expected = BindingKind.keys }), self)

unfoldable pub modifiers : ShellBindings → BindingId → Option (List KeyModifiers)
modifiers self (key_id id) = none
modifiers self (modifier_id id) = some (self.modifier_lists id)

unfoldable pub set_modifiers :
    BindingId
    → List KeyModifiers
    → ShellBindings
    → Result BindingTypeError (Unit {0}) × ShellBindings
unfolding set_field ModifierId-discrete
set_modifiers (key_id id) flags self =
    (err (record { id = key_id id; expected = BindingKind.modifiers }), self)
set_modifiers (modifier_id id) flags self = (
  ok tt,
  record self { modifier_lists = set_field ModifierId-discrete id flags self.modifier_lists },
)
