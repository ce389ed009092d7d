-- ===== src/Binding/Safe.antt =====
-- src/binding.rs: what a set of bindings that `validate` accepts guarantees.
pub mod Keys
pub mod Pairs
pub mod Flags
use turtletap.Prelude.{
  ℕ, ◌≤◌, ◌≡◌, ◌↔◌, refl, Bool, true, false, ◌&&◌, Option, none, some, List, [], ◌∷◌, arith, leb,
  Result, ok, err,
}
use turtletap.Prelude.Members.{
  has, same, find, filter, duplicate, each, Distinct, has-filter, same_iff,
}
use turtletap.Protocol.{Text}
use turtletap.Binding.{KeyModifiers, KeyBinding, binding_key, modifiers_key}
use turtletap.Binding.Chords.{empty, is_empty, canonical, KeyBindingError}
use turtletap.Binding.Labels.{key_modifiers_config_label}
use turtletap.Binding.Actions.{
  BindingContext, KeyId, ModifierId, BindingId, leaders, key_bindings, key_id, modifier_id,
}
use turtletap.Binding.Catalog.{accepts_text, context}
use turtletap.Binding.Sets.{ShellBindings, action_key, KeyId-discrete}
use turtletap.Binding.Validate.{context_key, in_context, types_text, jump_chord, validate}

-- A chord that an action may have: it can be stored, and it takes no text from the user where
-- there is a field for it.
pub record SafeKey (id : BindingId) (k : KeyBinding) : Type 0 where
  pub stored : (c : KeyBinding) × (canonical k ≡ ok c)
  pub no_text :
      accepts_text (context id) ≡ true → is_empty k.modifiers ≡ true → types_text k.code ≡ false

-- The chords of one action, none of them twice.
pub record SafeKeys (b : ShellBindings) (i : KeyId) : Type 0 where
  pub safe : (k : KeyBinding) → has (b.key_lists i) k ≡ true → SafeKey (key_id i) k
  pub distinct : Distinct (b.key_lists i)

-- The flags of one jump: each set can be stored, none is empty where there is a field for text,
-- none stands twice, and no digit with one of them is the chord of an action.
pub record SafeFlags (b : ShellBindings) (m : ModifierId) : Type 0 where
  pub stored :
      (f : KeyModifiers)
      → has (b.modifier_lists m) f ≡ true
      → (label : Text) × (key_modifiers_config_label f ≡ ok label)
  pub no_text :
      accepts_text (context (modifier_id m)) ≡ true → has (b.modifier_lists m) empty ≡ false
  pub distinct : Distinct (b.modifier_lists m)
  pub no_jump :
      (i : KeyId) (f : KeyModifiers) (digit : ℕ)
      → context (key_id i) ≡ context (modifier_id m)
      → has (b.modifier_lists m) f ≡ true
      → b'1' ≤ digit
      → digit ≤ b'9'
      → has (b.key_lists i) (jump_chord f digit) ≡ false

-- And in one context a chord belongs to one action.
pub record IsSafe (b : ShellBindings) : Type 0 where
  pub keys : (i : KeyId) → SafeKeys b i
  pub one_action :
      (i j : KeyId) (k : KeyBinding)
      → context (key_id i) ≡ context (key_id j)
      → has (b.key_lists i) k ≡ true
      → has (b.key_lists j) k ≡ true
      → i ≡ j
  pub flags : (m : ModifierId) → SafeFlags b m

-- The loops meet every action.
pub listed : (i : KeyId) → has key_bindings i ≡ true
unfolding has same KeyId-discrete
listed i = elim i as (λ i. has key_bindings i ≡ true) [ leaders ↦ refl | _ ↦ refl ]

pub in_context_iff :
    (c : BindingContext) (i : KeyId)
    → (has (filter (in_context c) key_bindings) i ≡ true) ↔ (context (key_id i) ≡ c)
unfolding in_context
in_context_iff c i =
    grind
      (arith, has-filter (in_context c) key_bindings i, listed i, same_iff (context (key_id i)) c)
