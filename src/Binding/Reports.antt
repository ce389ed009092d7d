-- ===== src/Binding/Reports.antt =====
-- src/binding.rs: the errors of `validate` name violations that are there.
pub mod Loops
use turtletap.Prelude.{
  ℕ, ◌≤◌, ◌≡◌, ◌≢◌, ◌⊎◌, inl, inr, refl, sym, subst, ◌∙◌, Bool, true, false, ◌&&◌, Option, none,
  some, List, [], ◌∷◌, arith, Result, ok, err,
}
use turtletap.Prelude.Fallible.{◌>>◌, >>-err}
use turtletap.Prelude.Members.{
  has, filter, find, duplicate, each, Distinct, Repeated, duplicate-Repeated, find-some, each-err,
  filter-Distinct, has-tail, has-head,
}
use turtletap.Binding.{KeyBinding, KeyModifiers, binding_key, modifiers_key}
use turtletap.Binding.Chords.{empty, is_empty, canonical, KeyBindingError}
use turtletap.Binding.Labels.{key_modifiers_config_label}
use turtletap.Binding.Actions.{
  BindingContext, BindingId, KeyId, ModifierId, key_id, modifier_id, key_bindings,
  modifier_bindings,
}
use turtletap.Binding.Catalog.{accepts_text, context}
use turtletap.Binding.Sets.{ShellBindings, action_key, jump_key}
use turtletap.Binding.Validate.{
  BindingValidationError, invalid_key, invalid_modifiers, duplicate_key, conflicting_key,
  duplicate_modifiers, modifier_conflict, unsafe_text_key, unsafe_text_modifiers, Check, types_text,
  map_err, refuse, refuse_some, check_key, check_action, check_pair, check_pairs, check_context,
  contexts, in_context, context_key, digits, check_flags, check_digit, check_jump, check_modifiers,
  jump_chord, validate,
}
use turtletap.Binding.Safe.{in_context_iff}
use turtletap.Binding.Safe.Flags.{digits-bounds}
use turtletap.Binding.Accept.{key_bindings-Distinct}

-- What each error says of the set.
abbrev pub IsViolation : ShellBindings → BindingValidationError → Type 0
IsViolation b (invalid_key (key_id i) source) =
    (k : KeyBinding) × (has (b.key_lists i) k ≡ true) × (canonical k ≡ err source)
IsViolation b (invalid_modifiers (modifier_id m) source) =
    (f : KeyModifiers) × (has (b.modifier_lists m) f ≡ true)
    × (key_modifiers_config_label f ≡ err source)
IsViolation b (duplicate_key (key_id i) k) = Repeated (b.key_lists i) k
IsViolation b (conflicting_key (key_id i) (key_id j) k) =
    (i ≢ j)
    × (context (key_id i) ≡ context (key_id j))
    × (has (b.key_lists i) k ≡ true)
    × (has (b.key_lists j) k ≡ true)
IsViolation b (duplicate_modifiers (modifier_id m) f) = Repeated (b.modifier_lists m) f
IsViolation b (modifier_conflict (key_id i) (modifier_id m) k) =
    (f : KeyModifiers) × (digit : ℕ) × (k ≡ jump_chord f digit)
    × (b'1' ≤ digit)
    × (digit ≤ b'9')
    × (context (key_id i) ≡ context (modifier_id m))
    × (has (b.modifier_lists m) f ≡ true)
    × (has (b.key_lists i) k ≡ true)
IsViolation b (unsafe_text_key (key_id i) k) =
    (has (b.key_lists i) k ≡ true)
    × (accepts_text (context (key_id i)) ≡ true)
    × (is_empty k.modifiers ≡ true)
    × (types_text k.code ≡ true)
IsViolation b (unsafe_text_modifiers (modifier_id m)) =
    (accepts_text (context (modifier_id m)) ≡ true) × (has (b.modifier_lists m) empty ≡ true)
IsViolation b _ = ⊥

pub map_err-err :
    {A E : Type 0} (problem : E → BindingValidationError) (r : Result E A)
    (e : BindingValidationError)
    → map_err problem r ≡ err e
    → (source : E) × (r ≡ err source) × (problem source ≡ e)
unfolding map_err
map_err-err problem (ok a) e h = cc h
map_err-err problem (err source) e h = (source, refl, cc h)

pub refuse-err :
    (test : Bool) (problem e : BindingValidationError)
    → refuse test problem ≡ err e
    → (test ≡ true) × (problem ≡ e)
unfolding refuse
refuse-err true problem e h = (refl, cc h)
refuse-err false problem e h = cc h

pub refuse_some-err :
    {A : Type 0} (problem : A → BindingValidationError) (o : Option A) (e : BindingValidationError)
    → refuse_some problem o ≡ err e
    → (a : A) × (o ≡ some a) × (problem a ≡ e)
unfolding refuse_some
refuse_some-err problem none e h = cc h
refuse_some-err problem (some a) e h = (a, refl, cc h)

check_key-err :
    (b : ShellBindings) (i : KeyId) (k : KeyBinding) (e : BindingValidationError)
    → has (b.key_lists i) k ≡ true
    → check_key (key_id i) k ≡ err e
    → IsViolation b e
unfolding check_key
check_key-err b i k e at h =
    let text = accepts_text (context (key_id i)) && is_empty k.modifiers && types_text k.code in
    elim (>>-err (map_err (invalid_key (key_id i)) (canonical k))
      (refuse text (unsafe_text_key (key_id i) k)) e h) [
        | inl bad ↦
            let (source, why, same) = map_err-err (invalid_key (key_id i)) (canonical k) e bad in
            subst (IsViolation b) same (k, at, why)
        | inr (_, bad) ↦
            let (test, same) = refuse-err text (unsafe_text_key (key_id i) k) e bad in
            subst (IsViolation b) same (at, ground arith, ground arith, ground arith)
      ]

pub check_action-err :
    (b : ShellBindings) (i : KeyId) (e : BindingValidationError)
    → check_action b i ≡ err e
    → IsViolation b e
unfolding check_action
check_action-err b i e h =
    let twice = refuse_some (duplicate_key (key_id i)) (duplicate (b.key_lists i)) in
    elim (>>-err (each (check_key (key_id i)) (b.key_lists i)) twice e h) [
      | inl bad ↦
          let (k, at, why) = each-err (check_key (key_id i)) (b.key_lists i) e bad in
          check_key-err b i k e at why
      | inr (_, bad) ↦
          let (k, again, same) =
            refuse_some-err (duplicate_key (key_id i)) (duplicate (b.key_lists i)) e bad in
          subst (IsViolation b) same (duplicate-Repeated (b.key_lists i) k again)
    ]
