-- ===== src/Binding/Reports/Loops.antt =====
-- src/binding.rs: the errors of the second and the third loop of `validate`, and of all of it.
use turtletap.Prelude.{
  ◌≡◌, ◌≢◌, inl, inr, refl, sym, subst, ◌∙◌, Bool, true, ◌&&◌, List, [], ◌∷◌, arith, err, ℕ_key,
}
use turtletap.Prelude.Fallible.{>>-err}
use turtletap.Prelude.Members.{
  has, filter, find, duplicate, each, Distinct, duplicate-Repeated, find-some, each-err,
  filter-Distinct, has-tail, has-head,
}
use turtletap.Binding.{KeyBinding, binding_key, modifiers_key}
use turtletap.Binding.Chords.{empty}
use turtletap.Binding.Labels.{key_modifiers_config_label}
use turtletap.Binding.Actions.{
  BindingContext, KeyId, ModifierId, key_id, modifier_id, key_bindings, modifier_bindings,
}
use turtletap.Binding.Catalog.{accepts_text, context}
use turtletap.Binding.Sets.{ShellBindings, action_key, jump_key}
use turtletap.Binding.Validate.{
  BindingValidationError, invalid_modifiers, conflicting_key, duplicate_modifiers,
  modifier_conflict, unsafe_text_modifiers, refuse, refuse_some, check_action, check_pair,
  check_pairs, check_context, contexts, in_context, context_key, digits, check_flags, check_digit,
  check_jump, check_modifiers, jump_chord, validate,
}
use turtletap.Binding.Safe.{in_context_iff}
use turtletap.Binding.Safe.Flags.{digits-bounds}
use turtletap.Binding.Accept.{key_bindings-Distinct}
use turtletap.Binding.Reports.{
  IsViolation, map_err-err, refuse-err, refuse_some-err, check_action-err,
}

check_pair-err :
    (b : ShellBindings) (i j : KeyId) (e : BindingValidationError)
    → i ≢ j
    → context (key_id i) ≡ context (key_id j)
    → check_pair b i j ≡ err e
    → IsViolation b e
unfolding check_pair
check_pair-err b i j e apart same_context h =
    let taken : KeyBinding → Bool = λ k. has (b.key_lists j) k in
    let (k, found, same) =
      refuse_some-err (conflicting_key (key_id i) (key_id j)) (find taken (b.key_lists i)) e h in
    let (at_i, at_j) = find-some taken (b.key_lists i) k found in
    subst (IsViolation b) same (apart, same_context, at_i, at_j)

check_pairs-err :
    (b : ShellBindings) (c : BindingContext) (ids : List KeyId) (e : BindingValidationError)
    → Distinct ids
    → ((i : KeyId) → has ids i ≡ true → context (key_id i) ≡ c)
    → check_pairs b ids ≡ err e
    → IsViolation b e
unfolding check_pairs
check_pairs-err b c [] e distinct within h = cc h
check_pairs-err b c (x ∷ xs) e (new, distinct) within h =
    elim (>>-err (each (check_pair b x) xs) (check_pairs b xs) e h) [
      | inl bad ↦
          let (j, later, why) = each-err (check_pair b x) xs e bad in
          check_pair-err b x j e (λ same. cc (same, new, later))
            (within x (has-head x xs) ∙ sym (within j (has-tail x xs j later))) why
      | inr (_, bad) ↦ check_pairs-err b c xs e distinct (λ i at. within i (has-tail x xs i at)) bad
    ]

check_context-err :
    (b : ShellBindings) (c : BindingContext) (e : BindingValidationError)
    → check_context b c ≡ err e
    → IsViolation b e
unfolding check_context
check_context-err b c e h =
    check_pairs-err b c (filter (in_context c) key_bindings) e
      (filter-Distinct (in_context c) key_bindings key_bindings-Distinct)
      (λ i at. (in_context_iff c i).0 at) h

check_jump-err :
    (b : ShellBindings) (m : ModifierId) (i : KeyId) (e : BindingValidationError)
    → context (key_id i) ≡ context (modifier_id m)
    → check_jump b m i ≡ err e
    → IsViolation b e
unfolding check_jump check_digit
check_jump-err b m i e same_context h =
    let (f, at, why) = each-err (λ f. each (check_digit b m i f) digits) (b.modifier_lists m) e h in
    let (digit, among, bad) = each-err (check_digit b m i f) digits e why in
    let k = jump_chord f digit in
    let (used, same) =
      refuse-err (has (b.key_lists i) k) (modifier_conflict (key_id i) (modifier_id m) k) e bad in
    let (low, high) = digits-bounds digit among in
    subst (IsViolation b) same (f, digit, refl, low, high, same_context, at, used)

check_modifiers-err :
    (b : ShellBindings) (m : ModifierId) (e : BindingValidationError)
    → check_modifiers b m ≡ err e
    → IsViolation b e
unfolding check_modifiers check_flags
check_modifiers-err b m e h =
    let c = context (modifier_id m) in
    let lists = b.modifier_lists m in
    let text = accepts_text c && has lists empty in
    elim (>>-err (each (check_flags m) lists) _ e h) [
      | inl bad ↦
          let (f, at, why) = each-err (check_flags m) lists e bad in
          let (source, label, same) =
            map_err-err (invalid_modifiers (modifier_id m)) (key_modifiers_config_label f) e why in
          subst (IsViolation b) same (f, at, label)
      | inr (_, h1) ↦ elim (>>-err (refuse text (unsafe_text_modifiers (modifier_id m))) _ e h1) [
        | inl bad ↦
            let (test, same) = refuse-err text (unsafe_text_modifiers (modifier_id m)) e bad in
            subst (IsViolation b) same (ground arith, ground arith)
        | inr (_, h2) ↦
            elim (>>-err (refuse_some (duplicate_modifiers (modifier_id m)) (duplicate lists)) _ e
              h2) [
                | inl bad ↦
                    let (f, again, same) =
                      refuse_some-err (duplicate_modifiers (modifier_id m)) (duplicate lists) e
                        bad in
                    subst (IsViolation b) same (duplicate-Repeated lists f again)
                | inr (_, h3) ↦
                    let (i, at, why) =
                      each-err (check_jump b m) (filter (in_context c) key_bindings) e h3 in
                    check_jump-err b m i e ((in_context_iff c i).0 at) why
              ]
      ]
    ]

-- An error names a violation that is in the set: a chord or a set of flags of the action that
-- cannot be stored, that stands twice in its list, or that would take text; two different
-- actions of one context that share the chord; or an action whose chord is a digit with the
-- flags of a jump in its context.
pub validate-err :
    (b : ShellBindings) (e : BindingValidationError) → validate b ≡ err e → IsViolation b e
unfolding validate
validate-err b e h = elim (>>-err (each (check_action b) key_bindings) _ e h) [
  | inl bad ↦
      let (i, _, why) = each-err (check_action b) key_bindings e bad in check_action-err b i e why
  | inr (_, h1) ↦ elim (>>-err (each (check_context b) contexts) _ e h1) [
    | inl bad ↦
        let (c, _, why) = each-err (check_context b) contexts e bad in check_context-err b c e why
    | inr (_, h2) ↦
        let (m, _, why) = each-err (check_modifiers b) modifier_bindings e h2 in
        check_modifiers-err b m e why
  ]
]
