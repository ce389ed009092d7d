-- ===== src/Binding/Accept.antt =====
-- src/binding.rs: `validate` accepts the safe sets of bindings and no others.
use turtletap.Prelude.{◌≡◌, ◌↔◌, refl, sym, ◌∙◌, true, ok}
use turtletap.Prelude.Fallible.{>>-ok, >>-intro}
use turtletap.Prelude.Members.{
  has, same, filter, duplicate, each, Distinct, duplicate-Distinct, filter-Distinct, each-ok,
  each-intro,
}
use turtletap.Binding.Actions.{
  BindingContext, global, ModifierId, key_id, jump_modifiers, key_bindings, modifier_bindings,
}
use turtletap.Binding.Catalog.{context}
use turtletap.Binding.Sets.{
  ShellBindings, action_key, jump_key, KeyId-discrete, ModifierId-discrete,
}
use turtletap.Binding.Validate.{
  contexts, context_key, context-discrete, in_context, check_action, check_context, check_modifiers,
  validate,
}
use turtletap.Binding.Safe.{IsSafe, listed, in_context_iff}
use turtletap.Binding.Safe.Keys.{check_action-SafeKeys, SafeKeys-check_action}
use turtletap.Binding.Safe.Pairs.{check_pairs-ok, check_pairs-intro}
use turtletap.Binding.Safe.Flags.{check_modifiers-SafeFlags, SafeFlags-check_modifiers}

every_context : (c : BindingContext) → has contexts c ≡ true
unfolding has same context-discrete
every_context c = elim c as (λ c. has contexts c ≡ true) [ global ↦ refl | _ ↦ refl ]

every_jump : (m : ModifierId) → has modifier_bindings m ≡ true
unfolding has same ModifierId-discrete
every_jump m = elim m as (λ m. has modifier_bindings m ≡ true) [ jump_modifiers ↦ refl | _ ↦ refl ]

pub key_bindings-Distinct : Distinct key_bindings
unfolding duplicate KeyId-discrete
key_bindings-Distinct = (duplicate-Distinct key_bindings).0 refl

validate-IsSafe : (b : ShellBindings) → validate b ≡ ok tt → IsSafe b
unfolding validate check_context
validate-IsSafe b h =
    let (actions, h1) = >>-ok (each (check_action b) key_bindings) _ tt h in
    let (pairs, jumps) = >>-ok (each (check_context b) contexts) _ tt h1 in
    record {
      keys = λ i.
          check_action-SafeKeys b i (each-ok (check_action b) key_bindings actions i (listed i));
      one_action = λ i j k same_context at_i at_j.
          let c = context (key_id i) in
          check_pairs-ok b (filter (in_context c) key_bindings)
            (each-ok (check_context b) contexts pairs c (every_context c)) i j
            ((in_context_iff c i).1 refl) ((in_context_iff c j).1 (sym same_context))
            (k, at_i, at_j);
      flags = λ m.
          check_modifiers-SafeFlags b m
            (each-ok (check_modifiers b) modifier_bindings jumps m (every_jump m));
    }

IsSafe-validate : (b : ShellBindings) → IsSafe b → validate b ≡ ok tt
unfolding validate check_context
IsSafe-validate b s =
    >>-intro
      (each-intro (check_action b) key_bindings (λ i _. SafeKeys-check_action b i (s.keys i)))
      (>>-intro
        (each-intro (check_context b) contexts (λ c _.
          check_pairs-intro b (filter (in_context c) key_bindings)
            (filter-Distinct (in_context c) key_bindings key_bindings-Distinct)
            (λ i j in_i in_j (k, at_i, at_j).
              s.one_action i j k ((in_context_iff c i).0 in_i ∙ sym ((in_context_iff c j).0 in_j))
                at_i at_j)))
        (each-intro (check_modifiers b) modifier_bindings
          (λ m _. SafeFlags-check_modifiers b m (s.flags m))))

-- A set of bindings is accepted just when it is safe: every chord and every set of flags can be
-- stored and stands once in its list; in a context that accepts text no action has a character
-- or an arrow without modifiers, and no jump has a bare digit; in one context no chord belongs to
-- two actions, and no jump's digit is the chord of an action.
pub validate-ok_iff : (b : ShellBindings) → (validate b ≡ ok tt) ↔ IsSafe b
validate-ok_iff b = (validate-IsSafe b, IsSafe-validate b)
