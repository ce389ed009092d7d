-- ===== src/Binding/Safe/Flags.antt =====
-- src/binding.rs: the third loop of `validate`, on the flags of one jump.
use turtletap.Prelude.{
  ℕ, ◌≤◌, ◌≡◌, ◌↔◌, refl, Bool, true, false, ◌&&◌, arith, ok, ℕ_key, ℕ_discrete,
}
use turtletap.Prelude.Fallible.{>>-ok, >>-intro}
use turtletap.Prelude.Members.{
  has, same, filter, duplicate, each, duplicate-Distinct, each-ok, each-intro,
}
use turtletap.Binding.{KeyModifiers, modifiers_key, binding_key}
use turtletap.Binding.Chords.{empty}
use turtletap.Binding.Labels.{key_modifiers_config_label}
use turtletap.Binding.Actions.{KeyId, ModifierId, key_id, modifier_id, key_bindings}
use turtletap.Binding.Catalog.{accepts_text, context}
use turtletap.Binding.Sets.{ShellBindings, action_key}
use turtletap.Binding.Validate.{
  context_key, invalid_modifiers, duplicate_modifiers, unsafe_text_modifiers, modifier_conflict,
  refuse, refuse_some, check_flags, check_digit, check_jump, check_modifiers, in_context, digits,
  jump_chord, map_err-ok, refuse-ok, refuse_some-ok,
}
use turtletap.Binding.Safe.{SafeFlags, in_context_iff}

has-digits : (digit : ℕ) → b'1' ≤ digit → digit ≤ b'9' → has digits digit ≡ true
unfolding has same ℕ_discrete
has-digits digit low high = ground arith

pub digits-bounds : (digit : ℕ) → has digits digit ≡ true → (b'1' ≤ digit) × (digit ≤ b'9')
unfolding has same ℕ_discrete
digits-bounds digit h = ground arith

-- The digits with one set of flags, against the chords of one action.
NoJump : ShellBindings → ModifierId → KeyId → Type 0
NoJump b m i =
    (f : KeyModifiers) (digit : ℕ)
    → has (b.modifier_lists m) f ≡ true
    → b'1' ≤ digit
    → digit ≤ b'9'
    → has (b.key_lists i) (jump_chord f digit) ≡ false

check_jump-ok :
    (b : ShellBindings) (m : ModifierId) (i : KeyId) → check_jump b m i ≡ ok tt → NoJump b m i
unfolding check_jump check_digit NoJump
check_jump-ok b m i h f digit at low high =
    let flags = each-ok (λ f. each (check_digit b m i f) digits) (b.modifier_lists m) h f at in
    let free = each-ok (check_digit b m i f) digits flags digit (has-digits digit low high) in
    (refuse-ok (has (b.key_lists i) (jump_chord f digit))
        (modifier_conflict (key_id i) (modifier_id m) (jump_chord f digit))).0
      free

check_jump-intro :
    (b : ShellBindings) (m : ModifierId) (i : KeyId) → NoJump b m i → check_jump b m i ≡ ok tt
unfolding check_jump check_digit NoJump
check_jump-intro b m i free =
    each-intro (λ f. each (check_digit b m i f) digits) (b.modifier_lists m)
      (λ f at. each-intro (check_digit b m i f) digits (λ digit among.
        let (low, high) = digits-bounds digit among in
        (refuse-ok (has (b.key_lists i) (jump_chord f digit))
            (modifier_conflict (key_id i) (modifier_id m) (jump_chord f digit))).1
          (free f digit at low high)))

and-false : (x y : Bool) → ((x && y) ≡ false) ↔ (x ≡ true → y ≡ false)
and-false true y = (λ h _. h, λ h. h refl)
and-false false y = (λ h e. cc e, λ h. refl)

pub check_modifiers-SafeFlags :
    (b : ShellBindings) (m : ModifierId) → check_modifiers b m ≡ ok tt → SafeFlags b m
unfolding check_modifiers check_flags NoJump
check_modifiers-SafeFlags b m h =
    let c = context (modifier_id m) in
    let lists = b.modifier_lists m in
    let (stored, h1) = >>-ok (each (check_flags m) lists) _ tt h in
    let (text, h2) =
      >>-ok (refuse (accepts_text c && has lists empty) (unsafe_text_modifiers (modifier_id m))) _
        tt h1 in
    let (twice, jumps) =
      >>-ok (refuse_some (duplicate_modifiers (modifier_id m)) (duplicate lists)) _ tt h2 in
    let no_text =
      (refuse-ok (accepts_text c && has lists empty) (unsafe_text_modifiers (modifier_id m))).0
        text in
    record {
      stored = λ f at.
          (map_err-ok (invalid_modifiers (modifier_id m)) (key_modifiers_config_label f)).0
            (each-ok (check_flags m) lists stored f at);
      no_text = (and-false (accepts_text c) (has lists empty)).0 no_text;
      distinct =
          (duplicate-Distinct lists).0
            ((refuse_some-ok (duplicate_modifiers (modifier_id m)) (duplicate lists)).0 twice);
      no_jump = λ i f digit same_context at low high.
          check_jump-ok b m i
            (each-ok (check_jump b m) (filter (in_context c) key_bindings) jumps i
              ((in_context_iff c i).1 same_context))
            f digit at low high;
    }

pub SafeFlags-check_modifiers :
    (b : ShellBindings) (m : ModifierId) → SafeFlags b m → check_modifiers b m ≡ ok tt
unfolding check_modifiers check_flags NoJump
SafeFlags-check_modifiers b m s =
    let c = context (modifier_id m) in
    let lists = b.modifier_lists m in
    >>-intro
      (each-intro (check_flags m) lists (λ f at.
        (map_err-ok (invalid_modifiers (modifier_id m)) (key_modifiers_config_label f)).1
          (s.stored f at)))
      (>>-intro
        ((refuse-ok (accepts_text c && has lists empty) (unsafe_text_modifiers (modifier_id m))).1
          ((and-false (accepts_text c) (has lists empty)).1 s.no_text))
        (>>-intro
          ((refuse_some-ok (duplicate_modifiers (modifier_id m)) (duplicate lists)).1
            ((duplicate-Distinct lists).1 s.distinct))
          (each-intro (check_jump b m) (filter (in_context c) key_bindings) (λ i among.
            check_jump-intro b m i (λ f digit at low high.
              s.no_jump i f digit ((in_context_iff c i).0 among) at low high)))))
