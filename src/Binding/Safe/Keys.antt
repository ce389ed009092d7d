-- ===== src/Binding/Safe/Keys.antt =====
-- src/binding.rs: the first loop of `validate`, on the chords of one action.
use turtletap.Prelude.{◌≡◌, refl, Bool, true, false, ◌&&◌, arith, ok}
use turtletap.Prelude.Fallible.{>>-ok, >>-intro}
use turtletap.Prelude.Members.{duplicate, each, duplicate-Distinct, each-ok, each-intro}
use turtletap.Binding.{KeyBinding, binding_key}
use turtletap.Binding.Chords.{is_empty, canonical}
use turtletap.Binding.Actions.{BindingId, KeyId, key_id}
use turtletap.Binding.Catalog.{accepts_text, context}
use turtletap.Binding.Sets.{ShellBindings}
use turtletap.Binding.Validate.{
  invalid_key, duplicate_key, unsafe_text_key, types_text, map_err, check_key, check_action,
  map_err-ok, refuse-ok, refuse_some-ok,
}
use turtletap.Binding.Safe.{SafeKeys, SafeKey}

tests-pass : (x y z : Bool) → (x && y && z) ≡ false → x ≡ true → y ≡ true → z ≡ false
tests-pass x y z h hx hy = ground arith

tests-fail : (x y z : Bool) → (x ≡ true → y ≡ true → z ≡ false) → (x && y && z) ≡ false
tests-fail true true z h = h refl refl
tests-fail true false z h = refl
tests-fail false y z h = refl

check_key-SafeKey : (id : BindingId) (k : KeyBinding) → check_key id k ≡ ok tt → SafeKey id k
unfolding check_key
check_key-SafeKey id k h =
    let text = accepts_text (context id) in
    let bare = is_empty k.modifiers in
    let (stored, no_text) = >>-ok (map_err (invalid_key id) (canonical k)) _ tt h in
    let passed = (refuse-ok (text && bare && types_text k.code) (unsafe_text_key id k)).0 no_text in
    record {
      stored = (map_err-ok (invalid_key id) (canonical k)).0 stored;
      no_text = tests-pass text bare (types_text k.code) passed;
    }

SafeKey-check_key : (id : BindingId) (k : KeyBinding) → SafeKey id k → check_key id k ≡ ok tt
unfolding check_key
SafeKey-check_key id k s =
    let text = accepts_text (context id) in
    let bare = is_empty k.modifiers in
    let no_text = tests-fail text bare (types_text k.code) s.no_text in
    >>-intro ((map_err-ok (invalid_key id) (canonical k)).1 s.stored)
      ((refuse-ok (text && bare && types_text k.code) (unsafe_text_key id k)).1 no_text)

pub check_action-SafeKeys :
    (b : ShellBindings) (i : KeyId) → check_action b i ≡ ok tt → SafeKeys b i
unfolding check_action
check_action-SafeKeys b i h =
    let (keys, distinct) = >>-ok (each (check_key (key_id i)) (b.key_lists i)) _ tt h in
    let none_twice =
      (refuse_some-ok (duplicate_key (key_id i)) (duplicate (b.key_lists i))).0 distinct in
    record {
      safe = λ k at.
          check_key-SafeKey (key_id i) k (each-ok (check_key (key_id i)) (b.key_lists i) keys k at);
      distinct = (duplicate-Distinct (b.key_lists i)).0 none_twice;
    }

pub SafeKeys-check_action :
    (b : ShellBindings) (i : KeyId) → SafeKeys b i → check_action b i ≡ ok tt
unfolding check_action
SafeKeys-check_action b i s =
    >>-intro
      (each-intro (check_key (key_id i)) (b.key_lists i)
        (λ k at. SafeKey-check_key (key_id i) k (s.safe k at)))
      ((refuse_some-ok (duplicate_key (key_id i)) (duplicate (b.key_lists i))).1
        ((duplicate-Distinct (b.key_lists i)).1 s.distinct))
