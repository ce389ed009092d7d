-- ===== src/Binding/Safe/Pairs.antt =====
-- src/binding.rs: the second loop of `validate`, on the actions of one context.
use turtletap.Prelude.{◌≡◌, inl, inr, refl, sym, ◌∙◌, Bool, true, List, [], ◌∷◌, ok, Option-cases}
use turtletap.Prelude.Fallible.{>>-ok, >>-intro}
use turtletap.Prelude.Members.{
  has, find, each, Distinct, each-ok, each-intro, find-none, find-some, has-head, has-tail,
  has-cases,
}
use turtletap.Binding.{KeyBinding, binding_key}
use turtletap.Binding.Actions.{KeyId, key_id}
use turtletap.Binding.Sets.{ShellBindings, action_key}
use turtletap.Binding.Validate.{conflicting_key, check_pair, check_pairs, refuse_some-ok}

-- Two actions with a chord in common.
abbrev Shared : ShellBindings → KeyId → KeyId → Type 0
Shared b i j = (k : KeyBinding) × (has (b.key_lists i) k ≡ true) × (has (b.key_lists j) k ≡ true)

-- The test of the search for a chord in common.
abbrev taken : ShellBindings → KeyId → KeyBinding → Bool
taken b j binding = has (b.key_lists j) binding

check_pair-ok : (b : ShellBindings) (i j : KeyId) → check_pair b i j ≡ ok tt → ¬ Shared b i j
unfolding check_pair
check_pair-ok b i j h (k, at_i, at_j) =
    let none_shared =
      (refuse_some-ok (conflicting_key (key_id i) (key_id j)) (find (taken b j) (b.key_lists i))).0
        h in
    cc (find-none (taken b j) (b.key_lists i) none_shared k at_i, at_j)

check_pair-intro : (b : ShellBindings) (i j : KeyId) → ¬ Shared b i j → check_pair b i j ≡ ok tt
unfolding check_pair
check_pair-intro b i j apart = elim (Option-cases (find (taken b j) (b.key_lists i))) [
  | inl h ↦
      (refuse_some-ok (conflicting_key (key_id i) (key_id j)) (find (taken b j) (b.key_lists i))).1
        h
  | inr (k, h) ↦
      let (at_i, at_j) = find-some (taken b j) (b.key_lists i) k h in absurd (apart (k, at_i, at_j))
]

pub check_pairs-ok :
    (b : ShellBindings) (ids : List KeyId)
    → check_pairs b ids ≡ ok tt
    → (i j : KeyId) → has ids i ≡ true
    → has ids j ≡ true
    → Shared b i j
    → i ≡ j
unfolding check_pairs
check_pairs-ok b [] h i j at_i at_j shared = absurd (cc at_i)
check_pairs-ok b (x ∷ xs) h i j at_i at_j (k, k_i, k_j) =
    let (first, rest) = >>-ok (each (check_pair b x) xs) (check_pairs b xs) tt h in
    let apart = each-ok (check_pair b x) xs first in
    elim (has-cases x xs i at_i) [
      | inl here ↦ elim (has-cases x xs j at_j) [
        | inl there ↦ sym here ∙ there
        | inr later ↦ absurd (check_pair-ok b x j (apart j later) (k, rw here k_i, k_j))
      ]
      | inr later ↦ elim (has-cases x xs j at_j) [
        | inl there ↦ absurd (check_pair-ok b x i (apart i later) (k, rw there k_j, k_i))
        | inr later_too ↦ check_pairs-ok b xs rest i j later later_too (k, k_i, k_j)
      ]
    ]

pub check_pairs-intro :
    (b : ShellBindings) (ids : List KeyId)
    → Distinct ids
    → ((i j : KeyId) → has ids i ≡ true → has ids j ≡ true → Shared b i j → i ≡ j)
    → check_pairs b ids ≡ ok tt
unfolding check_pairs
check_pairs-intro b [] distinct one = refl
check_pairs-intro b (x ∷ xs) (new, distinct) one =
    >>-intro
      (each-intro (check_pair b x) xs (λ j later.
        check_pair-intro b x j
          (λ shared. cc (one x j (has-head x xs) (has-tail x xs j later) shared, new, later))))
      (check_pairs-intro b xs distinct
        (λ i j at_i at_j. one i j (has-tail x xs i at_i) (has-tail x xs j at_j)))
