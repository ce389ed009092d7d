-- ===== src/Binding/Paths.antt =====
-- src/binding.rs: the stored names of the actions.
use turtletap.Prelude.{◌≡◌, ◌≢◌, refl, ap, Option, some, map}
use turtletap.Prelude.Strings.{find_name}
use turtletap.Protocol.{Text}
use turtletap.Binding.Actions.{
  BindingId, key_id, modifier_id, leaders, all_bindings, jump_modifiers,
}
use turtletap.Binding.Catalog.{config_path, flat_id}

-- The action that is listed first with a given name.
named : (BindingId → Text) → Text → Option BindingId
unfolding find_name
named name text = find_name text (map (λ id. (name id, id)) all_bindings)

named-config_path : (id : BindingId) → named config_path (config_path id) ≡ some id
unfolding named config_path
named-config_path (key_id k) =
    elim k as (λ k. named config_path (config_path (key_id k)) ≡ some (key_id k)) [
      | leaders ↦ refl
      | _ ↦ refl
    ]
named-config_path (modifier_id m) =
    elim m as (λ m. named config_path (config_path (modifier_id m)) ≡ some (modifier_id m)) [
      | jump_modifiers ↦ refl
      | _ ↦ refl
    ]

named-flat_id : (id : BindingId) → named flat_id (flat_id id) ≡ some id
unfolding named flat_id
named-flat_id (key_id k) = elim k as (λ k. named flat_id (flat_id (key_id k)) ≡ some (key_id k)) [
  | leaders ↦ refl
  | _ ↦ refl
]
named-flat_id (modifier_id m) =
    elim m as (λ m. named flat_id (flat_id (modifier_id m)) ≡ some (modifier_id m)) [
      | jump_modifiers ↦ refl
      | _ ↦ refl
    ]

named_inj :
    (name : BindingId → Text)
    → ((id : BindingId) → named name (name id) ≡ some id)
    → (i j : BindingId) → name i ≡ name j
    → i ≡ j
named_inj name found i j h = cc (found i, found j, ap (named name) h)

-- Two actions have different configuration paths and different flat identifiers.
pub config_path_inj :
    (i j : BindingId) → i ≢ j → (config_path i ≢ config_path j) × (flat_id i ≢ flat_id j)
config_path_inj i j apart = (
  λ h. apart (named_inj config_path named-config_path i j h),
  λ h. apart (named_inj flat_id named-flat_id i j h),
)
