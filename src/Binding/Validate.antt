-- ===== src/Binding/Validate.antt =====
-- src/binding.rs: `ShellBindings::validate`.
use turtletap.Prelude.{
  ℕ, ◌≡◌, ◌↔◌, refl, arith, Bool, true, false, ◌&&◌, Option, none, some, List, [], ◌∷◌, Key, Result,
  ok, err,
}
use turtletap.Prelude.Fallible.{◌>>◌}
use turtletap.Prelude.Members.{has, same, find, filter, duplicate, each}
use turtletap.Binding.{
  KeyCode, KeyModifiers, KeyBinding, binding_key, modifiers_key, left, right, up, down, char,
}
use turtletap.Binding.Chords.{empty, is_empty, canonical, KeyBindingError}
use turtletap.Binding.Labels.{key_modifiers_config_label}
use turtletap.Binding.Actions.{
  BindingContext, global, shell, leader, action, session, dashboard, KeyId, ModifierId, BindingId,
  key_id, modifier_id, key_bindings, modifier_bindings,
}
use turtletap.Binding.Catalog.{accepts_text, context}
use turtletap.Binding.Sets.{ShellBindings}

pub data BindingValidationError : Type 0 where
  invalid_key invalid_modifiers : BindingId → KeyBindingError → BindingValidationError
  duplicate_key : BindingId → KeyBinding → BindingValidationError
  conflicting_key : BindingId → BindingId → KeyBinding → BindingValidationError
  duplicate_modifiers : BindingId → KeyModifiers → BindingValidationError
  modifier_conflict : BindingId → BindingId → KeyBinding → BindingValidationError
  unsafe_text_key : BindingId → KeyBinding → BindingValidationError
  unsafe_text_modifiers : BindingId → BindingValidationError

-- A loop body, and the rest of a function, give nothing but an error.
abbrev pub Check : Type 0
Check = Result BindingValidationError (Unit {0})

unfoldable pub context-discrete : Discrete BindingContext
context-discrete = hlevel

instance abbrev pub context_key : Key BindingContext
context_key = record { dec = context-discrete }

-- The `matches!` on the code of a chord.
unfoldable pub types_text : KeyCode → Bool
types_text (char c) = true
types_text left = true
types_text right = true
types_text up = true
types_text down = true
types_text _ = false

-- `map_err(problem)?` where the value is not used.
unfoldable pub map_err : {A E : Type 0} → (E → BindingValidationError) → Result E A → Check
map_err problem (ok value) = ok tt
map_err problem (err source) = err (problem source)

-- `if test { return Err(problem); }`
unfoldable pub refuse : Bool → BindingValidationError → Check
refuse true problem = err problem
refuse false problem = ok tt

-- `if let Some(value) = found { return Err(problem(value)); }`
unfoldable pub refuse_some : {A : Type 0} → (A → BindingValidationError) → Option A → Check
refuse_some problem none = ok tt
refuse_some problem (some value) = err (problem value)

unfoldable pub check_key : BindingId → KeyBinding → Check
unfolding map_err refuse canonical context accepts_text is_empty types_text
check_key id binding =
    map_err (BindingValidationError.invalid_key id) (canonical binding)
    >> refuse (accepts_text (context id) && is_empty binding.modifiers && types_text binding.code)
        (unsafe_text_key id binding)

unfoldable pub check_action : ShellBindings → KeyId → Check
unfolding check_key duplicate refuse_some each
check_action self id =
    each (check_key (key_id id)) (self.key_lists id)
    >> refuse_some (duplicate_key (key_id id)) (duplicate (self.key_lists id))

-- `filter(|id| id.context() == context)`
unfoldable pub in_context : BindingContext → KeyId → Bool
unfolding context
in_context c id = same (context (key_id id)) c

unfoldable pub check_pair : ShellBindings → KeyId → KeyId → Check
unfolding find has refuse_some
check_pair self first second =
    refuse_some (conflicting_key (key_id first) (key_id second))
      (find (λ binding. has (self.key_lists second) binding) (self.key_lists first))

-- Each action of a context against those after it.
unfoldable pub check_pairs : ShellBindings → List KeyId → Check
unfolding check_pair each
check_pairs self [] = ok tt
check_pairs self (first ∷ rest) = each (check_pair self first) rest >> check_pairs self rest

abbrev pub contexts : List BindingContext
contexts = global ∷ shell ∷ leader ∷ action ∷ session ∷ dashboard ∷ []

unfoldable pub check_context : ShellBindings → BindingContext → Check
unfolding check_pairs filter in_context
check_context self c = check_pairs self (filter (in_context c) key_bindings)

unfoldable pub check_flags : ModifierId → KeyModifiers → Check
unfolding map_err key_modifiers_config_label
check_flags id flags =
    map_err (BindingValidationError.invalid_modifiers (modifier_id id))
      (key_modifiers_config_label flags)

-- `'1'..='9'`
abbrev pub digits : List ℕ
digits = b'1' ∷ b'2' ∷ b'3' ∷ b'4' ∷ b'5' ∷ b'6' ∷ b'7' ∷ b'8' ∷ b'9' ∷ []

abbrev pub jump_chord : KeyModifiers → ℕ → KeyBinding
jump_chord flags digit = record { code = char digit; modifiers = flags }

unfoldable pub check_digit : ShellBindings → ModifierId → KeyId → KeyModifiers → ℕ → Check
unfolding refuse has
check_digit self id key flags digit =
    refuse (has (self.key_lists key) (jump_chord flags digit))
      (modifier_conflict (key_id key) (modifier_id id) (jump_chord flags digit))

unfoldable pub check_jump : ShellBindings → ModifierId → KeyId → Check
unfolding check_digit each
check_jump self id key =
    each (λ flags. each (check_digit self id key flags) digits) (self.modifier_lists id)

unfoldable pub check_modifiers : ShellBindings → ModifierId → Check
unfolding check_flags refuse accepts_text context has duplicate refuse_some check_jump filter
    in_context each
check_modifiers self id =
    each (check_flags id) (self.modifier_lists id)
    >> (refuse (accepts_text (context (modifier_id id)) && has (self.modifier_lists id) empty)
          (unsafe_text_modifiers (modifier_id id))
        >> (refuse_some (duplicate_modifiers (modifier_id id)) (duplicate (self.modifier_lists id))
            >> each (check_jump self id)
                (filter (in_context (context (modifier_id id))) key_bindings)))

unfoldable pub validate : ShellBindings → Check
unfolding check_action check_context check_modifiers each
validate self =
    each (check_action self) key_bindings
    >> (each (check_context self) contexts >> each (check_modifiers self) modifier_bindings)

-- What these steps let pass.
pub map_err-ok :
    {A E : Type 0} (problem : E → BindingValidationError) (r : Result E A)
    → (map_err problem r ≡ ok tt) ↔ ((a : A) × (r ≡ ok a))
unfolding map_err
map_err-ok problem (ok a) = (λ h. (a, refl), λ h. refl)
map_err-ok problem (err e) = (λ h. absurd (cc h), λ (a, h). absurd (cc h))

pub refuse-ok :
    (test : Bool) (problem : BindingValidationError)
    → (refuse test problem ≡ ok tt) ↔ (test ≡ false)
unfolding refuse
refuse-ok test problem = ground arith

pub refuse_some-ok :
    {A : Type 0} (problem : A → BindingValidationError) (o : Option A)
    → (refuse_some problem o ≡ ok tt) ↔ (o ≡ none)
unfolding refuse_some
refuse_some-ok problem o = ground arith
