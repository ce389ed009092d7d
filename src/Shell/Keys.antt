-- ===== src/Shell/Keys.antt =====
-- src/shell.rs: what the shell does on a key, on the mouse and on the other terminal events.
use turtletap.Prelude.{
  ℕ, Bool, true, false, ◌&&◌, Option, none, some, List, [], ◌∷◌, leb, any, if◌then◌else◌,
}
use turtletap.Prelude.Strings.{codes}
use turtletap.Prelude.Members.{has}
use turtletap.Protocol.{Text}
use turtletap.Binding.{KeyCode, KeyBinding, KeyEvent, modifiers_key, esc, char}
use turtletap.Binding.Chords
use turtletap.Binding.Chords.{is_empty}
use turtletap.Binding.Labels
use turtletap.Binding.Actions
use turtletap.Binding.Actions.{
  KeyId, ModifierId, leaders, redraw, next_screen, previous_screen, jump_modifiers,
  leader_jump_modifiers, action_jump_modifiers,
}
use turtletap.Shell.{
  detached, ShellSignal, continue, exit, scroll_page_up, scroll_page_down, Surfaces, Platform,
  Overlay, palette, PaletteAction, Notice, run_surface_command, select_surface, next_surface,
  previous_surface, scroll_up, scroll_down, close_surface, unknown_chord, Shell, Run,
}
use turtletap.Shell.Focus.{
  pos, negsuc, select_index, select_relative, select_numbered, close_active,
}
use turtletap.Shell.Actions.{call_active, dispatch_to_active, signalling}

unfoldable pub matches_any : List KeyBinding → KeyEvent → Bool
unfolding Chords.matches
matches_any bindings event = any (λ binding. Chords.matches binding event) bindings

-- `KeyCode::Char(digit @ '1'..='9')`
unfoldable pub digit_of : KeyCode → Option ℕ
digit_of (char c) = if leb b'1' c && leb c b'9' then some c else none
digit_of _ = none

unfoldable pub is_esc : KeyCode → Bool
is_esc esc = true
is_esc _ = false

-- Escape without modifiers.
unfoldable pub plain_esc : KeyEvent → Bool
unfolding is_esc is_empty
plain_esc event = is_esc event.code && is_empty event.modifiers

unfoldable pub first_label : Platform → Text → List KeyBinding → Text
unfolding Labels.label
first_label P default [] = default
first_label P default (binding ∷ rest) = Labels.label P.macos P.to_uppercase binding

-- A chain of `else if`: the tests with their branches, and the last branch.
unfoldable pub first_of : {A : Type 0} → List (Bool × A) → A → A
first_of [] default = default
first_of ((test, branch) ∷ arms) default =
    let rest = first_of arms default in if test then branch else rest

unfoldable pub is_some : {A : Type 0} → Option A → Bool
is_some none = false
is_some (some a) = true

module _ {S : Type 0} where
  -- A key against the chords of an action.
  unfoldable pub bound : KeyId → KeyEvent → Shell S → Bool
  unfolding matches_any
  bound id event self = matches_any (self.config.bindings.key_lists id) event

  -- The digit of a jump.
  unfoldable pub jump : ModifierId → KeyEvent → Shell S → Option ℕ
  unfolding has digit_of
  jump id event self =
      if has (self.config.bindings.modifier_lists id) event.modifiers
      then digit_of event.code
      else none

  -- `if self.notice.take().is_some() { self.dirty = true; }`
  unfoldable pub without_notice : Option Notice → Shell S → Shell S
  without_notice none self = self
  without_notice (some n) self = record self { notice = none; dirty = true }

  unfoldable pub clear_notice : Shell S → Shell S
  unfolding without_notice
  clear_notice self = without_notice self.notice self

  unfoldable pub open_palette : Shell S → Shell S
  open_palette self = record self { overlay = some (palette [] 0); dirty = true }

  unfoldable pub open_help : Shell S → Shell S
  open_help self = record self { overlay = some Overlay.help; dirty = true }

  unfoldable pub primary_leader_label : Platform → Shell S → Text
  unfolding first_label
  primary_leader_label P self =
      first_label P (codes "leader") (self.config.bindings.key_lists leaders)

module _ {S : Type 0} (V : Surfaces S) (P : Platform) where
  unfoldable pub execute_palette_action : PaletteAction → Run S ShellSignal
  unfolding call_active dispatch_to_active signalling select_index select_relative close_active
  execute_palette_action action self =
      let closed = record self { overlay = none } in
      elim action [
        | run_surface_command id ↦ call_active V (V.execute_command id) closed.active closed
        | select_surface index ↦ signalling continue (select_index V index closed)
        | next_surface ↦ signalling continue (select_relative V (pos 1) closed)
        | previous_surface ↦ signalling continue (select_relative V (negsuc 0) closed)
        | scroll_up ↦ dispatch_to_active V scroll_page_up closed
        | scroll_down ↦ dispatch_to_active V scroll_page_down closed
        | close_surface ↦ close_active V closed
        | PaletteAction.detach ↦ some (exit detached, closed)
        | PaletteAction.help ↦ some (continue, record closed { overlay = some Overlay.help })
      ]

  -- The end of the chain in `handle_leader_key`.
  unfoldable pub unknown_leader_key : Shell S → Shell S
  unfolding primary_leader_label
  unknown_leader_key self = record self {
    notice = some (unknown_chord (primary_leader_label P self));
    dirty = true;
  }

  unfoldable pub numbered : Option ℕ → Shell S → Option (Shell S)
  unfolding select_numbered
  numbered none self = some self
  numbered (some digit) self = select_numbered V digit self

  unfoldable pub leader_arms : KeyEvent → Shell S → List (Bool × Option (ShellSignal × Shell S))
  unfolding bound jump numbered is_some open_palette open_help signalling select_relative
      dispatch_to_active close_active plain_esc unknown_leader_key
  leader_arms event self =
      (bound Actions.leader_detach event self, some (exit detached, self))
      ∷ (bound Actions.leader_palette event self, some (continue, open_palette self))
      ∷ (
        bound Actions.leader_next_screen event self,
        signalling continue (select_relative V (pos 1) self),
      )
      ∷ (
        bound Actions.leader_previous_screen event self,
        signalling continue (select_relative V (negsuc 0) self),
      )
      ∷ (bound Actions.leader_scroll_up event self, dispatch_to_active V scroll_page_up self)
      ∷ (bound Actions.leader_scroll_down event self, dispatch_to_active V scroll_page_down self)
      ∷ (
        is_some (jump leader_jump_modifiers event self),
        signalling continue (numbered (jump leader_jump_modifiers event self) self),
      )
      ∷ (bound Actions.leader_close event self, close_active V self)
      ∷ (bound Actions.leader_help event self, some (continue, open_help self))
      ∷ (plain_esc event, some (continue, self))
      ∷ []

  unfoldable pub leader_action : KeyEvent → Run S ShellSignal
  unfolding first_of leader_arms
  leader_action event self =
      first_of (leader_arms event self) (some (continue, unknown_leader_key self))

  unfoldable pub handle_leader_key : KeyEvent → Run S ShellSignal
  unfolding clear_notice leader_action
  handle_leader_key event self = leader_action event (clear_notice self)
