-- ===== src/Shell/Events.antt =====
-- src/shell.rs: the terminal events of a shell, and `TerminalApplication::handle`.
use turtletap.Prelude.{
  ℕ, ◌+◌, Bool, true, false, ◌&&◌, Option, none, some, List, [], ◌∷◌, ltb, leb, if◌then◌else◌,
}
use turtletap.Prelude.Panics.{◌>>=◌}
use turtletap.Protocol.{Text}
use turtletap.Binding.{KeyEvent, KeyEventKind, press, repeat, release}
use turtletap.Binding.Actions
use turtletap.Binding.Actions.{leaders, redraw, next_screen, previous_screen, jump_modifiers}
use turtletap.Shell.{
  detached, ShellSignal, continue, exit, InputPolicy, shell, exclusive, key, paste, mouse, resize,
  MouseEvent, MouseEventKind, down, Surfaces, Platform, Overlay, palette, leader_armed, Rect, Shell,
  Run,
}
use turtletap.Shell.Focus.{pos, negsuc, min, select_index, select_relative}
use turtletap.Shell.Actions.{dispatch_to_active, signalling}
use turtletap.Shell.Dispatch.{dispatch_to_all}
use turtletap.Shell.Palette.{active_surface}
use turtletap.Shell.Keys.{
  first_of, bound, jump, is_some, numbered, clear_notice, open_palette, open_help,
  primary_leader_label, plain_esc, handle_leader_key,
}
use turtletap.Shell.Overlays.{handle_overlay_key, append_palette_query}

pub data Event : Type 0 where
  key_event : KeyEvent → Event
  mouse_event : MouseEvent → Event
  paste_event : Text → Event
  resize_event : (columns rows : ℕ) → Event
  focus_gained focus_lost : Event

-- `u16::saturating_add`, and whether a cell is in a rectangle.
unfoldable pub saturating_u16 : ℕ → ℕ → ℕ
saturating_u16 a b = min (a + b) 65535

unfoldable pub inside : Rect → ℕ → ℕ → Bool
unfolding saturating_u16
inside area x y =
    leb area.x x
    && ltb x (saturating_u16 area.x area.width)
    && leb area.y y
    && ltb y (saturating_u16 area.y area.height)

unfoldable pub hit : ℕ → ℕ → List (Rect × ℕ) → Option ℕ
unfolding inside
hit x y [] = none
hit x y ((area, index) ∷ hits) =
    let rest = hit x y hits in if inside area x y then some index else rest

unfoldable pub is_down : MouseEventKind → Bool
is_down (down button) = true
is_down _ = false

unfoldable pub is_palette : Option Overlay → Bool
is_palette (some (palette query selected)) = true
is_palette _ = false

unfoldable pub is_exclusive : InputPolicy → Bool
is_exclusive exclusive = true
is_exclusive _ = false

unfoldable pub is_shell : InputPolicy → Bool
is_shell shell = true
is_shell _ = false

module _ {S : Type 0} (V : Surfaces S) (P : Platform) where
  -- Without an active surface the policy is the default one.
  unfoldable pub policy_of : Option S → InputPolicy
  policy_of none = shell
  policy_of (some s) = V.input_policy s

  unfoldable pub opens_bar : Option S → Bool
  opens_bar none = false
  opens_bar (some s) = V.opens_action_bar_on_escape s

  unfoldable pub arm_leader : Shell S → Shell S
  unfolding primary_leader_label
  arm_leader self = record self {
    leader_armed = true;
    notice = some (leader_armed (primary_leader_label P self));
    dirty = true;
  }

  unfoldable pub pass_on : KeyEvent → Run S ShellSignal
  unfolding clear_notice dispatch_to_active
  pass_on event self = dispatch_to_active V (key event) (clear_notice self)

  -- The keys of a shell that manages its surface.
  unfoldable pub shell_arms : KeyEvent → Shell S → List (Bool × Option (ShellSignal × Shell S))
  unfolding bound signalling select_relative open_help pass_on
  shell_arms event self =
      (
        self.config.direct_detach && bound Actions.shell_detach event self,
        some (exit detached, self),
      )
      ∷ (
        bound Actions.shell_next_screen event self,
        signalling continue (select_relative V (pos 1) self),
      )
      ∷ (
        bound Actions.shell_previous_screen event self,
        signalling continue (select_relative V (negsuc 0) self),
      )
      ∷ (bound Actions.shell_help event self, some (continue, open_help self))
      ∷ []

  unfoldable pub shell_key : KeyEvent → Run S ShellSignal
  unfolding first_of shell_arms
  shell_key event self = first_of (shell_arms event self) (pass_on event self)

  -- The keys outside an overlay, with the active surface.
  unfoldable pub plain_arms :
      KeyEvent → Option S → Shell S → List (Bool × Option (ShellSignal × Shell S))
  unfolding policy_of opens_bar is_exclusive is_shell plain_esc open_palette bound arm_leader
      signalling select_relative is_some jump numbered shell_key pass_on handle_leader_key
  plain_arms event surface self =
      (is_exclusive (policy_of surface), pass_on event self)
      ∷ (self.leader_armed, handle_leader_key V P event (record self { leader_armed = false }))
      ∷ (plain_esc event && opens_bar surface, some (continue, open_palette self))
      ∷ (bound leaders event self, some (continue, arm_leader self))
      ∷ (bound Actions.palette event self, some (continue, open_palette self))
      ∷ (
        bound redraw event self,
        some (continue, record self { clear_requested = true; dirty = true }),
      )
      ∷ (bound previous_screen event self, signalling continue (select_relative V (negsuc 0) self))
      ∷ (bound next_screen event self, signalling continue (select_relative V (pos 1) self))
      ∷ (
        is_some (jump jump_modifiers event self),
        signalling continue (numbered V P (jump jump_modifiers event self) self),
      )
      ∷ (is_shell (policy_of surface), shell_key event self)
      ∷ []

  unfoldable pub plain_key : KeyEvent → Option S → Run S ShellSignal
  unfolding first_of plain_arms
  plain_key event surface self = first_of (plain_arms event surface self) (pass_on event self)

  unfoldable pub handle_key : KeyEvent → Run S ShellSignal
  unfolding is_some handle_overlay_key active_surface plain_key
  handle_key event self = elim (is_some self.overlay) [
    | true ↦ handle_overlay_key V P event self
    | false ↦ do surface ← active_surface V P self.active self.entries; plain_key event surface self
  ]

  unfoldable pub select_hit : Option ℕ → MouseEvent → Run S ShellSignal
  unfolding signalling select_index dispatch_to_active
  select_hit none event self = dispatch_to_active V (mouse event) self
  select_hit (some index) event self = signalling continue (select_index V index self)

  unfoldable pub handle_mouse : MouseEvent → Run S ShellSignal
  unfolding is_some is_down hit select_hit
  handle_mouse event self =
      let target =
        if is_down event.kind then hit event.column event.row self.chrome_hits else none in
      if is_some self.overlay then some (continue, self) else select_hit target event self

  unfoldable pub pressed_key : KeyEventKind → KeyEvent → Run S ShellSignal
  unfolding handle_key
  pressed_key press event self = handle_key event self
  pressed_key repeat event self = handle_key event self
  pressed_key release event self = some (continue, self)

  unfoldable pub handle_event : Event → Run S ShellSignal
  unfolding pressed_key handle_mouse is_palette append_palette_query dispatch_to_active
      dispatch_to_all
  handle_event (key_event event) self = pressed_key event.kind event self
  handle_event (mouse_event event) self = handle_mouse event self
  handle_event (paste_event text) self =
      if is_palette self.overlay
      then some (continue, append_palette_query V P text self)
      else dispatch_to_active V (paste text) self
  handle_event (resize_event columns rows) self =
      dispatch_to_all V (resize columns rows) (record self { dirty = true })
  handle_event focus_gained self = some (continue, record self { dirty = true })
  handle_event focus_lost self = some (continue, self)
