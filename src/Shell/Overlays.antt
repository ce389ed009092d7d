-- ===== src/Shell/Overlays.antt =====
-- src/shell.rs: the keys of an open action bar and of the help.
use turtletap.Prelude.{
  ℕ, ◌-◌, Bool, true, false, ◌&&◌, ◌||◌, Option, none, some, List, [], ◌∷◌, ◌++◌, ltb, ◌==◌, length,
  if◌then◌else◌,
}
use turtletap.Prelude.Panics.{◌>>=◌, at_index}
use turtletap.Prelude.Strings.{text_eq, is_whitespace, is_control}
use turtletap.Protocol.{Text}
use turtletap.Binding.{KeyCode, KeyEvent, char, down, up, tab, back_tab, enter, backspace}
use turtletap.Binding.Actions
use turtletap.Binding.Actions.{action_jump_modifiers}
use turtletap.Shell.{
  ShellSignal, continue, Surfaces, Platform, Overlay, palette, PaletteAction, select_surface,
  next_surface, previous_surface, scroll_up, scroll_down, close_surface, Shell, Run,
}
use turtletap.Shell.Focus.{pos, negsuc, wrap_index}
use turtletap.Shell.Palette.{PaletteItem, palette_items}
use turtletap.Shell.Keys.{first_of, bound, jump, is_some, is_esc, plain_esc, execute_palette_action}

unfoldable pub moves_down : KeyCode → Bool
moves_down down = true
moves_down tab = true
moves_down _ = false

unfoldable pub moves_up : KeyCode → Bool
moves_up up = true
moves_up back_tab = true
moves_up _ = false

unfoldable pub is_enter : KeyCode → Bool
is_enter enter = true
is_enter _ = false

unfoldable pub is_backspace : KeyCode → Bool
is_backspace backspace = true
is_backspace _ = false

-- `String::pop`
unfoldable pub drop_end : Text → Text
drop_end [] = []
drop_end (c ∷ []) = []
drop_end (c ∷ d ∷ s) = c ∷ drop_end (d ∷ s)

-- A character that is typed: no control and no alt.
unfoldable pub typed : KeyEvent → Option ℕ
typed event = elim event.code [
  | char c ↦ if event.modifiers.control || event.modifiers.alt then none else some c
  | _ ↦ none
]

unfoldable pub same_overlay : Option Overlay → Option Overlay → Bool
unfolding text_eq
same_overlay none none = true
same_overlay (some Overlay.help) (some Overlay.help) = true
same_overlay (some (palette p m)) (some (palette q n)) = text_eq p q && (m == n)
same_overlay _ _ = false

unfoldable pub action_of : Option PaletteItem → Option PaletteAction
action_of none = none
action_of (some item) = some item.action

module _ {S : Type 0} (V : Surfaces S) (P : Platform) where
  unfoldable pub show_palette : Text → ℕ → Shell S → Shell S
  show_palette query selected self = record self { overlay = some (palette query selected) }

  -- `if let Some(action) = … { signal = self.execute_palette_action(action); }`
  unfoldable pub execute_some : Option PaletteAction → Run S ShellSignal
  unfolding execute_palette_action
  execute_some none self = some (continue, self)
  execute_some (some action) self = execute_palette_action V P action self

  -- A digit selects an open surface.
  unfoldable pub jump_action : Option ℕ → Shell S → Option PaletteAction
  jump_action none self = none
  jump_action (some digit) self =
      if ltb (digit - b'1') (length self.entries)
      then some (select_surface (digit - b'1'))
      else none

  unfoldable pub type_query : Option ℕ → Text → Shell S → Shell S
  unfolding show_palette
  type_query none query self = self
  type_query (some c) query self = show_palette (query ++ c ∷ []) 0 self

  -- The match on a key of the action bar, with the items that its query finds.
  unfoldable pub palette_arms :
      KeyEvent
      → Text
      → ℕ
      → List PaletteItem
      → Shell S
      → List (Bool × Option (ShellSignal × Shell S))
  unfolding is_esc bound jump is_some jump_action execute_some moves_down moves_up is_enter
      is_backspace drop_end typed type_query action_of show_palette wrap_index at_index
  palette_arms event query selected items self =
      (is_esc event.code, some (continue, record self { overlay = none }))
      ∷ (bound Actions.action_next_screen event self, execute_some (some next_surface) self)
      ∷ (bound Actions.action_previous_screen event self, execute_some (some previous_surface) self)
      ∷ (bound Actions.action_scroll_up event self, execute_some (some scroll_up) self)
      ∷ (bound Actions.action_scroll_down event self, execute_some (some scroll_down) self)
      ∷ (
        is_some (jump action_jump_modifiers event self),
        execute_some (jump_action (jump action_jump_modifiers event self) self) self,
      )
      ∷ (bound Actions.action_detach event self, execute_some (some PaletteAction.detach) self)
      ∷ (bound Actions.action_close event self, execute_some (some close_surface) self)
      ∷ (bound Actions.action_help event self, execute_some (some PaletteAction.help) self)
      ∷ (
        moves_down event.code,
        some (continue, show_palette query (wrap_index selected (pos 1) (length items)) self),
      )
      ∷ (
        moves_up event.code,
        some (continue, show_palette query (wrap_index selected (negsuc 0) (length items)) self),
      )
      ∷ (is_enter event.code, execute_some (action_of (at_index selected items)) self)
      ∷ (is_backspace event.code, some (continue, show_palette (drop_end query) 0 self))
      ∷ (bound Actions.action_clear_query event self, some (continue, show_palette [] 0 self))
      ∷ []

  unfoldable pub palette_key : KeyEvent → Text → ℕ → List PaletteItem → Run S ShellSignal
  unfolding first_of palette_arms
  palette_key event query selected items self =
      first_of (palette_arms event query selected items self)
        (some (continue, type_query (typed event) query self))

  unfoldable pub overlay_key : KeyEvent → Option Overlay → Run S ShellSignal
  unfolding plain_esc palette_items palette_key
  overlay_key event none self = some (continue, self)
  overlay_key event (some Overlay.help) self =
      some (continue, if plain_esc event then record self { overlay = none } else self)
  overlay_key event (some (palette query selected)) self = do
    items ← palette_items V P query self
    palette_key event query selected items self

  unfoldable pub handle_overlay_key : KeyEvent → Run S ShellSignal
  unfolding overlay_key same_overlay
  handle_overlay_key event self = do
    (signal, after) ← overlay_key event self.overlay self
    some (
      signal,
      if same_overlay after.overlay self.overlay then after else record after { dirty = true },
    )

  -- The characters that a paste adds to the query.
  unfoldable pub pasted : Text → Text
  unfolding is_whitespace is_control
  pasted [] = []
  pasted (c ∷ text) =
      let rest = pasted text in
      if is_whitespace c then b' ' ∷ rest else if is_control c then rest else c ∷ rest

  unfoldable pub append_to : Text → Option Overlay → Shell S → Shell S
  unfolding pasted
  append_to text none self = self
  append_to text (some Overlay.help) self = self
  append_to text (some (palette query selected)) self = record self {
    overlay = some (palette (query ++ pasted text) 0);
    dirty = true;
  }

  unfoldable pub append_palette_query : Text → Shell S → Shell S
  unfolding append_to
  append_palette_query text self = append_to text self.overlay self
