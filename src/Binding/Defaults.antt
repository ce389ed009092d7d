-- ===== src/Binding/Defaults.antt =====
-- src/shell.rs: the bindings that a shell has when nothing is configured.
use turtletap.Prelude.{ℕ, List, [], ◌∷◌}
use turtletap.Binding.{
  KeyCode, KeyModifiers, KeyBinding, char, f, back_tab, backspace, down, end, home, left, page_down,
  page_up, right, tab, up,
}
use turtletap.Binding.Chords.{empty, control_only, alt_only, super_only}
use turtletap.Binding.Actions.{
  KeyId, ModifierId, jump_modifiers, leader_jump_modifiers, action_jump_modifiers, leaders, palette,
  redraw, next_screen, previous_screen, shell_detach, shell_next_screen, shell_previous_screen,
  shell_help, leader_palette, leader_next_screen, leader_previous_screen, leader_scroll_up,
  leader_scroll_down, leader_close, leader_detach, leader_help, action_next_screen,
  action_previous_screen, action_scroll_up, action_scroll_down, action_close, action_detach,
  action_help, action_clear_query, session_release_driver, session_take_driver, session_clear,
  session_interrupt, session_detach, session_delete_to_start, session_word_left, session_word_right,
  session_line_start, session_line_end, session_delete_word, session_complete, session_scroll_up,
  session_scroll_down, session_scroll_top, session_scroll_bottom, dashboard_up, dashboard_down,
  dashboard_view, dashboard_take, dashboard_search, dashboard_new, dashboard_rename,
  dashboard_delete, dashboard_stop, dashboard_keybindings, dashboard_close,
}
use turtletap.Binding.Sets.{ShellBindings}

-- `KeyBinding::new`
unfoldable pub chord : KeyCode → KeyModifiers → KeyBinding
chord code modifiers = record { code = code; modifiers = modifiers }

unfoldable pub plain : KeyCode → KeyBinding
unfolding chord
plain code = chord code empty

unfoldable pub ctrl : ℕ → KeyBinding
unfolding chord
ctrl character = chord (char character) control_only

unfoldable pub alt : KeyCode → KeyBinding
unfolding chord
alt code = chord code alt_only

unfoldable pub default_keys : KeyId → List KeyBinding
unfolding plain ctrl alt
default_keys leaders = chord (char b'g') control_only ∷ []
default_keys palette = chord (char b'`') control_only ∷ chord (char b' ') control_only ∷ []
default_keys redraw = plain (f 5) ∷ []
default_keys next_screen = []
default_keys previous_screen = []
default_keys shell_detach = ctrl b'd' ∷ []
default_keys shell_next_screen = plain tab ∷ []
default_keys shell_previous_screen = plain back_tab ∷ []
default_keys shell_help = plain (char b'?') ∷ plain (f 1) ∷ alt (char b'h') ∷ []
default_keys leader_palette = plain (char b's') ∷ []
default_keys leader_next_screen = plain (char b'n') ∷ plain tab ∷ plain right ∷ []
default_keys leader_previous_screen = plain (char b'p') ∷ plain back_tab ∷ plain left ∷ []
default_keys leader_scroll_up = plain (char b'k') ∷ plain up ∷ []
default_keys leader_scroll_down = plain (char b'j') ∷ plain down ∷ []
default_keys leader_close = plain (char b'x') ∷ []
default_keys leader_detach = plain (char b'd') ∷ []
default_keys leader_help = plain (char b'?') ∷ plain (char b'h') ∷ []
default_keys action_next_screen = alt right ∷ []
default_keys action_previous_screen = alt left ∷ []
default_keys action_scroll_up = alt up ∷ []
default_keys action_scroll_down = alt down ∷ []
default_keys action_close = alt (char b'x') ∷ []
default_keys action_detach = alt (char b'd') ∷ []
default_keys action_help = alt (char b'?') ∷ []
default_keys action_clear_query = ctrl b'u' ∷ []
default_keys session_release_driver = plain (f 2) ∷ []
default_keys session_take_driver = plain (f 3) ∷ []
default_keys session_clear = ctrl b'l' ∷ chord (char b'k') super_only ∷ []
default_keys session_interrupt = ctrl b'c' ∷ []
default_keys session_detach = ctrl b'd' ∷ []
default_keys session_delete_to_start = ctrl b'u' ∷ chord backspace super_only ∷ []
default_keys session_word_left = alt (char b'b') ∷ alt left ∷ []
default_keys session_word_right = alt (char b'f') ∷ alt right ∷ []
default_keys session_line_start = ctrl b'a' ∷ chord left super_only ∷ []
default_keys session_line_end = ctrl b'e' ∷ chord right super_only ∷ []
default_keys session_delete_word = ctrl b'w' ∷ alt backspace ∷ []
default_keys session_complete = plain tab ∷ []
default_keys session_scroll_up = plain page_up ∷ []
default_keys session_scroll_down = plain page_down ∷ []
default_keys session_scroll_top = chord home control_only ∷ []
default_keys session_scroll_bottom = chord end control_only ∷ []
default_keys dashboard_up = plain (char b'k') ∷ []
default_keys dashboard_down = plain (char b'j') ∷ []
default_keys dashboard_view = plain (char b'v') ∷ []
default_keys dashboard_take = plain (char b't') ∷ []
default_keys dashboard_search = plain (char b'/') ∷ []
default_keys dashboard_new = plain (char b'n') ∷ []
default_keys dashboard_rename = plain (char b'r') ∷ []
default_keys dashboard_delete = plain (char b'x') ∷ []
default_keys dashboard_stop = plain (char b'!') ∷ []
default_keys dashboard_keybindings = plain (char b'b') ∷ []
default_keys dashboard_close = plain (char b'q') ∷ []

unfoldable pub default_modifiers : ModifierId → List KeyModifiers
default_modifiers jump_modifiers = []
default_modifiers leader_jump_modifiers = empty ∷ []
default_modifiers action_jump_modifiers = alt_only ∷ []

unfoldable pub default : ShellBindings
unfolding default_keys default_modifiers
default = record { key_lists = default_keys; modifier_lists = default_modifiers }
