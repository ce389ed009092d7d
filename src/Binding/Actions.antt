-- ===== src/Binding/Actions.antt =====
-- src/binding.rs: the actions that the table of `binding_catalog!` lists, in its two groups.
use turtletap.Prelude.{List, [], ◌∷◌, ◌++◌, map}

pub data BindingContext : Type 0 where
  global shell leader action session dashboard : BindingContext

pub data BindingKind : Type 0 where
  keys modifiers : BindingKind

-- The actions of the group `keys`.
pub data KeyId : Type 0 where
  leaders palette redraw next_screen previous_screen shell_detach : KeyId
  shell_next_screen shell_previous_screen shell_help leader_palette : KeyId
  leader_next_screen leader_previous_screen leader_scroll_up leader_scroll_down : KeyId
  leader_close leader_detach leader_help action_next_screen : KeyId
  action_previous_screen action_scroll_up action_scroll_down action_close : KeyId
  action_detach action_help action_clear_query session_release_driver : KeyId
  session_take_driver session_clear session_interrupt session_detach : KeyId
  session_delete_to_start session_word_left session_word_right : KeyId
  session_line_start session_line_end session_delete_word session_complete : KeyId
  session_scroll_up session_scroll_down session_scroll_top : KeyId
  session_scroll_bottom dashboard_up dashboard_down dashboard_view : KeyId
  dashboard_take dashboard_search dashboard_new dashboard_rename : KeyId
  dashboard_delete dashboard_stop dashboard_keybindings dashboard_close : KeyId

-- The actions of the group `modifiers`.
pub data ModifierId : Type 0 where
  jump_modifiers leader_jump_modifiers action_jump_modifiers : ModifierId

pub data BindingId : Type 0 where
  key_id : KeyId → BindingId
  modifier_id : ModifierId → BindingId

-- `BindingId::KEY_BINDINGS`
abbrev pub key_bindings : List KeyId
key_bindings =
    leaders ∷ palette ∷ redraw ∷ next_screen ∷ previous_screen ∷ shell_detach ∷ shell_next_screen
    ∷ shell_previous_screen ∷ shell_help ∷ leader_palette ∷ leader_next_screen
    ∷ leader_previous_screen ∷ leader_scroll_up ∷ leader_scroll_down ∷ leader_close ∷ leader_detach
    ∷ leader_help ∷ action_next_screen ∷ action_previous_screen ∷ action_scroll_up
    ∷ action_scroll_down ∷ action_close ∷ action_detach ∷ action_help ∷ action_clear_query
    ∷ session_release_driver ∷ session_take_driver ∷ session_clear ∷ session_interrupt
    ∷ session_detach ∷ session_delete_to_start ∷ session_word_left ∷ session_word_right
    ∷ session_line_start ∷ session_line_end ∷ session_delete_word ∷ session_complete
    ∷ session_scroll_up ∷ session_scroll_down ∷ session_scroll_top ∷ session_scroll_bottom
    ∷ dashboard_up ∷ dashboard_down ∷ dashboard_view ∷ dashboard_take ∷ dashboard_search
    ∷ dashboard_new ∷ dashboard_rename ∷ dashboard_delete ∷ dashboard_stop ∷ dashboard_keybindings
    ∷ dashboard_close ∷ []

abbrev pub modifier_bindings : List ModifierId
modifier_bindings = jump_modifiers ∷ leader_jump_modifiers ∷ action_jump_modifiers ∷ []

-- `BindingId::ALL`
abbrev pub all_bindings : List BindingId
all_bindings = map key_id key_bindings ++ map modifier_id modifier_bindings
