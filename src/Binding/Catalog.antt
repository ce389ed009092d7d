-- ===== src/Binding/Catalog.antt =====
-- src/binding.rs: the table that `binding_catalog!` is given: what each action is called on the
-- screen and in configuration, and its context.
use turtletap.Prelude.{Bool, true, false, Option, none, some, ◌∷◌, ◌++◌}
use turtletap.Prelude.Strings.{codes}
use turtletap.Protocol.{Text}
use turtletap.Binding.Actions.{
  BindingContext, global, shell, leader, action, session, dashboard, BindingKind, KeyId, ModifierId,
  BindingId, key_id, modifier_id, leaders, palette, redraw, next_screen, previous_screen,
  shell_detach, shell_next_screen, shell_previous_screen, shell_help, leader_palette,
  leader_next_screen, leader_previous_screen, leader_scroll_up, leader_scroll_down, leader_close,
  leader_detach, leader_help, action_next_screen, action_previous_screen, action_scroll_up,
  action_scroll_down, action_close, action_detach, action_help, action_clear_query,
  session_release_driver, session_take_driver, session_clear, session_interrupt, session_detach,
  session_delete_to_start, session_word_left, session_word_right, session_line_start,
  session_line_end, session_delete_word, session_complete, session_scroll_up, session_scroll_down,
  session_scroll_top, session_scroll_bottom, dashboard_up, dashboard_down, dashboard_view,
  dashboard_take, dashboard_search, dashboard_new, dashboard_rename, dashboard_delete,
  dashboard_stop, dashboard_keybindings, dashboard_close, jump_modifiers, leader_jump_modifiers,
  action_jump_modifiers,
}

unfoldable pub config_scope : BindingContext → Option Text
config_scope global = none
config_scope shell = some (codes "shell")
config_scope leader = some (codes "leader")
config_scope action = some (codes "action")
config_scope session = some (codes "session")
config_scope dashboard = some (codes "dashboard")

unfoldable pub context_label : BindingContext → Text
context_label global = codes "Global"
context_label shell = codes "Shell"
context_label leader = codes "Leader"
context_label action = codes "Action bar"
context_label session = codes "Session"
context_label dashboard = codes "Dashboard"

unfoldable pub accepts_text : BindingContext → Bool
accepts_text global = true
accepts_text action = true
accepts_text session = true
accepts_text _ = false

-- A row of the table: the last four columns.
pub record Entry : Type 0 where
  pub flat_id : Text
  pub config_name : Text
  pub label : Text
  pub context : BindingContext

abbrev row : Text → Text → Text → BindingContext → Entry
row flat name label context = record {
  flat_id = flat;
  config_name = name;
  label = label;
  context = context;
}

unfoldable pub key_entry : KeyId → Entry
key_entry leaders = row (codes "leaders") (codes "leaders") (codes "Leader") global
key_entry palette = row (codes "palette") (codes "palette") (codes "Action bar") global
key_entry redraw = row (codes "redraw") (codes "redraw") (codes "Redraw") global
key_entry next_screen = row (codes "next-screen") (codes "next-screen") (codes "Next screen") global
key_entry previous_screen =
    row (codes "previous-screen") (codes "previous-screen") (codes "Previous screen") global
key_entry shell_detach = row (codes "shell-detach") (codes "detach") (codes "Detach") shell
key_entry shell_next_screen =
    row (codes "shell-next-screen") (codes "next-screen") (codes "Next screen") shell
key_entry shell_previous_screen =
    row (codes "shell-previous-screen") (codes "previous-screen") (codes "Previous screen") shell
key_entry shell_help = row (codes "shell-help") (codes "help") (codes "Help") shell
key_entry leader_palette =
    row (codes "leader-palette") (codes "palette") (codes "Action bar") leader
key_entry leader_next_screen =
    row (codes "leader-next-screen") (codes "next-screen") (codes "Next screen") leader
key_entry leader_previous_screen =
    row (codes "leader-previous-screen") (codes "previous-screen") (codes "Previous screen") leader
key_entry leader_scroll_up =
    row (codes "leader-scroll-up") (codes "scroll-up") (codes "Scroll up") leader
key_entry leader_scroll_down =
    row (codes "leader-scroll-down") (codes "scroll-down") (codes "Scroll down") leader
key_entry leader_close = row (codes "leader-close") (codes "close") (codes "Close") leader
key_entry leader_detach = row (codes "leader-detach") (codes "detach") (codes "Detach") leader
key_entry leader_help = row (codes "leader-help") (codes "help") (codes "Help") leader
key_entry action_next_screen =
    row (codes "action-next-screen") (codes "next-screen") (codes "Next screen") action
key_entry action_previous_screen =
    row (codes "action-previous-screen") (codes "previous-screen") (codes "Previous screen") action
key_entry action_scroll_up =
    row (codes "action-scroll-up") (codes "scroll-up") (codes "Scroll up") action
key_entry action_scroll_down =
    row (codes "action-scroll-down") (codes "scroll-down") (codes "Scroll down") action
key_entry action_close = row (codes "action-close") (codes "close") (codes "Close") action
key_entry action_detach = row (codes "action-detach") (codes "detach") (codes "Detach") action
key_entry action_help = row (codes "action-help") (codes "help") (codes "Help") action
key_entry action_clear_query =
    row (codes "action-clear-query") (codes "clear-query") (codes "Clear query") action
key_entry session_release_driver =
    row (codes "session-release-driver") (codes "release-driver") (codes "Release driver") session
key_entry session_take_driver =
    row (codes "session-take-driver") (codes "take-driver") (codes "Take driver") session
key_entry session_clear = row (codes "session-clear") (codes "clear") (codes "Clear") session
key_entry session_interrupt =
    row (codes "session-interrupt") (codes "interrupt") (codes "Interrupt") session
key_entry session_detach = row (codes "session-detach") (codes "detach") (codes "Detach") session
key_entry session_delete_to_start =
    row (codes "session-delete-to-start") (codes "delete-to-start") (codes "Delete to start")
      session
key_entry session_word_left =
    row (codes "session-word-left") (codes "word-left") (codes "Word left") session
key_entry session_word_right =
    row (codes "session-word-right") (codes "word-right") (codes "Word right") session
key_entry session_line_start =
    row (codes "session-line-start") (codes "line-start") (codes "Line start") session
key_entry session_line_end =
    row (codes "session-line-end") (codes "line-end") (codes "Line end") session
key_entry session_delete_word =
    row (codes "session-delete-word") (codes "delete-word") (codes "Delete word") session
key_entry session_complete =
    row (codes "session-complete") (codes "complete") (codes "Complete") session
key_entry session_scroll_up =
    row (codes "session-scroll-up") (codes "scroll-up") (codes "Scroll up") session
key_entry session_scroll_down =
    row (codes "session-scroll-down") (codes "scroll-down") (codes "Scroll down") session
key_entry session_scroll_top =
    row (codes "session-scroll-top") (codes "scroll-top") (codes "Scroll to top") session
key_entry session_scroll_bottom =
    row (codes "session-scroll-bottom") (codes "scroll-bottom") (codes "Scroll to bottom") session
key_entry dashboard_up = row (codes "dashboard-up") (codes "up") (codes "Move up") dashboard
key_entry dashboard_down = row (codes "dashboard-down") (codes "down") (codes "Move down") dashboard
key_entry dashboard_view =
    row (codes "dashboard-view") (codes "view") (codes "View session") dashboard
key_entry dashboard_take =
    row (codes "dashboard-take") (codes "take") (codes "Take session") dashboard
key_entry dashboard_search =
    row (codes "dashboard-search") (codes "search") (codes "Search") dashboard
key_entry dashboard_new = row (codes "dashboard-new") (codes "new") (codes "New session") dashboard
key_entry dashboard_rename =
    row (codes "dashboard-rename") (codes "rename") (codes "Rename session") dashboard
key_entry dashboard_delete =
    row (codes "dashboard-delete") (codes "delete") (codes "Delete session") dashboard
key_entry dashboard_stop =
    row (codes "dashboard-stop") (codes "stop") (codes "Stop resident") dashboard
key_entry dashboard_keybindings =
    row (codes "dashboard-keybindings") (codes "keybindings") (codes "Edit keybindings") dashboard
key_entry dashboard_close = row (codes "dashboard-close") (codes "close") (codes "Close") dashboard

unfoldable pub modifier_entry : ModifierId → Entry
modifier_entry jump_modifiers =
    row (codes "jump-modifiers") (codes "jump-modifiers") (codes "Jump to screen") global
modifier_entry leader_jump_modifiers =
    row (codes "leader-jump-modifiers") (codes "jump-modifiers") (codes "Jump to screen") leader
modifier_entry action_jump_modifiers =
    row (codes "action-jump-modifiers") (codes "jump-modifiers") (codes "Jump to screen") action

unfoldable pub entry : BindingId → Entry
unfolding key_entry modifier_entry
entry (key_id id) = key_entry id
entry (modifier_id id) = modifier_entry id

unfoldable pub kind : BindingId → BindingKind
kind (key_id id) = BindingKind.keys
kind (modifier_id id) = BindingKind.modifiers

unfoldable pub context : BindingId → BindingContext
unfolding entry
context id = (entry id).context

unfoldable pub flat_id : BindingId → Text
unfolding entry
flat_id id = (entry id).flat_id

unfoldable pub config_name : BindingId → Text
unfolding entry
config_name id = (entry id).config_name

unfoldable pub config_path : BindingId → Text
unfolding context config_name config_scope
config_path id = elim (config_scope (context id)) [
  | none ↦ codes "bindings." ++ config_name id
  | some scope ↦ codes "bindings." ++ (scope ++ (b'.' ∷ config_name id))
]

unfoldable pub label : BindingId → Text
unfolding entry
label id = (entry id).label
