-- ===== src/Tests/Shell.antt =====
-- The shell: surfaces that only know whether they have the focus, and the theorems on them.
use turtletap.Prelude.{
  ◌+◌, ◌%◌, ◌^◌, ◌<◌, ◌≡◌, ◌↔◌, refl, arith, Bool, true, false, none, some, [], ◌∷◌, ◌==◌,
  if◌then◌else◌,
}
use turtletap.Binding.{press, tab, KeyEvent}
use turtletap.Binding.Chords.{empty}
use turtletap.Binding.Defaults.{default}
use turtletap.Shell.{
  ShellConfig, tabs, shell, SurfaceStatus, consumed, pending, Surfaces, Platform, Shell,
}
use turtletap.Shell.Focus.{pos, negsuc, wrap_index, new, add_boxed_surface}
use turtletap.Shell.Wrap.{wrap_index_lem}
use turtletap.Shell.Events.{key_event}
use turtletap.Shell.Terminal.{RuntimeAction, terminal, handle}
use turtletap.Shell.Focused.{FocusLaws, IsValid}
use turtletap.Shell.Focused.Handled.{handle-IsValid}
use turtletap.Shell.Focused.Opened.{Opened, fresh, added, Opened-IsValid}

-- A surface that is its focus, and answers that it has used up whatever comes.
abbrev pane : Surfaces Bool
pane = record {
  title = λ s. [];
  lookup_key = λ s. none;
  status = λ s. SurfaceStatus.ready;
  input_policy = λ s. shell;
  reconfigured = λ c s. s;
  opens_action_bar_on_escape = λ s. false;
  poll_interval = λ s. none;
  handle = λ e s. (consumed, s);
  poll_background = λ s. (pending, s);
  commands = λ s. [];
  execute_command = λ id s. (consumed, s);
  focus = λ s. true;
  blur = λ s. false;
}

abbrev has_focus : Bool → Bool
has_focus s = s

pane-FocusLaws : FocusLaws pane has_focus
pane-FocusLaws = record {
  focus-focused = λ s. refl;
  blur-focused = λ s. refl;
  handle-focused = λ e s. refl;
  poll_background-focused = λ s. refl;
  execute_command-focused = λ id s. refl;
  reconfigured-focused = λ c s. refl;
}

abbrev ascii : Platform
ascii = record {
  macos = false;
  to_uppercase = λ c. c ∷ [];
  to_lowercase = λ t. t;
  is_alphanumeric = λ c. true;
}

abbrev config : ShellConfig
config = record {
  title = [];
  tick_rate = 100000000;
  direct_detach = true;
  mouse_capture = false;
  bindings = default;
  chrome = tabs;
}

abbrev one_pane : Shell Bool
one_pane = record (new config) {
  entries = record { id = 1; surface = true } ∷ [];
  active = some 0;
  next_id = 2;
}

abbrev two_panes : Shell Bool
two_panes = record (new config) {
  entries = record { id = 1; surface = false } ∷ record { id = 2; surface = true } ∷ [];
  active = some 1;
  next_id = 3;
}

two_panes-Opened : Opened pane ascii two_panes
unfolding new add_boxed_surface
two_panes-Opened =
    added false 2 one_pane two_panes (added false 1 (new config) one_pane (fresh config) refl) refl

Opened-IsValid_example : IsValid has_focus two_panes
Opened-IsValid_example =
    Opened-IsValid pane ascii has_focus pane-FocusLaws two_panes two_panes-Opened

abbrev tab_key : KeyEvent
tab_key = record { code = tab; modifiers = empty; kind = press; state = 0 }

handle-IsValid_example :
    (a : RuntimeAction) × (s' : Shell Bool) × (handle pane ascii
        (terminal (key_event tab_key))
        two_panes
      ≡ some (a, s'))
    × IsValid has_focus s'
unfolding new
handle-IsValid_example =
    handle-IsValid pane ascii has_focus pane-FocusLaws (terminal (key_event tab_key)) two_panes
      ((refl, (refl, tt)), omega arith)

wrap_index_lem_example :
    (wrap_index 1 (pos 1) 3 ≡ (if 1 + 1 == 3 then 0 else 1 + 1))
    × (2 < 3 → wrap_index 2 (negsuc 0) 3 ≡ 1)
    × ((wrap_index 0 (negsuc 0) 3 ≡ 2) ↔ (2 ^ 64 % 3 ≡ 0))
wrap_index_lem_example = wrap_index_lem 1 3 (omega arith) (omega arith)

-- With three screens the step back from the first one stays there.
stays_at_first : wrap_index 0 (negsuc 0) 3 ≡ 0
unfolding wrap_index
stays_at_first = refl
