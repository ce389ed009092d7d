-- ===== src/Shell.antt =====
-- src/shell.rs and src/surface.rs: the values of a shell and its surfaces. A time is a number of
-- nanoseconds. A surface is an implementation of the trait `Surface`: a parameter, `Surfaces`. What
-- only drawing reads (themes, badges, shortcuts, markers) is left out.
pub mod Focus
pub mod Pulse
pub mod Actions
pub mod Dispatch
pub mod Score
pub mod Palette
pub mod Keys
pub mod Overlays
pub mod Events
pub mod Terminal
pub mod Focused
pub mod Wrap
use turtletap.Prelude.{
  ℕ, ◌+◌, ◌-◌, ◌≤◌, Bool, true, false, ◌&&◌, Option, none, some, List, [], leb, if◌then◌else◌,
}
use turtletap.Protocol.{Text}
use turtletap.Binding.{KeyEvent, KeyEventKind}
use turtletap.Binding.Sets.{ShellBindings}
use turtletap.Binding.Defaults.{default}

pub data ExitReason : Type 0 where
  detached no_surfaces : ExitReason

pub data ShellSignal : Type 0 where
  continue : ShellSignal
  exit : ExitReason → ShellSignal

pub data Chrome : Type 0 where
  no_chrome tabs : Chrome
  rail : (width narrow min_content : ℕ) → Chrome

pub record ShellConfig : Type 0 where
  pub title : Text
  pub tick_rate : ℕ
  pub direct_detach : Bool
  pub mouse_capture : Bool
  pub bindings : ShellBindings
  pub chrome : Chrome

pub data InputPolicy : Type 0 where
  shell captured exclusive : InputPolicy

pub data SurfaceStatus : Type 0 where
  ready working attention failed complete : SurfaceStatus

pub record SurfaceCommand : Type 0 where
  pub id : Text
  pub label : Text
  pub description : Text
  pub shortcut : Option Text

pub data MouseEventKind : Type 0 where
  down other : ℕ → MouseEventKind

pub record MouseEvent : Type 0 where
  pub kind : MouseEventKind
  pub column : ℕ
  pub row : ℕ
  pub modifiers : ℕ

pub data SurfaceEvent : Type 0 where
  key : KeyEvent → SurfaceEvent
  scroll_page_up scroll_page_down : SurfaceEvent
  paste : Text → SurfaceEvent
  mouse : MouseEvent → SurfaceEvent
  tick : ℕ → SurfaceEvent
  resize : (columns rows : ℕ) → SurfaceEvent

pub data SurfaceAction (S : Type 0) : Type 0 where
  ignored consumed close detach : SurfaceAction S
  open_surface : S → SurfaceAction S
  focus_key : Text → SurfaceAction S
  reconfigure : ShellConfig → SurfaceAction S

pub data Poll (A : Type 0) : Type 0 where
  ready : A → Poll A
  pending : Poll A

-- The trait `Surface`; a method with `&mut self` gives the surface that it leaves.
pub record Surfaces (S : Type 0) : Type 0 where
  pub title : S → Text
  pub lookup_key : S → Option Text
  pub status : S → SurfaceStatus
  pub input_policy : S → InputPolicy
  pub reconfigured : ShellConfig → S → S
  pub opens_action_bar_on_escape : S → Bool
  pub poll_interval : S → Option ℕ
  pub handle : SurfaceEvent → S → SurfaceAction S × S
  pub poll_background : S → Poll (SurfaceAction S) × S
  pub commands : S → List SurfaceCommand
  pub execute_command : Text → S → SurfaceAction S × S
  pub focus : S → S
  pub blur : S → S

-- What the program asks of the platform and of Unicode.
pub record Platform : Type 0 where
  pub macos : Bool
  pub to_uppercase : ℕ → Text
  pub to_lowercase : Text → Text
  pub is_alphanumeric : ℕ → Bool

pub data Overlay : Type 0 where
  palette : (query : Text) (selected : ℕ) → Overlay
  help : Overlay

pub data PaletteAction : Type 0 where
  run_surface_command : Text → PaletteAction
  select_surface : ℕ → PaletteAction
  next_surface previous_surface scroll_up scroll_down close_surface detach help : PaletteAction

-- The text of a notice, as the data that it is made of.
pub data Notice : Type 0 where
  leader_armed unknown_chord : Text → Notice
  screen_not_open : (digit count : ℕ) → Notice
  surface_not_open : Text → Notice

pub record Rect : Type 0 where
  pub x : ℕ
  pub y : ℕ
  pub width : ℕ
  pub height : ℕ

pub record Entry (S : Type 0) : Type 0 where
  pub id : ℕ
  pub surface : S

pub record Shell (S : Type 0) : Type 0 where
  pub config : ShellConfig
  pub entries : List (Entry S)
  pub active : Option ℕ
  pub next_id : ℕ
  pub overlay : Option Overlay
  pub leader_armed : Bool
  pub dirty : Bool
  pub pulse_elapsed : ℕ
  pub pulse_frame : ℕ
  pub pulse_enabled : Bool
  pub clear_requested : Bool
  pub frame_interval : ℕ
  pub background_cursor : ℕ
  pub notice : Option Notice
  pub chrome_hits : List (Rect × ℕ)

-- A method of the shell that may panic: `none`, or its result with the state it leaves.
abbrev pub Run : Type 0 → Type 0 → Type 0
Run S A = Shell S → Option (A × Shell S)
