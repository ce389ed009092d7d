-- ===== src/Shell/Terminal.antt =====
-- src/shell.rs: a shell as a `TerminalApplication` of src/runtime.rs.
use turtletap.Prelude.{ℕ, Bool, true, false, some}
use turtletap.Prelude.Panics.{◌>>=◌}
use turtletap.Shell.{
  ExitReason, ShellSignal, continue, SurfaceEvent, Surfaces, Platform, Shell, Run,
}
use turtletap.Shell.Dispatch.{dispatch_to_all, poll_background_sync}
use turtletap.Shell.Events.{Event, handle_event}

pub data RuntimeEvent : Type 0 where
  terminal : Event → RuntimeEvent
  tick : ℕ → RuntimeEvent

pub data RuntimeAction : Type 0 where
  ignored redraw clear_and_redraw : RuntimeAction
  exit : ExitReason → RuntimeAction

module _ {S : Type 0} (V : Surfaces S) (P : Platform) where
  unfoldable pub polled_after : ShellSignal → Run S ShellSignal
  unfolding poll_background_sync
  polled_after continue self = poll_background_sync V self
  polled_after (ShellSignal.exit reason) self = some (ShellSignal.exit reason, self)

  unfoldable pub signal_for : RuntimeEvent → Run S ShellSignal
  unfolding handle_event dispatch_to_all polled_after
  signal_for (terminal event) self = handle_event V P event self
  signal_for (RuntimeEvent.tick elapsed) self = do
    (signal, self) ← dispatch_to_all V (SurfaceEvent.tick elapsed) self
    polled_after signal self

  -- The frame that is asked for: whether it is to be cleared, and whether it is to be drawn.
  unfoldable pub frame_action : Bool → Bool → Shell S → RuntimeAction × Shell S
  frame_action true dirty self = (clear_and_redraw, record self { clear_requested = false })
  frame_action false true self = (RuntimeAction.redraw, self)
  frame_action false false self = (RuntimeAction.ignored, self)

  unfoldable pub runtime_action : ShellSignal → Shell S → RuntimeAction × Shell S
  unfolding frame_action
  runtime_action (ShellSignal.exit reason) self = (RuntimeAction.exit reason, self)
  runtime_action continue self = frame_action self.clear_requested self.dirty self

  -- `TerminalApplication::handle`
  unfoldable pub handle : RuntimeEvent → Run S RuntimeAction
  unfolding signal_for runtime_action
  handle event self = do (signal, self) ← signal_for event self; some (runtime_action signal self)
