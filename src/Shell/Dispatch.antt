-- ===== src/Shell/Dispatch.antt =====
-- src/shell.rs: an event for all surfaces, and the polling of their background work.
use turtletap.Prelude.{
  ℕ, ◌+◌, ◌%◌, suc, zero, Bool, true, false, ◌||◌, Option, none, some, [], length, ◌==◌,
  if◌then◌else◌,
}
use turtletap.Prelude.Panics.{◌>>=◌}
use turtletap.Shell.{
  detached, ShellSignal, continue, exit, ShellConfig, SurfaceEvent, SurfaceAction, Poll, ready,
  pending, Surfaces, Shell, Run,
}
use turtletap.Shell.Focus.{signal_of, select_key}
use turtletap.Shell.Actions.{
  Collected, run_each, call_at, drop_index, push_surface, reconfigure_all, handle_each,
  collect_actions, pulse_of, reverse, apply_surface_action,
}

module _ {S : Type 0} (V : Surfaces S) where
  -- The last configuration, if there is one.
  unfoldable pub adopt : Option ShellConfig → Shell S → Shell S
  unfolding reconfigure_all
  adopt none self = self
  adopt (some config) self = reconfigure_all V config self

  -- What the surfaces asked for: closes from the end, then openings, then the focus.
  unfoldable pub carry_out : Collected S → Run S ShellSignal
  unfolding run_each drop_index push_surface select_key adopt reverse signal_of
  carry_out c self = do
    self ← run_each (drop_index V) (reverse c.close_indices) self
    self ← run_each (push_surface V) c.open_surfaces self
    self ← run_each (select_key V) c.focus_keys self
    let self = adopt c.new_config self
    let self = record self { dirty = self.dirty || c.redraw }
    some (if c.detach then exit detached else signal_of V self.entries, self)

  unfoldable pub nothing_collected : Bool → Collected S
  nothing_collected redraw = record {
    close_indices = [];
    open_surfaces = [];
    focus_keys = [];
    new_config = none;
    detach = false;
    redraw = redraw;
  }

  unfoldable pub dispatch_to_all : SurfaceEvent → Run S ShellSignal
  unfolding pulse_of handle_each collect_actions carry_out nothing_collected
  dispatch_to_all event self = do
    (animation_changed, self) ← pulse_of event self
    let handled = handle_each V event 0 self.entries
    let collected = collect_actions handled.0 (nothing_collected animation_changed)
    carry_out collected (record self { entries = handled.1 })

  -- An answer of the surface at an index, and the rest of the loop.
  unfoldable pub answered :
      Poll (SurfaceAction S)
      → ℕ
      → ℕ
      → Option (Poll (ℕ × SurfaceAction S) × Shell S)
      → Run S (Poll (ℕ × SurfaceAction S))
  answered pending index len rest self = rest
  answered (ready action) index len rest self =
      some (ready (index, action), record self { background_cursor = (index + 1) % len })

  -- The loop over the offsets: how many are left, and the next one.
  unfoldable pub poll_from : ℕ → ℕ → ℕ → ℕ → Run S (Poll (ℕ × SurfaceAction S))
  unfolding call_at answered
  poll_from zero offset start len self = some (pending, self)
  poll_from (suc left) offset start len self = do
    (answer, self) ← call_at V V.poll_background ((start + offset) % len) self
    let rest = poll_from left (suc offset) start len self
    answered answer ((start + offset) % len) len rest self

  unfoldable pub poll_background_round_robin : Run S (Poll (ℕ × SurfaceAction S))
  unfolding poll_from
  poll_background_round_robin self = elim (length self.entries == 0) [
    | true ↦ some (pending, self)
    | false ↦
        poll_from (length self.entries) 0 (self.background_cursor % length self.entries)
          (length self.entries) self
  ]

  unfoldable pub apply_polled : Poll (ℕ × SurfaceAction S) → Run S ShellSignal
  unfolding apply_surface_action
  apply_polled pending self = some (continue, self)
  apply_polled (ready (index, action)) self = apply_surface_action V index action self

  unfoldable pub poll_background_sync : Run S ShellSignal
  unfolding poll_background_round_robin apply_polled
  poll_background_sync self = do
    (answer, self) ← poll_background_round_robin self
    apply_polled answer self
