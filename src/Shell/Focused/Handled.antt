-- ===== src/Shell/Focused/Handled.antt =====
-- src/shell.rs: every terminal event and every tick comes back without a panic and keeps the focus.
use turtletap.Prelude.{
  ℕ, ◌≡◌, inl, inr, refl, Bool, true, false, Option, none, some, if◌then◌else◌, Bool-cases,
}
use turtletap.Protocol.{Text}
use turtletap.Binding.{KeyEvent, KeyEventKind, press, repeat, release}
use turtletap.Binding.Actions
use turtletap.Shell.{
  ShellSignal, continue, exit, detached, SurfaceEvent, key, paste, mouse, resize, MouseEvent,
  Surfaces, Platform, Overlay, palette, Shell,
}
use turtletap.Shell.Focus.{pos, negsuc, select_index}
use turtletap.Shell.Keys.{jump, is_some, open_palette, open_help, clear_notice}
use turtletap.Shell.Overlays.{append_to, append_palette_query}
use turtletap.Shell.Events.{
  Event, key_event, mouse_event, paste_event, resize_event, focus_gained, focus_lost, arm_leader,
  pass_on, shell_arms, shell_key, plain_arms, plain_key, is_down, is_palette, hit, handle_key,
  select_hit, handle_mouse, pressed_key, handle_event,
}
use turtletap.Shell.Terminal.{
  RuntimeEvent, RuntimeAction, terminal, polled_after, signal_for, frame_action, runtime_action,
  handle,
}
use turtletap.Shell.Focused.{FocusLaws, IsValid}
use turtletap.Shell.Focused.Selected.{KeptRun, select_index-Kept}
use turtletap.Shell.Focused.Called.{dispatch_to_active-Kept, signalling-Kept}
use turtletap.Shell.Focused.Everywhere.{dispatch_to_all-Kept, poll_background_sync-Kept}
use turtletap.Shell.Focused.Keyed.{
  Ends, first_of-Ends, stays, steps, jumps, clear_notice-IsValid, handle_leader_key-Kept,
  active_surface-some,
}
use turtletap.Shell.Focused.Overlaid.{handle_overlay_key-Kept}

module _ {S : Type 0} (V : Surfaces S) (P : Platform) (focused : S → Bool)
    (laws : FocusLaws V focused) where
  append_to-IsValid :
      (text : Text) (overlay : Option Overlay) (s : Shell S)
      → IsValid focused s
      → IsValid focused (append_to V P text overlay s)
  unfolding append_to
  append_to-IsValid text none s valid = valid
  append_to-IsValid text (some Overlay.help) s valid = valid
  append_to-IsValid text (some (palette query selected)) s valid = valid

  pass_on-Kept : (event : KeyEvent) → KeptRun V focused laws (pass_on V P event)
  unfolding pass_on
  pass_on-Kept event s valid =
      dispatch_to_active-Kept V focused laws (key event) (clear_notice s)
        (clear_notice-IsValid V P focused laws s valid)

  shell_key-Kept : (event : KeyEvent) → KeptRun V focused laws (shell_key V P event)
  unfolding shell_key shell_arms open_help
  shell_key-Kept event s valid =
      first_of-Ends V P focused laws (shell_arms V P event s) (pass_on V P event s)
        (
          stays V P focused laws (exit detached) s valid,
          (
            steps V P focused laws (pos 1) s valid,
            (
              steps V P focused laws (negsuc 0) s valid,
              (stays V P focused laws continue (open_help s) valid, tt),
            ),
          ),
        )
        (pass_on-Kept event s valid)

  plain_key-Kept :
      (event : KeyEvent) (surface : Option S) → KeptRun V focused laws (plain_key V P event surface)
  unfolding plain_key plain_arms open_palette arm_leader
  plain_key-Kept event surface s valid =
      first_of-Ends V P focused laws (plain_arms V P event surface s) (pass_on V P event s)
        (
          pass_on-Kept event s valid,
          (
            handle_leader_key-Kept V P focused laws event (record s { leader_armed = false }) valid,
            (
              stays V P focused laws continue (open_palette s) valid,
              (
                stays V P focused laws continue (arm_leader V P s) valid,
                (
                  stays V P focused laws continue (open_palette s) valid,
                  (
                    stays V P focused laws continue
                        (record s { clear_requested = true; dirty = true }) valid,
                    (
                      steps V P focused laws (negsuc 0) s valid,
                      (
                        steps V P focused laws (pos 1) s valid,
                        (
                          jumps V P focused laws (jump Actions.jump_modifiers event s) s valid,
                          (shell_key-Kept event s valid, tt),
                        ),
                      ),
                    ),
                  ),
                ),
              ),
            ),
          ),
        )
        (pass_on-Kept event s valid)

  handle_key-Kept : (event : KeyEvent) → KeptRun V focused laws (handle_key V P event)
  unfolding handle_key
  handle_key-Kept event s valid = elim (Bool-cases (is_some s.overlay)) [
    | inl over ↦
        let (a, s', run, after) = handle_overlay_key-Kept V P focused laws event s valid in
        (a, s', rw (handle_key, over) run, after)
    | inr plain ↦
        let (o, found) = active_surface-some V P focused laws s.active s.entries valid.0 in
        let (a, s', run, after) = plain_key-Kept event o s valid in
        (a, s', rw (handle_key, plain, found) run, after)
  ]

  select_hit-Kept :
      (target : Option ℕ) (event : MouseEvent)
      → KeptRun V focused laws (select_hit V P target event)
  unfolding select_hit
  select_hit-Kept none event s valid = dispatch_to_active-Kept V focused laws (mouse event) s valid
  select_hit-Kept (some index) event s valid =
      signalling-Kept V focused laws continue (select_index V index)
        (select_index-Kept V focused laws index) s valid

  Ends-if :
      (b : Bool) {x y : Option (ShellSignal × Shell S)}
      → Ends V P focused laws x
      → Ends V P focused laws y
      → Ends V P focused laws (if b then x else y)
  Ends-if true ex ey = ex
  Ends-if false ex ey = ey

  handle_mouse-Kept : (event : MouseEvent) → KeptRun V focused laws (handle_mouse V P event)
  unfolding handle_mouse
  handle_mouse-Kept event s valid =
      let target = if is_down event.kind then hit event.column event.row s.chrome_hits else none in
      Ends-if (is_some s.overlay) (stays V P focused laws continue s valid)
        (select_hit-Kept target event s valid)

  pressed_key-Kept :
      (kind : KeyEventKind) (event : KeyEvent) → KeptRun V focused laws (pressed_key V P kind event)
  unfolding pressed_key
  pressed_key-Kept press event s valid = handle_key-Kept event s valid
  pressed_key-Kept repeat event s valid = handle_key-Kept event s valid
  pressed_key-Kept release event s valid = (continue, s, refl, valid)

  handle_event-Kept : (event : Event) → KeptRun V focused laws (handle_event V P event)
  unfolding handle_event append_palette_query
  handle_event-Kept (key_event event) s valid = pressed_key-Kept event.kind event s valid
  handle_event-Kept (mouse_event event) s valid = handle_mouse-Kept event s valid
  handle_event-Kept (paste_event text) s valid =
      Ends-if (is_palette s.overlay)
        (stays V P focused laws continue (append_palette_query V P text s)
          (append_to-IsValid text s.overlay s valid))
        (dispatch_to_active-Kept V focused laws (paste text) s valid)
  handle_event-Kept (resize_event columns rows) s valid =
      dispatch_to_all-Kept V focused laws (resize columns rows) (record s { dirty = true }) valid
  handle_event-Kept focus_gained s valid = (continue, record s { dirty = true }, refl, valid)
  handle_event-Kept focus_lost s valid = (continue, s, refl, valid)

  polled_after-Kept : (signal : ShellSignal) → KeptRun V focused laws (polled_after V P signal)
  unfolding polled_after
  polled_after-Kept continue s valid = poll_background_sync-Kept V focused laws s valid
  polled_after-Kept (exit reason) s valid = (exit reason, s, refl, valid)

  signal_for-Kept : (event : RuntimeEvent) → KeptRun V focused laws (signal_for V P event)
  unfolding signal_for
  signal_for-Kept (terminal event) s valid = handle_event-Kept event s valid
  signal_for-Kept (RuntimeEvent.tick elapsed) s valid =
      let (signal, s1, run, mid) =
        dispatch_to_all-Kept V focused laws (SurfaceEvent.tick elapsed) s valid in
      let (a, s2, end, after) = polled_after-Kept signal s1 mid in (a, s2, rw run end, after)

  frame_action-IsValid :
      (clear dirty : Bool) (s : Shell S)
      → IsValid focused s
      → IsValid focused (frame_action V P clear dirty s).1
  unfolding frame_action
  frame_action-IsValid true dirty s valid = valid
  frame_action-IsValid false true s valid = valid
  frame_action-IsValid false false s valid = valid

  runtime_action-IsValid :
      (signal : ShellSignal) (s : Shell S)
      → IsValid focused s
      → IsValid focused (runtime_action V P signal s).1
  unfolding runtime_action
  runtime_action-IsValid (exit reason) s valid = valid
  runtime_action-IsValid continue s valid = frame_action-IsValid s.clear_requested s.dirty s valid

  -- Whatever a terminal event or a tick is, `handle` comes back without a panic, and the active
  -- surface is there and alone has the focus, if that was so before.
  pub handle-IsValid :
      (event : RuntimeEvent) (s : Shell S)
      → IsValid focused s
      → (a : RuntimeAction) × (s' : Shell S) × (handle V P event s ≡ some (a, s'))
        × IsValid focused s'
  unfolding handle
  handle-IsValid event s valid =
      let (signal, s1, run, after) = signal_for-Kept event s valid in
      let done = runtime_action V P signal s1 in
      (done.0, done.1, rw run refl, runtime_action-IsValid signal s1 after)
