-- ===== src/Shell/Focused/Everywhere.antt =====
-- src/shell.rs: an event for all surfaces, and the polling of their work, keep the focus.
use native.Mathlib.Nat.{mod-lt}
use turtletap.Prelude.{
  ℕ, zero, suc, ◌+◌, ◌-◌, ◌/◌, ◌%◌, ◌<◌, ◌≡◌, inl, inr, refl, sym, subst, ◌∙◌, ap, Bool, true,
  false, not, ◌||◌, Option, none, some, List, [], ◌∷◌, map, arith, length, ltb, ◌==◌, if◌then◌else◌,
  Bool-cases,
}
use turtletap.Prelude.Strings.{text_eq}
use turtletap.Protocol.{Text}
use turtletap.Shell.{
  continue, exit, detached, ShellConfig, SurfaceEvent, SurfaceAction, Poll, ready, pending, key,
  scroll_page_up, scroll_page_down, paste, mouse, tick, resize, Surfaces, Entry, Shell,
}
use turtletap.Shell.Focus.{on_surface, signal_of, select_key}
use turtletap.Shell.Pulse.{
  pulse_frames, pulse_frame_rate, pulse_marker, pulsed, saturating_sum, advance_if, advance_pulse,
  advance_frames,
}
use turtletap.Shell.Actions.{
  Collected, drop_index, push_surface, handle_each, collect_actions, reverse, pulse_of,
}
use turtletap.Shell.Dispatch.{
  adopt, carry_out, nothing_collected, dispatch_to_all, poll_from, poll_background_round_robin,
  answered, apply_polled, poll_background_sync,
}
use turtletap.Shell.Focused.{FocusLaws, Focused, IsValid}
use turtletap.Shell.Focused.Selected.{KeptRun, select_key-Kept}
use turtletap.Shell.Focused.Called.{
  at_index-some, call_at-Kept, drop_index-Kept, push_surface-Kept, run_each-Kept, Focused-map,
  reconfigure_all-IsValid, apply_surface_action-Kept,
}

advance_frames-lt : (fuel elapsed frame : ℕ) → frame < 8 → (advance_frames fuel elapsed frame).1 < 8
unfolding advance_frames
advance_frames-lt zero elapsed frame h = h
advance_frames-lt (suc fuel) elapsed frame h = elim (Bool-cases (ltb elapsed pulse_frame_rate)) [
  | inl over ↦ rw over h
  | inr more ↦
      rw more (advance_frames-lt fuel (elapsed - pulse_frame_rate) ((frame + 1) % 8) (omega arith))
]

module _ {S : Type 0} (V : Surfaces S) (focused : S → Bool) (laws : FocusLaws V focused) where
  pulse_marker-some : (s : Shell S) → s.pulse_frame < 8 → (t : Text) × (pulse_marker s ≡ some t)
  unfolding pulse_marker
  pulse_marker-some s frame = elim (Bool-cases s.pulse_enabled) [
    | inl on ↦
        let (t, at) = at_index-some s.pulse_frame pulse_frames frame in
        (t, rw (pulse_marker, on) at)
    | inr off ↦ ([], rw (pulse_marker, off) refl)
  ]

  pulsed-IsValid :
      (elapsed : ℕ) (s : Shell S) → IsValid focused s → IsValid focused (pulsed elapsed s)
  unfolding pulsed
  pulsed-IsValid elapsed s (focus, frame) = (
    focus,
    advance_frames-lt (saturating_sum s.pulse_elapsed elapsed / pulse_frame_rate)
        (saturating_sum s.pulse_elapsed elapsed) s.pulse_frame frame,
  )

  advance_if-Kept :
      (enabled : Bool) (elapsed : ℕ) → KeptRun V focused laws (advance_if enabled elapsed)
  unfolding advance_if
  advance_if-Kept false elapsed s valid = (false, s, refl, valid)
  advance_if-Kept true elapsed s valid =
      let after = pulsed-IsValid elapsed s valid in
      let (old, was) = pulse_marker-some s valid.1 in
      let (new, is) = pulse_marker-some (pulsed elapsed s) after.1 in
      (not (text_eq new old), pulsed elapsed s, rw (was, is) refl, after)

  advance_pulse-Kept : (elapsed : ℕ) → KeptRun V focused laws (advance_pulse elapsed)
  unfolding advance_pulse
  advance_pulse-Kept elapsed s valid = advance_if-Kept s.pulse_enabled elapsed s valid

  pulse_of-Kept : (event : SurfaceEvent) → KeptRun V focused laws (pulse_of event)
  unfolding pulse_of
  pulse_of-Kept (tick elapsed) s valid = advance_pulse-Kept elapsed s valid
  pulse_of-Kept (key k) s valid = (false, s, refl, valid)
  pulse_of-Kept scroll_page_up s valid = (false, s, refl, valid)
  pulse_of-Kept scroll_page_down s valid = (false, s, refl, valid)
  pulse_of-Kept (paste t) s valid = (false, s, refl, valid)
  pulse_of-Kept (mouse m) s valid = (false, s, refl, valid)
  pulse_of-Kept (resize c r) s valid = (false, s, refl, valid)

  handle_each-map :
      (event : SurfaceEvent) (n : ℕ) (es : List (Entry S))
      → (handle_each V event n es).1 ≡ map (on_surface V (λ x. (V.handle event x).1)) es
  unfolding handle_each
  handle_each-map event n [] = refl
  handle_each-map event n (e ∷ es) =
      ap (on_surface V (λ x. (V.handle event x).1) e ∷◌) (handle_each-map event (suc n) es)

  adopt-IsValid :
      (config : Option ShellConfig) (s : Shell S)
      → IsValid focused s
      → IsValid focused (adopt V config s)
  unfolding adopt
  adopt-IsValid none s valid = valid
  adopt-IsValid (some config) s valid = reconfigure_all-IsValid V focused laws config s valid

  carry_out-Kept : (c : Collected S) → KeptRun V focused laws (carry_out V c)
  unfolding carry_out
  carry_out-Kept c s valid =
      let (s1, closed, valid1) =
        run_each-Kept V focused laws (drop_index V) (drop_index-Kept V focused laws)
          (reverse c.close_indices) s valid in
      let (s2, opened, valid2) =
        run_each-Kept V focused laws (push_surface V) (push_surface-Kept V focused laws)
          c.open_surfaces s1 valid1 in
      let (s3, selected, valid3) =
        run_each-Kept V focused laws (select_key V) (select_key-Kept V focused laws) c.focus_keys s2
          valid2 in
      let s4 = adopt V c.new_config s3 in
      (
        (if c.detach then exit detached else signal_of V s4.entries),
        record s4 { dirty = s4.dirty || c.redraw },
        rw (closed, opened, selected) refl,
        adopt-IsValid c.new_config s3 valid3,
      )

  pub dispatch_to_all-Kept :
      (event : SurfaceEvent) → KeptRun V focused laws (dispatch_to_all V event)
  unfolding dispatch_to_all
  dispatch_to_all-Kept event s valid =
      let (moved, s1, pulse, (focus, frame)) = pulse_of-Kept event s valid in
      let handled = handle_each V event 0 s1.entries in
      let collected = collect_actions handled.0 (nothing_collected V moved) in
      let kept =
        Focused-map V focused laws (λ x. (V.handle event x).1) s1.entries s1.active
          (laws.handle-focused event) focus in
      let next =
        subst (λ es. Focused focused es s1.active) (sym (handle_each-map event 0 s1.entries))
          kept in
      let (a, s2, run, after) =
        carry_out-Kept collected (record s1 { entries = handled.1 }) (next, frame) in
      (a, s2, rw pulse run, after)

  -- A result of the poll of the surfaces.
  Polls : Option (Poll (ℕ × SurfaceAction S) × Shell S) → Type 0
  Polls r =
      (a : Poll (ℕ × SurfaceAction S)) × (s' : Shell S) × (r ≡ some (a, s')) × IsValid focused s'

  answered-Polls :
      (answer : Poll (SurfaceAction S)) (index len : ℕ)
      (rest : Option (Poll (ℕ × SurfaceAction S) × Shell S)) (s : Shell S)
      → IsValid focused s
      → Polls rest
      → Polls (answered V answer index len rest s)
  unfolding answered Polls
  answered-Polls pending index len rest s valid next = next
  answered-Polls (ready action) index len rest s valid next =
      (ready (index, action), record s { background_cursor = (index + 1) % len }, refl, valid)

  poll_from-Polls :
      (left offset start len : ℕ) (s : Shell S)
      → 0 < len
      → length s.entries ≡ len
      → IsValid focused s
      → Polls (poll_from V left offset start len s)
  unfolding poll_from Polls
  poll_from-Polls zero offset start len s some_open long valid = (pending, s, refl, valid)
  poll_from-Polls (suc left) offset start len s some_open long valid =
      let index = (start + offset) % len in
      let few : index < length s.entries =
        subst (λ n. index < n) (sym long) (mod-lt (start + offset) some_open) in
      let (answer, s1, run, mid, same) =
        call_at-Kept V focused laws V.poll_background index s laws.poll_background-focused few
          valid in
      let next = poll_from-Polls left (suc offset) start len s1 some_open (same ∙ long) mid in
      let (a, s2, end, after) =
        answered-Polls answer index len (poll_from V left (suc offset) start len s1) s1 mid next in
      (a, s2, rw run end, after)

  poll_background_round_robin-Kept : KeptRun V focused laws (poll_background_round_robin V)
  unfolding poll_background_round_robin Polls
  poll_background_round_robin-Kept s valid = elim (Bool-cases (length s.entries == 0)) [
    | inl closed ↦ (pending, s, rw (poll_background_round_robin, closed) refl, valid)
    | inr some_open ↦
        let len = length s.entries in
        let (a, s', run, after) =
          poll_from-Polls len 0 (s.background_cursor % len) len s (ground arith) refl valid in
        (a, s', rw (poll_background_round_robin, some_open) run, after)
  ]

  apply_polled-Kept :
      (answer : Poll (ℕ × SurfaceAction S)) → KeptRun V focused laws (apply_polled V answer)
  unfolding apply_polled
  apply_polled-Kept pending s valid = (continue, s, refl, valid)
  apply_polled-Kept (ready (index, action)) s valid =
      apply_surface_action-Kept V focused laws index action s valid

  pub poll_background_sync-Kept : KeptRun V focused laws (poll_background_sync V)
  unfolding poll_background_sync
  poll_background_sync-Kept s valid =
      let (answer, s1, run, mid) = poll_background_round_robin-Kept s valid in
      let (a, s2, end, after) = apply_polled-Kept answer s1 mid in (a, s2, rw run end, after)
