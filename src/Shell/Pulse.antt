-- ===== src/Shell/Pulse.antt =====
-- src/shell.rs: the pulse of the title, and the rate of ticks.
use turtletap.Prelude.{
  ℕ, zero, suc, ◌+◌, ◌-◌, ◌*◌, ◌/◌, ◌%◌, Bool, true, false, not, Option, none, some, List, [], ◌∷◌,
  ltb, leb, if◌then◌else◌,
}
use turtletap.Prelude.Panics.{◌>>=◌, at_index}
use turtletap.Prelude.Strings.{codes, text_eq}
use turtletap.Protocol.{Text}
use turtletap.Shell.{Shell, Run, Surfaces, Entry}
use turtletap.Shell.Focus.{min}

-- 250 ms, and the longest `Duration`.
abbrev pub pulse_frame_rate : ℕ
pulse_frame_rate = 250000000

abbrev pub duration_max : ℕ
duration_max = 18446744073709551615 * 1000000000 + 999999999

unfoldable pub saturating_sum : ℕ → ℕ → ℕ
saturating_sum a b = if leb (a + b) duration_max then a + b else duration_max

abbrev pub pulse_frames : List Text
pulse_frames =
    codes "·"
    ∷ codes "·"
    ∷ codes "•"
    ∷ codes "●"
    ∷ codes "•"
    ∷ codes "·"
    ∷ codes "·"
    ∷ codes "·"
    ∷ []

-- The loop of `advance_pulse`, on fuel: the time that is left, and the frame.
unfoldable pub advance_frames : ℕ → ℕ → ℕ → ℕ × ℕ
advance_frames zero elapsed frame = (elapsed, frame)
advance_frames (suc fuel) elapsed frame =
    let rest = advance_frames fuel (elapsed - pulse_frame_rate) ((frame + 1) % 8) in
    if ltb elapsed pulse_frame_rate then (elapsed, frame) else rest

module _ {S : Type 0} where
  unfoldable pub pulse_marker : Shell S → Option Text
  unfolding at_index
  pulse_marker self = if self.pulse_enabled then at_index self.pulse_frame pulse_frames else some []

  unfoldable pub pulsed : ℕ → Shell S → Shell S
  unfolding advance_frames saturating_sum
  pulsed elapsed self =
      let total = saturating_sum self.pulse_elapsed elapsed in
      let moved = advance_frames (total / pulse_frame_rate) total self.pulse_frame in
      record self { pulse_elapsed = moved.0; pulse_frame = moved.1 }

  unfoldable pub advance_if : Bool → ℕ → Run S Bool
  unfolding pulse_marker pulsed text_eq
  advance_if false elapsed self = some (false, self)
  advance_if true elapsed self = do
    previous ← pulse_marker self
    marker ← pulse_marker (pulsed elapsed self)
    some (not (text_eq marker previous), pulsed elapsed self)

  -- Answers whether the marker is another one.
  unfoldable pub advance_pulse : ℕ → Run S Bool
  unfolding advance_if
  advance_pulse elapsed self = advance_if self.pulse_enabled elapsed self

  -- The shortest wait that a surface asks for, one millisecond at least.
  unfoldable pub shortest : Surfaces S → ℕ → List (Entry S) → ℕ
  shortest V rate [] = rate
  shortest V rate (e ∷ es) = elim (V.poll_interval e.surface) [
    | none ↦ shortest V rate es
    | some interval ↦ shortest V (min rate interval) es
  ]

  unfoldable pub tick_rate : Surfaces S → Shell S → ℕ
  unfolding shortest
  tick_rate V self =
      let rate = shortest V self.config.tick_rate self.entries in
      if leb rate 1000000 then 1000000 else rate
