-- ===== src/Host/Concurrency.antt =====
-- src/resident/host.rs: how many effects run at a time.
use turtletap.Prelude.{
  ℕ, suc, ◌≤◌, ◌≡◌, refl, ap, true, Bool-cases, Option-cases, some, List, [], ◌∷◌, arith, ltb,
  ltb→lt, inl, inr, ◌⊎◌, Result-cases, ℕ_key,
}
use turtletap.Dict
use turtletap.Dict.{count-insert-le, count-insert-false, count-insert-get}
use turtletap.HashSet
use turtletap.Protocol.{SessionId, EventSequence}
use turtletap.Application.{Application, EffectId}
use turtletap.Host.{
  HostState, HostedSession, PendingEffect, HostLogEvent, effect_attempted, executes,
}
use turtletap.Host.Journals.{append_log, open_journal, next_log, next_fault}
use turtletap.Host.Effects.{
  is_active, front_effect, may_have_run, run_effect, dispatch_one_effect, dispatch_ready,
  dispatch_effects, effect_limit, activate, attempted, put_hosted, next_attempt, spawn_timeout,
  spawn,
}

module _ {A : Application} where
  -- The effects that run: each session has one at most.
  abbrev pub running : HostState A → ℕ
  running h = Dict.count is_active h.sessions

  -- A session that is put back with the effect it had.
  put_hosted-running :
      (session : SessionId) (old new : HostedSession A) (h : HostState A)
      → Dict.get session h.sessions ≡ some old
      → new.active_effect ≡ old.active_effect
      → running (put_hosted session new h) ≤ running h
  put_hosted-running session old new h at same = elim (Bool-cases (is_active new)) [
    | inl on ↦
        let was : is_active old ≡ true = unfold is_active in ground arith in
        count-insert-get is_active session old new h.sessions at was
    | inr off ↦ count-insert-false is_active session new h.sessions off
  ]

  open_journal-sessions :
      (session : SessionId) (h : HostState A) → (open_journal session h).1.sessions ≡ h.sessions
  unfolding open_journal
  open_journal-sessions session h = ground arith

  -- `append_log` changes the sequence of one session's log only.
  pub append_log-sessions :
      (session : SessionId) (e : HostLogEvent A) (h : HostState A)
      → ((append_log session e h).1.sessions ≡ h.sessions)
        ⊎ ((hosted : HostedSession A) × (sequence : EventSequence) × (Dict.get session h.sessions
              ≡ some hosted)
            × ((append_log session e h).1.sessions
                ≡ Dict.insert session (record hosted { log_sequence = sequence }) h.sessions))
  unfolding append_log
  append_log-sessions session e h = elim (Option-cases (Dict.get session h.sessions)) [
    | inl missing ↦ inl (ground arith)
    | inr (hosted, at) ↦ elim (Option-cases (next_log hosted)) [
      | inl exhausted ↦ inl (ground arith)
      | inr (sequence, room) ↦ elim (Result-cases (open_journal session h).0) [
        | inl (x, failed) ↦ inl (ground (arith, open_journal-sessions session h))
        | inr (_, opened) ↦ elim (Option-cases (next_fault (open_journal session h).1.around).0) [
          | inl fine ↦ inr (hosted, sequence, at, ground (arith, open_journal-sessions session h))
          | inr (x, failed) ↦ inl (ground (arith, open_journal-sessions session h))
        ]
      ]
    ]
  ]

  append_log-running :
      (session : SessionId) (e : HostLogEvent A) (h : HostState A)
      → running (append_log session e h).1 ≤ running h
  append_log-running session e h = elim (append_log-sessions session e h) [
    | inl same ↦ rw same (omega arith)
    | inr (hosted, sequence, at, same) ↦
        rw same
          (put_hosted-running session hosted (record hosted { log_sequence = sequence }) h at refl)
  ]

  attempted-running :
      (attempt : ℕ) (session : SessionId) (h : HostState A)
      → running (attempted attempt (Dict.get session h.sessions) session h) ≤ running h
  unfolding attempted
  attempted-running attempt session h = elim (Option-cases (Dict.get session h.sessions)) [
    | inl missing ↦ rw missing (omega arith)
    | inr (hosted, at) ↦ rw at (put_hosted-running session hosted _ h at refl)
  ]

  activate-running :
      (id : EffectId) (session : SessionId) (h : HostState A)
      → running (activate id (Dict.get session h.sessions) session h) ≤ suc (running h)
  unfolding activate
  activate-running id session h = elim (Option-cases (Dict.get session h.sessions)) [
    | inl missing ↦ rw missing (omega arith)
    | inr (hosted, at) ↦ rw at (count-insert-le is_active session _ h.sessions)
  ]

  pub spawned-sessions :
      (session : SessionId) (pending : PendingEffect A) (attempt : ℕ) (h : HostState A)
      → (spawn_timeout session pending.id pending.timeout
          (spawn (executes session pending.id attempt pending.effect) h)).sessions
        ≡ h.sessions
  unfolding spawn_timeout
  spawned-sessions session pending attempt h = ground arith

  -- An effect that is dispatched adds one at most, also where the journal fails.
  run_effect-running :
      (session : SessionId) (pending : PendingEffect A) (h : HostState A)
      → running (run_effect session pending h).1 ≤ suc (running h)
  unfolding run_effect
  run_effect-running session pending h =
      let attempt = next_attempt pending.attempts in
      let tried = attempted attempt (Dict.get session h.sessions) session h in
      let logged = append_log session (effect_attempted pending.id attempt) tried in
      let few = attempted-running attempt session h in
      let kept = append_log-running session (effect_attempted pending.id attempt) tried in
      let more = activate-running pending.id session logged.1 in
      elim (Result-cases logged.0) [
        | inl (x, failed) ↦ rw failed (omega (arith, few, kept))
        | inr (_, done) ↦ rw done (
            omega (
              arith,
              few,
              kept,
              more,
              ap (Dict.count is_active) (
                  spawned-sessions session pending attempt
                    (activate pending.id (Dict.get session logged.1.sessions) session logged.1)),
            ))
      ]

  dispatch_one-running :
      (session : SessionId) (h : HostState A)
      → running (dispatch_one_effect session h).1 ≤ suc (running h)
  unfolding dispatch_one_effect
  dispatch_one-running session h =
      elim (Option-cases (front_effect (Dict.get session h.sessions))) [
        | inl nothing ↦ rw nothing (omega arith)
        | inr (pending, front) ↦ elim (Bool-cases (may_have_run pending)) [
          | inl unknown ↦ rw (front, unknown) (activate-running pending.id session h)
          | inr fresh ↦ rw (front, fresh) (run_effect-running session pending h)
        ]
      ]

  -- The loop stops at the limit.
  dispatch_ready-running :
      (limit : ℕ) (ready : List SessionId) (h : HostState A)
      → running h ≤ limit
      → running (dispatch_ready limit ready h).1 ≤ limit
  unfolding dispatch_ready
  dispatch_ready-running limit [] h few = few
  dispatch_ready-running limit (session ∷ ready) h few =
      let taken = record h {
        ready_effects = ready;
        ready_effect_set = HashSet.remove session h.ready_effect_set;
      } in
      let next = dispatch_one_effect session taken in
      let one : running next.1 ≤ suc (running h) = dispatch_one-running session taken in
      elim (Bool-cases (ltb (running h) limit)) [
        | inr full ↦ ground arith
        | inl room ↦ elim (Result-cases next.0) [
          | inl (x, failed) ↦ rw (room, failed) (omega (arith, one, ltb→lt (running h) limit room))
          | inr (_, done) ↦
              rw (room, done)
                (dispatch_ready-running limit ready next.1
                  (omega (arith, one, ltb→lt (running h) limit room)))
        ]
      ]

  -- Where no more effects run than the configuration allows (one at least), no more run behind
  -- `dispatch_effects`, whatever it dispatches and wherever it fails.
  pub dispatch_effects-running :
      (h : HostState A)
      → running h ≤ effect_limit h
      → running (dispatch_effects h).1 ≤ effect_limit h
  unfolding dispatch_effects
  dispatch_effects-running h few = dispatch_ready-running (effect_limit h) h.ready_effects h few
