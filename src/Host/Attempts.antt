-- ===== src/Host/Attempts.antt =====
-- src/resident/host.rs: an effect that runs at most once.
use mathlib.Core.List.{append-nil}
use turtletap.Prelude.{
  ℕ, ◌<◌, ◌≡◌, refl, ap, sym, ◌∙◌, Bool-cases, Option, Option-cases, none, some, List, [], ◌∷◌,
  ◌++◌, arith, inl, inr, ok, err, ◌+◌, Result, Result-cases, ℕ_key,
}
use turtletap.Dict
use turtletap.Dict.{dict_laws}
use turtletap.HashSet
use turtletap.Protocol.{SessionId}
use turtletap.Application.{Application, EffectId, at_most_once}
use turtletap.Host.{
  HostState, HostedSession, PendingEffect, HostLogEvent, HostError, effect_attempted, Spawned,
  executes, times_out, reports_unknown,
}
use turtletap.Host.Journals.{append_log, records_of}
use turtletap.Host.Appended.{
  open_journal-around, Refused, full, first_write, second_write, append_log-Appended,
  append_log-Refused, append_log-records,
}
use turtletap.Host.Effects.{
  set_attempts, may_have_run, run_effect, dispatch_one_effect, activate, attempted, next_attempt,
  spawn_timeout, spawn, front_effect,
}

module _ {A : Application} where
  append_log-tasks :
      (session : SessionId) (e : HostLogEvent A) (h : HostState A)
      → (append_log session e h).1.around.tasks ≡ h.around.tasks
  unfolding append_log
  append_log-tasks session e h = ground (arith, open_journal-around session h)

  abbrev pub timeout_tasks : SessionId → PendingEffect A → List (Spawned A)
  timeout_tasks session pending = elim pending.timeout [
    | none ↦ []
    | some t ↦ times_out session pending.id t ∷ []
  ]

  -- What the dispatch of an effect that may run once at most comes to: its answer and the host.
  pub data Dispatched (session : SessionId) (pending : PendingEffect A) (hosted : HostedSession A)
      (h : HostState A) (step : Result (HostError A) (Unit {0}) × HostState A) : Type 0 where
    -- It may have run: that is reported, and it is not run.
    unknown :
        0 < pending.attempts
        → step.0 ≡ ok tt
        → step.1.around.tasks ≡ h.around.tasks ++ reports_unknown session pending.id ∷ []
        → Dispatched session pending hosted h step
    -- It was never tried, and the journal refused the record, for a reason: that is the answer, and
    -- nothing is written or runs.
    not_logged :
        (x : HostError A)
        → pending.attempts ≡ 0
        → Refused session hosted h x
        → step.0 ≡ err x
        → step.1.around.tasks ≡ h.around.tasks
        → step.1.around.records ≡ h.around.records
        → Dispatched session pending hosted h step
    -- It was never tried: it runs for the first time, and the journal says so.
    first_run :
        pending.attempts ≡ 0
        → step.0 ≡ ok tt
        → step.1.around.tasks
          ≡ (h.around.tasks ++ executes session pending.id 1 pending.effect ∷ [])
            ++ timeout_tasks session pending
        → Dict.get session step.1.around.records
          ≡ some (
              records_of (Dict.get session h.around.records)
              ++ (hosted.log_sequence + 1, effect_attempted pending.id 1) ∷ [])
        → Dispatched session pending hosted h step

  pub activate-around :
      (id : EffectId) (found : Option (HostedSession A)) (session : SessionId) (h : HostState A)
      → (activate id found session h).around ≡ h.around
  unfolding activate
  activate-around id none session h = refl
  activate-around id (some hosted) session h = refl

  pub attempted-around :
      (n : ℕ) (found : Option (HostedSession A)) (session : SessionId) (h : HostState A)
      → (attempted n found session h).around ≡ h.around
  unfolding attempted
  attempted-around n none session h = refl
  attempted-around n (some hosted) session h = refl

  pub spawn_timeout-around :
      (session : SessionId) (pending : PendingEffect A) (h : HostState A)
      → ((spawn_timeout session pending.id pending.timeout h).around.tasks
          ≡ h.around.tasks ++ timeout_tasks session pending)
        × ((spawn_timeout session pending.id pending.timeout h).around.records ≡ h.around.records)
  unfolding spawn_timeout
  spawn_timeout-around session pending h = elim (Option-cases pending.timeout) [
    | inl forever ↦ rw forever (sym (append-nil h.around.tasks), refl)
    | inr (t, limited) ↦ rw limited (refl, refl)
  ]

  pub attempted-get :
      (attempt : ℕ) (session : SessionId) (h : HostState A) (hosted : HostedSession A)
      → Dict.get session h.sessions ≡ some hosted
      → Dict.get session (attempted attempt (Dict.get session h.sessions) session h).sessions
        ≡ some (record hosted { pending_effects = set_attempts attempt hosted.pending_effects })
  unfolding attempted
  attempted-get attempt session h hosted at = grind (arith, dict_laws, at)

  attempted-journals :
      (n : ℕ) (found : Option (HostedSession A)) (session : SessionId) (h : HostState A)
      → (attempted n found session h).journals ≡ h.journals
  unfolding attempted
  attempted-journals n none session h = refl
  attempted-journals n (some hosted) session h = refl

  -- The number of attempts in memory has no part in a refusal.
  Refused-attempted :
      (attempt : ℕ) (found : Option (HostedSession A)) (session : SessionId)
      (hosted : HostedSession A) (h : HostState A) (x : HostError A)
      → Refused session
          (record hosted { pending_effects = set_attempts attempt hosted.pending_effects })
          (attempted attempt found session h)
          x
      → Refused session hosted h x
  Refused-attempted attempt found session hosted h _ (full end) = full end
  Refused-attempted attempt found session hosted h _ (first_write e rest faults) =
      first_write e rest
        (sym (ap (λ w. w.faults) (attempted-around attempt found session h)) ∙ faults)
  Refused-attempted attempt found session hosted h _ (second_write e rest closed faults) =
      second_write e rest
        (ap (HashSet.contains session) (sym (attempted-journals attempt found session h)) ∙ closed)
        (sym (ap (λ w. w.faults) (attempted-around attempt found session h)) ∙ faults)

  run_effect-Dispatched :
      (session : SessionId) (pending : PendingEffect A) (hosted : HostedSession A) (h : HostState A)
      → Dict.get session h.sessions ≡ some hosted
      → pending.attempts ≡ 0
      → Dispatched session pending hosted h (run_effect session pending h)
  unfolding run_effect
  run_effect-Dispatched session pending hosted h at fresh =
      let attempt = next_attempt pending.attempts in
      let one : attempt ≡ 1 = unfold next_attempt in ground arith in
      let found = Dict.get session h.sessions in
      let tried = attempted attempt found session h in
      let event : HostLogEvent A = effect_attempted pending.id attempt in
      let logged = append_log session event tried in
      let same = attempted-around attempt found session h in
      let there = attempted-get attempt session h hosted at in
      let kept = append_log-tasks session event tried in
      elim (Result-cases logged.0) [
        | inl (x, failed) ↦
            let why =
              Refused-attempted attempt found session hosted h x
                (append_log-Refused session event tried _ x there failed) in
            let blank = append_log-records session event tried x failed in
            rw failed (
              not_logged x fresh why refl (kept ∙ ap (λ w. w.tasks) same)
                (blank ∙ ap (λ w. w.records) same))
        | inr (_, done) ↦
            let written = (append_log-Appended session event tried _ there done).recorded in
            let active =
              activate pending.id (Dict.get session logged.1.sessions) session logged.1 in
            let calm =
              activate-around pending.id (Dict.get session logged.1.sessions) session logged.1 in
            let running = spawn (executes session pending.id attempt pending.effect) active in
            let ends = spawn_timeout-around session pending running in
            rw done (
              first_run fresh refl (ends.0 ∙ cc (calm, kept, same, one)) (
                ap (Dict.get session) (ends.1 ∙ ap (λ w. w.records) calm)
                ∙ written
                ∙ cc (same, one)))
      ]

  -- Where a session of the host runs no effect and the first in its queue is to run at most once, its
  -- dispatch comes to one of three things: an attempt is known, and it starts the report of an
  -- unknown outcome and nothing else; no attempt was made and the journal refuses the record of the
  -- first one, the sequence of the session's log being at its end or the disk failing, and that is
  -- the answer, nothing being started or written; or no attempt was made, and it is executed, with
  -- its timeout, behind a record of the first attempt at the end of the session's journal, with the
  -- next sequence of the log.
  pub dispatch_one_effect-Dispatched :
      (session : SessionId) (pending : PendingEffect A) (hosted : HostedSession A) (h : HostState A)
      → Dict.get session h.sessions ≡ some hosted
      → front_effect (some hosted) ≡ some pending
      → pending.delivery ≡ at_most_once
      → Dispatched session pending hosted h (dispatch_one_effect session h)
  unfolding dispatch_one_effect
  dispatch_one_effect-Dispatched session pending hosted h at front once =
      let first = ap front_effect at ∙ front in
      elim (Bool-cases (may_have_run pending)) [
        | inl tried ↦
            rw (first, tried)
              (unknown (unfold may_have_run in ground arith) refl (
                ap (λ w. w.tasks ++ reports_unknown session pending.id ∷ [])
                  (activate-around pending.id (Dict.get session h.sessions) session h)))
        | inr fresh ↦
            rw (first, fresh)
              (run_effect-Dispatched session pending hosted h at
                (unfold may_have_run in ground arith))
      ]
