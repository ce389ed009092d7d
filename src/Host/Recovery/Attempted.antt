-- ===== src/Host/Recovery/Attempted.antt =====
-- src/resident/host.rs: the attempt at an effect, in the journal and behind a restart.
use turtletap.Prelude.{
  ℕ, ◌+◌, ◌≤◌, ◌<◌, ◌≡◌, refl, ap, sym, ◌∙◌, subst, true, none, some, List, [], ◌∷◌, ◌++◌, arith,
  inl, inr, leb, ok, Result-cases, ℕ_key,
}
use turtletap.Dict
use turtletap.Dict.{dict_laws}
use turtletap.Protocol.{SessionId, EventSequence}
use turtletap.Application.{Application, EffectId, at_most_once}
use turtletap.Host.{
  HostState, HostedSession, PendingEffect, effect_attempted, executes, reports_unknown,
}
use turtletap.Host.Journals.{append_log, records_of}
use turtletap.Host.Effects.{
  run_effect, activate, attempted, next_attempt, spawn_timeout, spawn, set_attempts,
  dispatch_one_effect, front_effect, may_have_run, put_hosted,
}
use turtletap.Host.Load.{Loading, load_event, load_record, raise_attempts}
use turtletap.Host.Appended.{append_log-Appended}
use turtletap.Host.Recovery.Positions.{advanced_to, trimmed, load_record_ok}
use turtletap.Host.Attempts.{activate-around, attempted-get, attempted-around, spawn_timeout-around}
use turtletap.Host.Concurrency.{spawned-sessions}

-- An attempt is counted up to the end of u32.
next_attempt-rises : (n : ℕ) → n ≤ 0xffff_ffff → leb n (next_attempt n) ≡ true
unfolding next_attempt
next_attempt-rises n word = ground arith

next_attempt-positive : (n : ℕ) → 0 < next_attempt n
unfolding next_attempt
next_attempt-positive n = ground arith

module _ {A : Application} where
  raise_attempts-front :
      (attempt : ℕ) (p : PendingEffect A) (ps : List (PendingEffect A))
      → leb p.attempts attempt ≡ true
      → raise_attempts p.id attempt (p ∷ ps) ≡ record p { attempts = attempt } ∷ ps
  unfolding raise_attempts
  raise_attempts-front attempt p ps h = ground (arith, h)

  activate-get :
      (id : EffectId) (session : SessionId) (h : HostState A) (hosted : HostedSession A)
      → Dict.get session h.sessions ≡ some hosted
      → Dict.get session (activate id (Dict.get session h.sessions) session h).sessions
        ≡ some (record hosted { active_effect = some id })
  unfolding activate
  activate-get id session h hosted at = grind (arith, dict_laws, at)

  set_attempts-front :
      (attempt : ℕ) (p : PendingEffect A) (ps qs : List (PendingEffect A))
      → qs ≡ p ∷ ps
      → set_attempts attempt qs ≡ record p { attempts = attempt } ∷ ps
  unfolding set_attempts
  set_attempts-front attempt p ps qs e = rw e refl

  load_attempted :
      (session : SessionId) (id : EffectId) (attempt : ℕ) (l : Loading A)
      → load_event session true (effect_attempted id attempt) l
        ≡ (ok tt, record l { pending_effects = raise_attempts id attempt l.pending_effects })
  unfolding load_event
  load_attempted session id attempt l = refl

  -- What a loader that followed the host makes of the record of an attempt, behind a checkpoint.
  pub record Tried (session : SessionId) (pending : PendingEffect A) (rest : List (PendingEffect A))
      (history : ℕ) (checkpoint : EventSequence) (h h' : HostState A) (l : Loading A) : Type 0 where
    pub sequence : EventSequence
    pub attempt : ℕ
    pub after : Loading A
    pub hosted : HostedSession A
    pub recorded :
        Dict.get session h'.around.records
        ≡ some (
            records_of (Dict.get session h.around.records)
            ++ (sequence, effect_attempted pending.id attempt) ∷ [])
    pub loads :
        load_record session history checkpoint (sequence, effect_attempted pending.id attempt) l
        ≡ (ok tt, after)
    pub front : after.pending_effects ≡ record pending { attempts = attempt } ∷ rest
    pub known : 0 < attempt
    pub kept : Dict.get session h'.sessions ≡ some hosted
    pub effects : after.pending_effects ≡ hosted.pending_effects
    pub log : after.log_sequence ≡ hosted.log_sequence
    pub newer : checkpoint < hosted.log_sequence

  -- Where the session of the host has the effect first in its queue, with a u32 of attempts, and a
  -- loader has the same queue and the same sequence of the log, and starts from a checkpoint no later
  -- than that: if the effect is executed, the session's journal ends with a record of the attempt,
  -- from which the loader has the same queue and sequence as the host again, and the first effect of
  -- the queue is known to have been tried.
  pub run_effect-Tried :
      (session : SessionId) (pending : PendingEffect A) (rest : List (PendingEffect A))
      (history : ℕ) (checkpoint : EventSequence) (h h' : HostState A) (hosted : HostedSession A)
      (l : Loading A)
      → Dict.get session h.sessions ≡ some hosted
      → hosted.pending_effects ≡ pending ∷ rest
      → pending.attempts ≤ 0xffff_ffff
      → l.pending_effects ≡ hosted.pending_effects
      → l.log_sequence ≡ hosted.log_sequence
      → checkpoint ≤ hosted.log_sequence
      → run_effect session pending h ≡ (ok tt, h')
      → Tried session pending rest history checkpoint h h' l
  unfolding run_effect
  run_effect-Tried session pending rest history checkpoint h h' hosted l at queue word same level
        behind done =
      let attempt = next_attempt pending.attempts in
      let event = effect_attempted pending.id attempt in
      let found = Dict.get session h.sessions in
      let tried = attempted attempt found session h in
      let logged = append_log session event tried in
      elim (Result-cases logged.0) [
        | inl (x, failed) ↦ absurd (ground arith)
        | inr (_, fine) ↦
            let raising : HostedSession A = record hosted {
              pending_effects = set_attempts attempt hosted.pending_effects;
            } in
            let sequence = hosted.log_sequence + 1 in
            let kept : HostedSession A = record raising { log_sequence = sequence } in
            let written =
              append_log-Appended session event tried raising
                (attempted-get attempt session h hosted at) fine in
            let active =
              activate pending.id (Dict.get session logged.1.sessions) session logged.1 in
            let running = spawn (executes session pending.id attempt pending.effect) active in
            let ends : h' ≡ spawn_timeout session pending.id pending.timeout running =
              ground (arith, fine, done) in
            let calm =
              activate-around pending.id (Dict.get session logged.1.sessions) session logged.1 in
            let before = attempted-around attempt found session h in
            let raised : raise_attempts pending.id attempt l.pending_effects
                ≡ record pending { attempts = attempt } ∷ rest =
              ap (raise_attempts pending.id attempt) (same ∙ queue)
              ∙ raise_attempts-front attempt pending rest
                  (next_attempt-rises pending.attempts word) in
            record {
              sequence = sequence;
              attempt = attempt;
              after = trimmed history (record l {
                log_sequence = sequence;
                pending_effects = raise_attempts pending.id attempt l.pending_effects;
              });
              hosted = record kept { active_effect = some pending.id };
              recorded =
                  ap (λ x. Dict.get session x.around.records) ends
                  ∙ ap (Dict.get session)
                      ((spawn_timeout-around session pending running).1 ∙ ap (λ w. w.records) calm)
                  ∙ written.recorded
                  ∙ cc before;
              loads =
                  load_record_ok session history checkpoint sequence event l _ (omega arith)
                    (omega arith)
                    (load_attempted session pending.id attempt (advanced_to sequence l));
              front = raised;
              known = next_attempt-positive pending.attempts;
              kept =
                  ap (λ x. Dict.get session x.sessions) ends
                  ∙ ap (Dict.get session) (spawned-sessions session pending attempt active)
                  ∙ activate-get pending.id session logged.1 kept written.advanced;
              effects =
                  raised
                  ∙ sym (set_attempts-front attempt pending rest hosted.pending_effects queue);
              log = refl;
              newer = omega arith;
            }
      ]

  -- A host that is started from the journal, with whatever else it has: it reports.
  pub record ReportsUnknown (session : SessionId) (pending : PendingEffect A) (history : ℕ)
      (checkpoint : EventSequence) (h h' : HostState A) (l : Loading A) (old : HostedSession A)
      (g : HostState A) : Type 0 where
    pub sequence : EventSequence
    pub attempt : ℕ
    pub after : Loading A
    pub recorded :
        Dict.get session h'.around.records
        ≡ some (
            records_of (Dict.get session h.around.records)
            ++ (sequence, effect_attempted pending.id attempt) ∷ [])
    pub loads :
        load_record session history checkpoint (sequence, effect_attempted pending.id attempt) l
        ≡ (ok tt, after)
    pub reported :
        (dispatch_one_effect session (
          put_hosted session
            (record old { pending_effects = after.pending_effects; active_effect = none })
            g)).1.around.tasks
        ≡ g.around.tasks ++ reports_unknown session pending.id ∷ []

  dispatch_unknown :
      (session : SessionId) (pending : PendingEffect A) (h : HostState A)
      → front_effect (Dict.get session h.sessions) ≡ some pending
      → may_have_run pending ≡ true
      → (dispatch_one_effect session h).1.around.tasks
        ≡ h.around.tasks ++ reports_unknown session pending.id ∷ []
  unfolding dispatch_one_effect
  dispatch_unknown session pending h front tried =
      rw (front, tried)
        (ap (λ w. w.tasks ++ reports_unknown session pending.id ∷ [])
          (activate-around pending.id (Dict.get session h.sessions) session h))

  may_have_run-tried :
      (pending : PendingEffect A)
      → pending.delivery ≡ at_most_once
      → 0 < pending.attempts
      → may_have_run pending ≡ true
  unfolding may_have_run
  may_have_run-tried pending once known = ground (arith, once, known)

  front_effect-put :
      (session : SessionId) (pending : PendingEffect A) (rest : List (PendingEffect A))
      (old : HostedSession A) (g : HostState A)
      → front_effect (
          Dict.get session
            (put_hosted session
              (record old { pending_effects = pending ∷ rest; active_effect = none })
              g).sessions)
        ≡ some pending
  unfolding front_effect
  front_effect-put session pending rest old g = grind (arith, dict_laws)

  -- Where a session has first in its queue an effect that is to run at most once, with a u32 of
  -- attempts, and a loader has the same queue and the same sequence of the log, and starts from a
  -- checkpoint of the log no later than that: if the effect is executed and the host is gone, the
  -- session's journal ends with a record of the attempt, the loader reads this record without an
  -- error, and a host with the queue that it has then, dispatching it, starts the report of an unknown
  -- outcome and nothing else.
  pub run_effect_once :
      (session : SessionId) (pending : PendingEffect A) (rest : List (PendingEffect A))
      (history : ℕ) (checkpoint : EventSequence) (h h' : HostState A) (hosted : HostedSession A)
      (l : Loading A) (old : HostedSession A) (g : HostState A)
      → pending.delivery ≡ at_most_once
      → Dict.get session h.sessions ≡ some hosted
      → hosted.pending_effects ≡ pending ∷ rest
      → pending.attempts ≤ 0xffff_ffff
      → l.pending_effects ≡ hosted.pending_effects
      → l.log_sequence ≡ hosted.log_sequence
      → checkpoint ≤ hosted.log_sequence
      → run_effect session pending h ≡ (ok tt, h')
      → ReportsUnknown session pending history checkpoint h h' l old g
  run_effect_once session pending rest history checkpoint h h' hosted l old g once at queue word
        same level behind done =
      let t =
        run_effect-Tried session pending rest history checkpoint h h' hosted l at queue word same
          level behind done in
      let tried = record pending { attempts = t.attempt } in
      record {
        sequence = t.sequence;
        attempt = t.attempt;
        after = t.after;
        recorded = t.recorded;
        loads = t.loads;
        reported =
            subst
              (λ q.
                (dispatch_one_effect session (
                  put_hosted session (record old { pending_effects = q; active_effect = none })
                    g)).1.around.tasks
                ≡ g.around.tasks ++ reports_unknown session pending.id ∷ [])
              (sym t.front)
              (dispatch_unknown session tried
                (put_hosted session
                  (record old { pending_effects = tried ∷ rest; active_effect = none }) g)
                (front_effect-put session tried rest old g)
                (may_have_run-tried tried once t.known));
      }
