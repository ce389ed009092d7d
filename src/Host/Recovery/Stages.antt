-- ===== src/Host/Recovery/Stages.antt =====
-- src/resident/host.rs: the stages of a `log_transition` that succeeds.
use turtletap.Prelude.{
  ◌≡◌, Option, Option-cases, some, List, arith, ok, Result-cases, ℕ_key, inl, inr,
}
use turtletap.Dict
use turtletap.Dict.{dict_laws}
use turtletap.Protocol.{SessionId, RequestId, EventSequence, SessionSummary, request_key}
use turtletap.Core.Ops.{LeaderCore}
use turtletap.Core.Lookup.{sessions}
use turtletap.Application.{Application, EffectId, SessionTransition}
use turtletap.Host.{HostState, HostedSession, PendingEffect, StoredEffect, HostLogEvent, transition}
use turtletap.Host.Emit.{emit_all, find_summary, commit_time, stamp}
use turtletap.Host.Journals.{append_log, open_journal}
use turtletap.Host.Effects.{put_hosted}
use turtletap.Host.Transitions.{pending_all, encode_all, settle, draw, log_transition}

module _ {A : Application} where
  -- The host when it writes the record.
  abbrev pub logging :
      SessionId
      → SessionTransition A.Event A.Effect
      → Option EventSequence
      → LeaderCore
      → HostState A
      → HostState A
  logging session t last live h =
      draw t.effects (record h { core = stamp session (commit_time h.around.now last) live })

  abbrev pub drawn_effects :
      SessionTransition A.Event A.Effect → HostState A → List (PendingEffect A)
  drawn_effects t h = pending_all h.config.effect_timeout h.around.drawn t.effects

  open_journal-core :
      (session : SessionId) (h : HostState A) → (open_journal session h).1.core ≡ h.core
  unfolding open_journal
  open_journal-core session h = ground arith

  pub append_log-core :
      (session : SessionId) (e : HostLogEvent A) (h : HostState A)
      → (append_log session e h).1.core ≡ h.core
  unfolding append_log
  append_log-core session e h = ground (arith, open_journal-core session h)

  pub get-put :
      (session : SessionId) (hosted : HostedSession A) (d : Dict.Dict SessionId (HostedSession A))
      → Dict.get session (Dict.insert session hosted d) ≡ some hosted
  get-put session hosted d = grind (arith, dict_laws)

  -- The stages of a `log_transition` that succeeds.
  pub record Stages (session : SessionId) (request : Option RequestId) (completed : Option EffectId)
      (t : SessionTransition A.Event A.Effect) (emitted : List (EventSequence × A.Event))
      (last : Option EventSequence) (live : LeaderCore) (h h' : HostState A) : Type 0 where
    pub stored : List (StoredEffect A)
    pub control : SessionSummary
    pub hosted : HostedSession A
    pub encodes : encode_all (drawn_effects t h) ≡ ok stored
    pub listed :
        find_summary session (sessions (stamp session (commit_time h.around.now last) live))
        ≡ some control
    pub logged :
        (append_log session
          (transition request control.sequence
            (commit_time h.around.now last)
            emitted
            stored
            completed)
          (logging session t last live h)).0
        ≡ ok tt
    pub found :
        Dict.get session
          (append_log session
            (transition request control.sequence
              (commit_time h.around.now last)
              emitted
              stored
              completed)
            (logging session t last live h)).1.sessions
        ≡ some hosted
    pub ends :
        h'
        ≡ put_hosted session
            (settle completed (drawn_effects t h) hosted)
            (append_log session
              (transition request control.sequence
                (commit_time h.around.now last)
                emitted
                stored
                completed)
              (logging session t last live h)).1

  pub log_transition-Stages :
      (session : SessionId) (request : Option RequestId) (completed : Option EffectId)
      (t : SessionTransition A.Event A.Effect) (emitted : List (EventSequence × A.Event))
      (first last : Option EventSequence) (live : LeaderCore) (h h' : HostState A)
      (answer : List (EventSequence × A.Event) × EventSequence)
      → emit_all session request t.events h.core ≡ (ok (emitted, first, last), live)
      → log_transition session request completed t h ≡ (ok answer, h')
      → Stages session request completed t emitted last live h h'
  unfolding log_transition
  log_transition-Stages session request completed t emitted first last live h h' answer emits done =
      let at = commit_time h.around.now last in
      let before = logging session t last live h in
      elim (Result-cases (encode_all (drawn_effects t h))) [
        | inl (e, failed) ↦ absurd (ground (arith, emits))
        | inr (stored, encodes) ↦
            elim (Option-cases (find_summary session (sessions before.core))) [
              | inl missing ↦ absurd (ground (arith, emits))
              | inr (control, listed) ↦
                  let logs =
                    append_log session
                      (transition request control.sequence at emitted stored completed) before in
                  elim (Result-cases logs.0) [
                    | inl (e, failed) ↦ absurd (ground (arith, emits))
                    | inr (_, logged) ↦ elim (Option-cases (Dict.get session logs.1.sessions)) [
                      | inl missing ↦ absurd (ground (arith, emits))
                      | inr (hosted, found) ↦ record {
                        stored = stored;
                        control = control;
                        hosted = hosted;
                        encodes = encodes;
                        listed = listed;
                        logged = logged;
                        found = found;
                        ends = ground (arith, emits);
                      }
                    ]
                  ]
            ]
      ]
