-- ===== src/Host/Sessions.antt =====
-- src/resident/host.rs: checkpoints, manifests, the making and the end of a session, and the end of
-- the host.
use turtletap.Prelude.{
  ℕ, suc, none, some, List, [], ◌∷◌, Result, ok, err, Op, pure, ok_or, gets, modify, ◌>>=◌, ◌>>◌,
  ℕ_key,
}
use turtletap.Dict
use turtletap.HashSet
use turtletap.Protocol.{Text, SessionId}
use turtletap.Core.Ops
use turtletap.Core.Ops.{LeaderCore, CoreError}
use turtletap.Core.Attach
use turtletap.Core.Commit
use turtletap.Core.Session.{SessionControlSnapshot}
use turtletap.Application.{Application, ShutdownReason}
use turtletap.Host.{
  HostState, HostedSession, StoredEffect, HostError, WireError, ControlResult, core_failed,
  application_failed, json_failed, unknown_resident_session, resident_state, application,
  resident_io, created, Surroundings,
}
use turtletap.Host.Send.{close_queue}
use turtletap.Host.Journals.{write, retain_other}
use turtletap.Host.Effects.{put_hosted}
use turtletap.Host.Transitions.{encode_all, in_core}
use turtletap.Host.Polling.{cancel}

-- `HOST_STORAGE_VERSION`
abbrev pub host_storage_version : ℕ
host_storage_version = 2

module _ {A : Application} where
  hosted_at : SessionId → Op (HostState A) (HostError A) (HostedSession A)
  hosted_at session h = ok_or unknown_resident_session (Dict.get session h.sessions) h

  -- A query of the core that may fail.
  snapshot_at : SessionId → Op (HostState A) (HostError A) SessionControlSnapshot
  snapshot_at session h = elim (Commit.snapshot h.core session) [
    | err e ↦ (err (core_failed e), h)
    | ok image ↦ (ok image, h)
  ]

  state_at : HostedSession A → Op (HostState A) (HostError A) A.Value
  state_at hosted h = elim (A.state_value hosted.session) [
    | err e ↦ (err (json_failed e), h)
    | ok value ↦ (ok value, h)
  ]

  encoded : HostedSession A → Op (HostState A) (HostError A) (List (StoredEffect A))
  encoded hosted h = (encode_all hosted.pending_effects, h)

  unfoldable pub persist_checkpoint : SessionId → Op (HostState A) (HostError A) (Unit {0})
  unfolding hosted_at snapshot_at state_at encoded
  persist_checkpoint session = do
    hosted ← hosted_at session
    control ← snapshot_at session
    state ← state_at hosted
    effects ← encoded hosted
    write (λ w. record w {
      checkpoints =
          Dict.insert session
            (record {
              host_version = host_storage_version;
              application_version = A.storage_version;
              control = control;
              state = state;
              log_sequence = hosted.log_sequence;
              pending_effects = effects;
            })
            w.checkpoints;
    })

  unfoldable pub persist_manifest : SessionId → Op (HostState A) (HostError A) (Unit {0})
  unfolding snapshot_at
  persist_manifest session = do
    control ← snapshot_at session
    write (λ w. record w {
      manifests =
          Dict.insert session
            (record {
              host_version = host_storage_version;
              application_version = A.storage_version;
              id = control.id;
              name = control.name;
            })
            w.manifests;
    })

  -- `.map_err(...)`
  abbrev pub in_wire :
      {E X : Type 0} → (E → WireError A) → Op (HostState A) E X → Op (HostState A) (WireError A) X
  in_wire {E} {X} f m h =
      let step = m h in
      let answer : Result (WireError A) X × HostState A = elim step.0 [
        | err e ↦ (err (f e), step.1)
        | ok x ↦ (ok x, step.1)
      ] in
      answer

  abbrev pub in_core_wire :
      {X : Type 0} → Op LeaderCore CoreError X → Op (HostState A) (WireError A) X
  in_core_wire {X} m h =
      let step = m h.core in
      let after = record h { core = step.1 } in
      let answer : Result (WireError A) X × HostState A = elim step.0 [
        | err e ↦ (err (resident_state e), after)
        | ok x ↦ (ok x, after)
      ] in
      answer

  abbrev pub wire_application : {X : Type 0} → Result A.Failure X → Op (HostState A) (WireError A) X
  wire_application (err e) h = (err (application e), h)
  wire_application (ok x) h = (ok x, h)

  -- A session that has nothing in its log.
  unfoldable pub hosted_new : A.Session → HostedSession A
  hosted_new session = record {
    session = session;
    events = [];
    pending_effects = [];
    active_effect = none;
    log_sequence = 0;
  }

  draw_one : HostState A → HostState A
  draw_one h = record h { around = record h.around { drawn = suc h.around.drawn } }

  unfoldable pub create_session : Text → Op (HostState A) (WireError A) (ControlResult A)
  unfolding draw_one hosted_new
  create_session name = do
    id ← gets (λ h. A.new_id h.around.drawn)
    modify draw_one
    session ← wire_application (A.create name)
    summary ← in_core_wire (Ops.create_session id name)
    modify (put_hosted id (hosted_new session))
    in_wire resident_io (persist_manifest id)
    in_wire resident_io (persist_checkpoint id)
    wire_application (A.session_available id)
    pure (created summary)

  failed_application : {X : Type 0} → Result A.Failure X → Op (HostState A) (HostError A) X
  failed_application (err e) h = (err (application_failed e), h)
  failed_application (ok x) h = (ok x, h)

  cancel_active : HostedSession A → HostState A → HostState A
  cancel_active hosted h = elim hosted.active_effect [ none ↦ h | some id ↦ cancel id h ]

  -- `fs::remove_dir_all` of the session's directory
  forget_files : SessionId → Surroundings A → Surroundings A
  forget_files session w = record w {
    records = Dict.remove session w.records;
    checkpoints = Dict.remove session w.checkpoints;
    manifests = Dict.remove session w.manifests;
    legacy_records = Dict.remove session w.legacy_records;
  }

  -- What the host keeps of a session, apart from the core.
  unfoldable pub drop_session : SessionId → HostState A → HostState A
  unfolding retain_other
  drop_session session h = record h {
    sessions = Dict.remove session h.sessions;
    journals = HashSet.remove session h.journals;
    journal_order = retain_other session h.journal_order;
    ready_effect_set = HashSet.remove session h.ready_effect_set;
    ready_effects = retain_other session h.ready_effects;
  }

  unfoldable pub stop_session : SessionId → Op (HostState A) (HostError A) (Unit {0})
  unfolding hosted_at failed_application cancel_active forget_files drop_session
  stop_session session = do
    hosted ← hosted_at session
    failed_application (A.session_stopping session)
    modify (cancel_active hosted)
    write (forget_files session)
    modify (drop_session session)
    in_core (Attach.remove_session session)

  cancel_each : List (HostedSession A) → HostState A → HostState A
  unfolding cancel_active
  cancel_each [] h = h
  cancel_each (hosted ∷ more) h = cancel_each more (cancel_active hosted h)

  persist_each : List SessionId → Op (HostState A) (HostError A) (Unit {0})
  unfolding persist_checkpoint
  persist_each [] h = (ok tt, h)
  persist_each (session ∷ sessions) h =
      let step = persist_checkpoint session h in
      let rest = persist_each sessions step.1 in
      elim step.0 [ err e ↦ (err e, step.1) | ok _ ↦ rest ]

  unfoldable pub close_client_queues : ShutdownReason → HostState A → HostState A
  unfolding close_queue
  close_client_queues reason h = record h {
    clients = Dict.empty;
    around = record h.around { parted = Dict.map_values (close_queue reason) h.clients };
  }

  unfoldable pub shutdown : ShutdownReason → Op (HostState A) (HostError A) (Unit {0})
  unfolding cancel_each persist_each close_client_queues
  shutdown reason = do
    modify (λ h. cancel_each (Dict.values h.sessions) h)
    sessions ← gets (λ h. Dict.keys h.sessions)
    persist_each sessions
    modify (close_client_queues reason)
