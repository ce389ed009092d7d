-- ===== src/Host/Load/Directories.antt =====
-- src/resident/host.rs: `HostState::load` over the directories of the sessions.
use turtletap.Prelude.{
  ℕ, suc, Bool, Option, none, some, List, [], ◌∷◌, ◌==◌, ◌||◌, leb, if◌then◌else◌, Result, ok, err,
  Op, pure, fail, require, gets, modify, ◌>>=◌, ◌>>◌, ℕ_key,
}
use turtletap.Dict
use turtletap.Dict.{Dict}
use turtletap.HashSet
use turtletap.Protocol.{Text, SessionId, EventSequence}
use turtletap.Core.Ops
use turtletap.Core.Ops.{LeaderCore, CoreError}
use turtletap.Application.{Application}
use turtletap.Host.{
  HostState, PendingEffect, StoredSession, StoredManifest, HostError, application_failed,
  unsupported_version, missing_manifest, Surroundings, ResidentHostConfig,
}
use turtletap.Host.Effects.{put_hosted}
use turtletap.Host.Transitions.{in_core}
use turtletap.Host.Sessions.{host_storage_version, hosted_new, persist_manifest, persist_checkpoint}
use turtletap.Host.Load.{Loading, load_records, load_legacy, decode_all}

-- `matches!(version, 0 | 1 | HOST_STORAGE_VERSION)`
unfoldable pub known_version : ℕ → Bool
known_version version = version == 0 || version == 1 || version == host_storage_version

-- What a directory begins with: its session, and up to where its checkpoint reaches.
pub record Beginning (A : Application) : Type 0 where
  pub id : SessionId
  pub session : A.Session
  pub sequence : EventSequence
  pub log_sequence : EventSequence
  pub host_version : ℕ
  pub pending_effects : List (PendingEffect A)

records_in : {X : Type 0} → Option (List X) → List X
records_in none = []
records_in (some records) = records

module _ {A : Application} where
  require_host_version : ℕ → Op (HostState A) (HostError A) (Unit {0})
  unfolding known_version
  require_host_version version = require (known_version version) unsupported_version

  in_application : {X : Type 0} → Result A.Failure X → Op (HostState A) (HostError A) X
  in_application (err e) h = (err (application_failed e), h)
  in_application (ok x) h = (ok x, h)

  decoded : StoredSession A → Op (HostState A) (HostError A) (List (PendingEffect A))
  decoded stored h = (decode_all stored.pending_effects, h)

  begin_checkpoint : StoredSession A → Op (HostState A) (HostError A) (Beginning A)
  unfolding require_host_version in_application decoded
  begin_checkpoint stored = do
    require_host_version stored.host_version
    state ← in_application (A.migrate stored.application_version stored.state)
    session ← in_application (A.restore state)
    pending ← decoded stored
    in_core (Ops.restore_session stored.control)
    pure (record {
      id = stored.control.id;
      session = session;
      sequence = stored.control.sequence;
      log_sequence = stored.log_sequence;
      host_version = stored.host_version;
      pending_effects = pending;
    })

  begin_manifest : StoredManifest A → Op (HostState A) (HostError A) (Beginning A)
  unfolding require_host_version in_application
  begin_manifest manifest = do
    require_host_version manifest.host_version
    require (manifest.application_version == A.storage_version) unsupported_version
    session ← in_application (A.create manifest.name)
    in_core (Ops.create_session manifest.id manifest.name)
    pure (record {
      id = manifest.id;
      session = session;
      sequence = 0;
      log_sequence = 0;
      host_version = manifest.host_version;
      pending_effects = [];
    })

  unfoldable pub begin_with :
      Option (StoredSession A)
      → Option (StoredManifest A)
      → Op (HostState A) (HostError A) (Beginning A)
  unfolding begin_checkpoint begin_manifest
  begin_with (some stored) manifest = begin_checkpoint stored
  begin_with none (some manifest) = begin_manifest manifest
  begin_with none none = fail missing_manifest

  loading : Beginning A → HostState A → Loading A
  loading b h = record {
    session = b.session;
    core = h.core;
    events = [];
    pending_effects = b.pending_effects;
    log_sequence = b.log_sequence;
  }

  -- The journal of the version that the directory has.
  read_journal : SessionId → Beginning A → Op (HostState A) (HostError A) (Loading A)
  unfolding records_in loading
  read_journal directory b h =
      let step : Result (HostError A) (Unit {0}) × Loading A =
        if leb 2 b.host_version
        then load_records b.id h.config.event_history b.log_sequence
            (records_in (Dict.get directory h.around.records)) (loading b h)
        else load_legacy b.id h.config.event_history b.sequence
            (records_in (Dict.get directory h.around.legacy_records)) (loading b h) in
      let after = record h { core = step.1.core } in
      elim step.0 [ err e ↦ (err e, after) | ok _ ↦ (ok step.1, after) ]

  unfoldable pub load_directory : SessionId → Op (HostState A) (HostError A) (Unit {0})
  unfolding begin_with read_journal
  load_directory directory = do
    checkpoint ← gets (λ h. Dict.get directory h.around.checkpoints)
    manifest ← gets (λ h. Dict.get directory h.around.manifests)
    b ← begin_with checkpoint manifest
    l ← read_journal directory b
    modify (
        put_hosted b.id (record {
          session = l.session;
          events = l.events;
          pending_effects = l.pending_effects;
          active_effect = none;
          log_sequence = l.log_sequence;
        }))

  load_directories : List SessionId → Op (HostState A) (HostError A) (Unit {0})
  unfolding load_directory
  load_directories [] h = (ok tt, h)
  load_directories (d ∷ ds) h =
      let step = load_directory d h in
      let rest = load_directories ds step.1 in elim step.0 [ err e ↦ (err e, step.1) | ok _ ↦ rest ]

  draw_one : HostState A → HostState A
  draw_one h = record h { around = record h.around { drawn = suc h.around.drawn } }

  create_initial : Text → Op (HostState A) (HostError A) (Unit {0})
  unfolding in_application draw_one hosted_new
  create_initial name = do
    id ← gets (λ h. A.new_id h.around.drawn)
    modify draw_one
    session ← in_application (A.create name)
    in_core (Ops.create_session id name)
    modify (put_hosted id (hosted_new session))

  -- `if sessions.is_empty() && let Some(name) = ...`
  initial : Option Text → List SessionId → Op (HostState A) (HostError A) (Unit {0})
  unfolding create_initial
  initial (some name) [] = create_initial name
  initial name sessions = pure tt

  publish_sessions : List SessionId → Op (HostState A) (HostError A) (Unit {0})
  unfolding in_application
  publish_sessions [] = pure tt
  publish_sessions (id ∷ ids) = do
    persist_manifest id
    persist_checkpoint id
    in_application (A.session_available id)
    publish_sessions ids

  unfoldable pub starting : ResidentHostConfig A → Surroundings A → HostState A
  starting config around = record {
    config = config;
    core = Ops.new;
    sessions = Dict.empty;
    journals = HashSet.new;
    journal_order = [];
    clients = Dict.empty;
    ready_effects = [];
    ready_effect_set = HashSet.new;
    around = around;
  }

  unfoldable pub load :
      ResidentHostConfig A
      → List SessionId
      → Surroundings A
      → Result (HostError A) (Unit {0}) × HostState A
  unfolding load_directories initial publish_sessions starting
  load config directories around =
      (do
        load_directories directories
        sessions ← gets (λ h. Dict.keys h.sessions)
        initial config.initial_session sessions
        hosted ← gets (λ h. Dict.keys h.sessions)
        publish_sessions hosted)
        (starting config around)
