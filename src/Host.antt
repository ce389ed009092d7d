-- ===== src/Host.antt =====
-- src/resident/host.rs: the state of a resident host. The leader core, the hosted sessions, the
-- queues of the clients and the journals are fields; the tasks that the host spawns, what is on the
-- disk and the outcomes of the coming writes are the fields of `Surroundings`.
pub mod Send
pub mod Effects
pub mod Journals
pub mod Emit
pub mod Transitions
pub mod Polling
pub mod Sessions
pub mod Replay
pub mod Requests
pub mod Load
pub mod Writers
pub mod Cursor
pub mod Fuel
pub mod Concurrency
pub mod Appended
pub mod Attempts
pub mod Recovery
use turtletap.Prelude.{
  ℕ, Bool, Option, none, some, List, [], ◌∷◌, ◌++◌, Result, ok, err, Op, Key, ℕ_key,
}
use turtletap.Dict.{Dict}
use turtletap.HashSet.{HashSet}
use turtletap.Protocol.{
  Text, SessionId, ConnectionId, EventSequence, LeaseEpoch, RequestId, DriverLease, SessionSummary,
  AttachmentMode, ClientInstanceId,
}
use turtletap.Core.Session.{SessionControlSnapshot}
use turtletap.Core.Ops.{LeaderCore, CoreError, AttachError}
use turtletap.Application.{Application, EffectId, EffectDelivery, ShutdownReason}

module _ (A : Application) where
  -- An `io::Error` where the host makes or wraps it; the texts are left out.
  pub data HostError : Type 0 where
    core_failed : CoreError → HostError
    application_failed : A.Failure → HostError
    json_failed : A.JsonError → HostError
    disk_failed : A.DiskError → HostError
    unknown_resident_session log_sequence_exhausted : HostError
    -- `io::ErrorKind::Unsupported` and `InvalidData` at load
    unsupported_version missing_manifest : HostError

  -- A `WireError`; its code is the constructor.
  pub data WireError : Type 0 where
    resident_state : CoreError → WireError
    attach_refused : AttachError → WireError
    application : A.Failure → WireError
    resident_io : HostError → WireError
    invalid_command : A.JsonError → WireError
    unknown_session replacement_not_newer : WireError

  pub data ControlResult : Type 0 where
    status sessions : List SessionSummary → ControlResult
    created renamed : SessionSummary → ControlResult
    attached : SessionSummary → Option LeaseEpoch → ControlResult
    accepted : SessionId → EventSequence → Bool → ControlResult
    detached : SessionId → ControlResult
    driver : SessionId → Option DriverLease → ControlResult
    stopping pong : ControlResult

  pub data ServerMessage : Type 0 where
    response : RequestId → Result WireError ControlResult → ServerMessage
    snapshot : SessionId → EventSequence → A.Value → ServerMessage
    event : SessionId → EventSequence → A.Value → ServerMessage
    driver_changed : SessionId → Option DriverLease → ServerMessage
    shutting_down shutdown : ShutdownReason → ServerMessage

  pub data SessionSelector : Type 0 where
    id : SessionId → SessionSelector
    name : Text → SessionSelector

  pub data ClientRequest : Type 0 where
    status list_sessions ping stop_leader : ClientRequest
    create_session : Text → ClientRequest
    rename_session : SessionId → Text → ClientRequest
    attach : SessionSelector → AttachmentMode → Option EventSequence → Bool → ClientRequest
    command : SessionId → LeaseEpoch → A.Value → ClientRequest
    detach release_driver stop_session : SessionId → ClientRequest
    acquire_driver : SessionId → Bool → ClientRequest
    replace_leader : Text → ClientRequest

  -- An outbound channel: its bound, and what its receiver has not taken yet.
  pub record Outbound : Type 0 where
    pub capacity : ℕ
    pub messages : List ServerMessage
    pub closed : Bool

  pub record PendingEffect : Type 0 where
    pub id : EffectId
    pub delivery : EffectDelivery
    pub attempts : ℕ
    pub effect : A.Effect
    pub timeout : Option ℕ

  pub record StoredEffect : Type 0 where
    pub id : EffectId
    pub delivery : EffectDelivery
    pub attempts : ℕ
    pub effect : A.Value
    pub timeout_ms : Option ℕ

  pub record HostedSession : Type 0 where
    pub session : A.Session
    pub events : List (EventSequence × A.Event)
    pub pending_effects : List PendingEffect
    pub active_effect : Option EffectId
    pub log_sequence : EventSequence

  pub data HostLogEvent : Type 0 where
    transition :
        Option RequestId
        → EventSequence
        → Option ℕ
        → List (EventSequence × A.Event)
        → List StoredEffect
        → Option EffectId
        → HostLogEvent
    effect_attempted : EffectId → ℕ → HostLogEvent

  pub record StoredManifest : Type 0 where
    pub host_version : ℕ
    pub application_version : ℕ
    pub id : SessionId
    pub name : Text

  pub record StoredSession : Type 0 where
    pub host_version : ℕ
    pub application_version : ℕ
    pub control : SessionControlSnapshot
    pub state : A.Value
    pub log_sequence : EventSequence
    pub pending_effects : List StoredEffect

  pub data Incoming : Type 0 where
    connected : ConnectionId → ClientInstanceId → Outbound → Incoming
    message : ConnectionId → RequestId → ClientRequest → Incoming
    disconnected : ConnectionId → Incoming
    effect_done : SessionId → EffectId → Result A.Failure A.Output → Incoming
    effect_timed_out : SessionId → EffectId → Incoming
    session_ready : SessionId → Incoming
    tick : ℕ → Incoming
    listener_failed : A.DiskError → Incoming

  -- The tasks that the host hands to its runtime.
  pub data Spawned : Type 0 where
    executes : SessionId → EffectId → ℕ → A.Effect → Spawned
    times_out : SessionId → EffectId → ℕ → Spawned
    reports_unknown : SessionId → EffectId → Spawned

  pub record Surroundings : Type 0 where
    -- Journal records with their log sequences, checkpoints and manifests, for each session.
    pub records : Dict SessionId (List (EventSequence × HostLogEvent))
    pub checkpoints : Dict SessionId StoredSession
    pub manifests : Dict SessionId StoredManifest
    -- The journals of hosts before version 2.
    pub legacy_records : Dict SessionId (List (EventSequence × Option RequestId × A.Event))
    -- How the coming writes end; beyond the list they succeed.
    pub faults : List (Option A.DiskError)
    pub tasks : List Spawned
    pub cancelled : List EffectId
    -- The queues that the host has let go, as their clients still read them.
    pub parted : Dict ConnectionId Outbound
    pub now : ℕ
    pub drawn : ℕ

  pub record ResidentHostConfig : Type 0 where
    pub binary_version : Text
    pub event_history : ℕ
    pub effect_timeout : Option ℕ
    pub initial_session : Option Text
    pub max_concurrent_effects : ℕ

  -- The writers that are open have no state of their own.
  pub record HostState : Type 0 where
    pub config : ResidentHostConfig
    pub core : LeaderCore
    pub sessions : Dict SessionId HostedSession
    pub journals : HashSet SessionId
    pub journal_order : List SessionId
    pub clients : Dict ConnectionId Outbound
    pub ready_effects : List SessionId
    pub ready_effect_set : HashSet SessionId
    pub around : Surroundings
