-- ===== src/Host/Load.antt =====
-- src/resident/host.rs: `HostState::load`. The directories of the sessions, their files and the
-- outcomes of the writes are those of `Surroundings`; a checkpoint that cannot be read is one that is
-- not there. The import of the single checkpoint of the oldest hosts is left out.
-- Here is the journal of one session, in Directories the rest.
pub mod Directories
use turtletap.Prelude.{
  ℕ, suc, Bool, true, false, Option, none, some, List, [], ◌∷◌, ◌++◌, ◌==◌, ◌||◌, ltb, leb,
  if◌then◌else◌, Result, ok, err, Op, pure, fail, ok_or, require, gets, modify, ◌>>=◌, ◌>>◌, ℕ_key,
}
use turtletap.Dict
use turtletap.Dict.{Dict}
use turtletap.HashSet
use turtletap.Protocol.{Text, SessionId, EventSequence, RequestId}
use turtletap.Core.Ops
use turtletap.Core.Ops.{LeaderCore, CoreError}
use turtletap.Core.Commit
use turtletap.Application.{Application, EffectId}
use turtletap.Host.{
  HostState, HostedSession, PendingEffect, StoredEffect, StoredSession, StoredManifest, HostError,
  HostLogEvent, transition, effect_attempted, core_failed, application_failed, unsupported_version,
  missing_manifest, Surroundings, ResidentHostConfig,
}
use turtletap.Host.Emit.{trim_events, stamp}
use turtletap.Host.Effects.{decode_effect}
use turtletap.Host.Transitions.{retain_effects}
use turtletap.Host.Sessions.{host_storage_version, hosted_new, persist_manifest, persist_checkpoint}

-- `max`
unfoldable pub later : EventSequence → EventSequence → EventSequence
later a b = if leb a b then b else a

-- What `load` has of a session while it reads the journal.
pub record Loading (A : Application) : Type 0 where
  pub session : A.Session
  pub core : LeaderCore
  pub events : List (EventSequence × A.Event)
  pub pending_effects : List (PendingEffect A)
  pub log_sequence : EventSequence

module _ {A : Application} where
  unfoldable pub replay_session : A.Event → Op (Loading A) (HostError A) (Unit {0})
  replay_session e l =
      let step = A.replay e l.session in
      let after = record l { session = step.1 } in
      elim step.0 [ err x ↦ (err (application_failed x), after) | ok _ ↦ (ok tt, after) ]

  unfoldable pub replay_core :
      SessionId → EventSequence → Option RequestId → Op (Loading A) (HostError A) (Unit {0})
  replay_core id sequence request l =
      let step = Commit.replay id sequence request l.core in
      let after = record l { core = step.1 } in
      elim step.0 [ err x ↦ (err (core_failed x), after) | ok _ ↦ (ok tt, after) ]

  push_event : EventSequence → A.Event → Loading A → Loading A
  push_event sequence e l = record l { events = l.events ++ (sequence, e) ∷ [] }

  unfoldable pub replay_event :
      SessionId
      → Bool
      → Option RequestId
      → EventSequence
      → A.Event
      → Op (Loading A) (HostError A) (Unit {0})
  unfolding push_event replay_session replay_core
  replay_event id false request sequence e = modify (push_event sequence e)
  replay_event id true request sequence e = do
    replay_session e
    replay_core id sequence request
    modify (push_event sequence e)

  -- The loop over the events of a transition: only the first carries the request.
  unfoldable pub replay_events :
      SessionId
      → Bool
      → Option RequestId
      → List (EventSequence × A.Event)
      → Op (Loading A) (HostError A) (Unit {0})
  unfolding replay_event
  replay_events id replays request [] l = (ok tt, l)
  replay_events id replays request ((sequence, e) ∷ events) l =
      let step = replay_event id replays request sequence e l in
      let rest = replay_events id replays none events step.1 in
      elim step.0 [ err x ↦ (err x, step.1) | ok _ ↦ rest ]

  unfoldable pub decode_all : List (StoredEffect A) → Result (HostError A) (List (PendingEffect A))
  decode_all [] = ok []
  decode_all (s ∷ ss) =
      let rest = decode_all ss in
      elim (decode_effect s) [
        | err e ↦ err e
        | ok pending ↦ elim rest [ err e ↦ err e | ok more ↦ ok (pending ∷ more) ]
      ]

  unfoldable pub without_completed :
      Option EffectId → List (PendingEffect A) → List (PendingEffect A)
  unfolding retain_effects
  without_completed none pending = pending
  without_completed (some id) pending = retain_effects id pending

  decoded : List (StoredEffect A) → Op (Loading A) (HostError A) (List (PendingEffect A))
  decoded effects l = (decode_all effects, l)

  unfoldable pub replay_alone :
      SessionId
      → Option RequestId
      → EventSequence
      → List (EventSequence × A.Event)
      → Op (Loading A) (HostError A) (Unit {0})
  unfolding replay_core
  replay_alone id (some request) control [] = replay_core id control (some request)
  replay_alone id request control events = pure tt

  unfoldable pub replay_effects :
      Option EffectId → List (StoredEffect A) → Op (Loading A) (HostError A) (Unit {0})
  unfolding without_completed decoded
  replay_effects completed effects = do
    modify (λ l. record l { pending_effects = without_completed completed l.pending_effects })
    more ← decoded effects
    modify (λ l. record l { pending_effects = l.pending_effects ++ more })

  -- `pending.attempts = pending.attempts.max(attempt)` on the first effect of that identity
  unfoldable pub raise_attempts : EffectId → ℕ → List (PendingEffect A) → List (PendingEffect A)
  raise_attempts id attempt [] = []
  raise_attempts id attempt (p ∷ ps) =
      let rest = raise_attempts id attempt ps in
      if p.id == id
      then record p { attempts = if leb p.attempts attempt then attempt else p.attempts } ∷ ps
      else p ∷ rest

  -- One record of the journal; one that the checkpoint holds only refills the window of events.
  unfoldable pub load_event :
      SessionId → Bool → HostLogEvent A → Op (Loading A) (HostError A) (Unit {0})
  unfolding replay_events replay_alone replay_effects raise_attempts
  load_event id true (transition request control at events effects completed) = do
    replay_events id true request events
    replay_alone id request control events
    replay_effects completed effects
    modify (λ l. record l { core = stamp id at l.core })
  load_event id false (transition request control at events effects completed) = do
    replay_events id false request events
    modify (λ l. record l { core = stamp id at l.core })
  load_event id true (effect_attempted effect attempt) =
      modify (λ l. record l { pending_effects = raise_attempts effect attempt l.pending_effects })
  load_event id false (effect_attempted effect attempt) = pure tt

  unfoldable pub load_record :
      SessionId
      → ℕ
      → EventSequence
      → EventSequence × HostLogEvent A
      → Op (Loading A) (HostError A) (Unit {0})
  unfolding load_event later
  load_record id history checkpoint (sequence, e) = do
    modify (λ l. record l { log_sequence = later l.log_sequence sequence })
    load_event id (ltb checkpoint sequence) e
    modify (λ l. record l { events = trim_events history l.events })

  unfoldable pub load_records :
      SessionId
      → ℕ
      → EventSequence
      → List (EventSequence × HostLogEvent A)
      → Op (Loading A) (HostError A) (Unit {0})
  unfolding load_record
  load_records id history checkpoint [] l = (ok tt, l)
  load_records id history checkpoint (r ∷ rs) l =
      let step = load_record id history checkpoint r l in
      let rest = load_records id history checkpoint rs step.1 in
      elim step.0 [ err x ↦ (err x, step.1) | ok _ ↦ rest ]

  -- The journal of a host before version 2.
  legacy_event :
      SessionId
      → EventSequence
      → EventSequence × Option RequestId × A.Event
      → Op (Loading A) (HostError A) (Unit {0})
  unfolding replay_event
  legacy_event id checkpoint (sequence, request, e) =
      replay_event id (ltb checkpoint sequence) request sequence e

  unfoldable pub load_legacy :
      SessionId
      → ℕ
      → EventSequence
      → List (EventSequence × Option RequestId × A.Event)
      → Op (Loading A) (HostError A) (Unit {0})
  unfolding legacy_event
  load_legacy id history checkpoint [] l = (ok tt, l)
  load_legacy id history checkpoint (r ∷ rs) l =
      let step = legacy_event id checkpoint r l in
      let trimmed = record step.1 { events = trim_events history step.1.events } in
      let rest = load_legacy id history checkpoint rs trimmed in
      elim step.0 [ err x ↦ (err x, step.1) | ok _ ↦ rest ]
