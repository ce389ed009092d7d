-- ===== src/Host/Replay.antt =====
-- src/resident/host.rs: what a client that attaches is sent: the events behind its cursor, or a
-- snapshot.
use turtletap.Prelude.{
  Option, none, some, List, [], ◌∷◌, ltb, leb, if◌then◌else◌, Result, ok, err, Op, ok_or, gets,
  modify, ◌>>=◌, ℕ_key,
}
use turtletap.Dict
use turtletap.Protocol.{SessionId, ConnectionId, EventSequence, SessionSummary, saturating_add}
use turtletap.Core.Ops
use turtletap.Core.Ops.{
  LeaderCore, CoreError, AttachError, AttachOutcome, Authorization, apply, duplicate,
}
use turtletap.Application.{Application}
use turtletap.Host.{
  HostState, HostedSession, WireError, ServerMessage, SessionSelector, id, name, json_failed,
  resident_io, unknown_session,
}
use turtletap.Host.Send.{send}
use turtletap.Host.Transitions.{summary}

-- The events of the window behind a cursor, if the window reaches back to it.
module _ {E : Type 0} where
  unfoldable pub events_after : EventSequence → List (EventSequence × E) → List (EventSequence × E)
  events_after cursor [] = []
  events_after cursor (e ∷ es) =
      let rest = events_after cursor es in if ltb cursor e.0 then e ∷ rest else rest

  unfoldable pub replay_from :
      Option EventSequence → List (EventSequence × E) → Option (List (EventSequence × E))
  unfolding events_after
  replay_from none events = none
  replay_from (some cursor) [] = none
  replay_from (some cursor) (oldest ∷ events) =
      if leb oldest.0 (saturating_add cursor 1)
      then some (events_after cursor (oldest ∷ events))
      else none

module _ {A : Application} where
  unfoldable pub found : {X : Type 0} → Option X → Op (HostState A) (WireError A) X
  found x h = ok_or unknown_session x h

  unfoldable pub resolve : SessionSelector A → Op (HostState A) (WireError A) SessionId
  unfolding found
  resolve (name given) h = found (Ops.session_named h.core given) h
  resolve (id session) h = elim (Dict.get session h.sessions) [
    | none ↦ (err unknown_session, h)
    | some hosted ↦ (ok session, h)
  ]

  -- `serde_json::to_value(...).map_err(wire_io)?`
  abbrev pub as_value : Result A.JsonError A.Value → Op (HostState A) (WireError A) A.Value
  as_value (err e) h = (err (resident_io (json_failed e)), h)
  as_value (ok value) h = (ok value, h)

  unfoldable pub send_events :
      ConnectionId
      → SessionId
      → List (EventSequence × A.Event)
      → Op (HostState A) (WireError A) (Unit {0})
  send_events connection session [] h = (ok tt, h)
  send_events connection session ((sequence, e) ∷ events) h = elim (A.event_value e) [
    | err x ↦ (err (resident_io (json_failed x)), h)
    | ok value ↦
        send_events connection session events
          (send connection (ServerMessage.event session sequence value) h)
  ]

  unfoldable pub send_snapshot :
      ConnectionId
      → SessionId
      → HostedSession A
      → SessionSummary
      → Op (HostState A) (WireError A) (Unit {0})
  send_snapshot connection session hosted s = do
    state ← as_value (A.snapshot_value hosted.session)
    modify (send connection (ServerMessage.snapshot session s.sequence state))

  unfoldable pub replay_or_snapshot :
      ConnectionId → SessionId → Option EventSequence → Op (HostState A) (WireError A) (Unit {0})
  unfolding found send_snapshot
  replay_or_snapshot connection session after = do
    looked ← gets (λ h. Dict.get session h.sessions)
    hosted ← found looked
    listed ← gets (λ h. summary h session)
    s ← found listed
    elim (replay_from after hosted.events) [
      | none ↦ send_snapshot connection session hosted s
      | some events ↦ send_events connection session events
    ]
