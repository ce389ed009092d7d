-- ===== src/Core/Session.antt =====
-- src/resident/core.rs: `SessionState`, `SessionControlSnapshot` and the deduplication window.
use turtletap.Prelude.{ℕ, Option, none, some, List, [], ◌∷◌, ◌++◌, length, ltb, ◌==◌, if◌then◌else◌}
use turtletap.Dict
use turtletap.Dict.{Dict}
use turtletap.HashSet
use turtletap.HashSet.{HashSet}
use turtletap.Protocol.{
  Text, SessionId, ConnectionId, EventSequence, LeaseEpoch, RequestId, DriverLease, SessionSummary,
  ClientInstanceId, request_key,
}

pub record SessionControlSnapshot : Type 0 where
  pub id : SessionId
  pub name : Text
  pub sequence : EventSequence
  pub last_event_at : Option ℕ
  pub lease_epoch : LeaseEpoch
  pub committed : List (RequestId × EventSequence)

pub record ClientState : Type 0 where
  pub instance_id : ClientInstanceId
  pub sessions : HashSet SessionId

pub record SessionState : Type 0 where
  pub id : SessionId
  pub name : Text
  pub subscribers : HashSet ConnectionId
  pub driver : Option DriverLease
  pub lease_epoch : LeaseEpoch
  pub sequence : EventSequence
  pub last_event_at : Option ℕ
  pub committed : Dict RequestId EventSequence
  pub commit_order : List RequestId

pub record DriverChange : Type 0 where
  pub session : SessionId
  pub lease : Option DriverLease
  pub subscribers : List ConnectionId

unfoldable pub summary : SessionState → SessionSummary
summary s = record {
  id = s.id;
  name = s.name;
  driver = s.driver;
  attached_clients = HashSet.len s.subscribers;
  sequence = s.sequence;
  last_event_at = s.last_event_at;
}

-- The pairs of the requests that are still in the map, oldest first.
unfoldable pub retained :
    List RequestId → Dict RequestId EventSequence → List (RequestId × EventSequence)
retained [] m = []
retained (r ∷ rs) m = elim (Dict.get r m) [
  | none ↦ retained rs m
  | some sequence ↦ (r, sequence) ∷ retained rs m
]

unfoldable pub snapshot_of : SessionState → SessionControlSnapshot
unfolding retained
snapshot_of s = record {
  id = s.id;
  name = s.name;
  sequence = s.sequence;
  last_event_at = s.last_event_at;
  lease_epoch = s.lease_epoch;
  committed = retained s.commit_order s.committed;
}

unfoldable pub driver_change : SessionState → DriverChange
driver_change s = record {
  session = s.id;
  lease = s.driver;
  subscribers = HashSet.to_list s.subscribers;
}

-- The loop that `commit` and `replay` share: the oldest requests leave while there are more than
-- `window` of them.
unfoldable pub expire :
    ℕ
    → List RequestId
    → Dict RequestId EventSequence
    → List RequestId × Dict RequestId EventSequence
expire window [] m = ([], m)
expire window (r ∷ rs) m =
    let rest = expire window rs (Dict.remove r m) in
    if ltb window (length (r ∷ rs)) then rest else (r ∷ rs, m)

-- The request and its sequence are written, and the window is cut.
unfoldable pub remember : ℕ → RequestId → EventSequence → SessionState → SessionState
unfolding expire
remember window request sequence s =
    let kept =
      expire window (s.commit_order ++ request ∷ []) (Dict.insert request sequence s.committed) in
    record s { sequence = sequence; commit_order = kept.0; committed = kept.1 }

-- A lease of this client is dropped, and the transition that is to be broadcast returned.
unfoldable pub release_owned : ClientInstanceId → SessionState → SessionState × Option DriverChange
unfolding driver_change
release_owned owner s = elim s.driver [
  | none ↦ (s, none)
  | some lease ↦
      if lease.owner == owner
      then (let released = record s { driver = none } in (released, some (driver_change released)))
      else (s, none)
]
