-- ===== src/Core/Commit.antt =====
-- src/resident/core.rs: `authorize`, `commit`, `publish`, `replay` and the queries.
use turtletap.Prelude.{
  ℕ, Bool, true, false, Option, none, some, List, ◌==◌, leb, Result, ok, err, Op, pure, fail,
  require, modify, gets, ◌>>=◌, ◌>>◌, ℕ_key,
}
use turtletap.Dict
use turtletap.HashSet
use turtletap.Protocol.{
  SessionId, ConnectionId, EventSequence, LeaseEpoch, RequestId, DriverLease, saturating_add,
  request_key,
}
use turtletap.Core.Session.{
  SessionControlSnapshot, ClientState, SessionState, snapshot_of, remember,
}
use turtletap.Core.Ops.{
  CoreError, unknown_connection, unknown_session, not_attached, not_driver, stale_lease,
  foreign_request, Authorization, apply, duplicate, LeaderCore, put_session, find_client,
  find_session,
}

-- `let driver = session.driver.ok_or(NotDriver)?` and the two checks of the lease.
check_lease : ClientState → LeaseEpoch → Option DriverLease → Op LeaderCore CoreError Authorization
check_lease client lease none = fail not_driver
check_lease client lease (some driver) = do
  require (driver.owner == client.instance_id) not_driver
  require (driver.epoch == lease) (stale_lease driver.epoch)
  pure apply

-- A request that is in the window is answered by its sequence, whoever drives now.
decide_request :
    ClientState
    → LeaseEpoch
    → SessionState
    → Option EventSequence
    → Op LeaderCore CoreError Authorization
decide_request client lease session (some sequence) = pure (duplicate sequence)
decide_request client lease session none = check_lease client lease session.driver

unfoldable pub authorize :
    ConnectionId → SessionId → LeaseEpoch → RequestId → Op LeaderCore CoreError Authorization
unfolding check_lease decide_request
authorize connection id lease request = do
  client ← find_client unknown_connection connection
  require (request.client == client.instance_id) foreign_request
  session ← find_session unknown_session id
  require (HashSet.contains id client.sessions) not_attached
  decide_request client lease session (Dict.get request session.committed)

-- The body of `commit` behind the session's look-up.
unfoldable pub commit_in :
    SessionId
    → RequestId
    → SessionState
    → Option EventSequence
    → Op LeaderCore CoreError EventSequence
unfolding remember
commit_in id request session (some sequence) = pure sequence
commit_in id request session none = do
  window ← gets (λ c. c.deduplication_window)
  let next = saturating_add session.sequence 1
  modify (put_session id (remember window request next session))
  pure next

unfoldable pub commit : SessionId → RequestId → Op LeaderCore CoreError EventSequence
unfolding commit_in
commit id request = do
  session ← find_session unknown_session id
  commit_in id request session (Dict.get request session.committed)

unfoldable pub publish : SessionId → Op LeaderCore CoreError EventSequence
publish id = do
  session ← find_session unknown_session id
  let next = saturating_add session.sequence 1
  modify (put_session id (record session { sequence = next }))
  pure next

-- A journal record of `sequence` that the checkpoint does not hold yet.
unfoldable pub replay_in : ℕ → EventSequence → Option RequestId → SessionState → SessionState
unfolding remember
replay_in window sequence none s = record s { sequence = sequence }
replay_in window sequence (some request) s = remember window request sequence s

replay_new :
    SessionId
    → EventSequence
    → Option RequestId
    → SessionState
    → Bool
    → Op LeaderCore CoreError (Unit {0})
replay_new id sequence request session true = pure tt
replay_new id sequence request session false =
    modify (λ c. put_session id (replay_in c.deduplication_window sequence request session) c)

unfoldable pub replay :
    SessionId → EventSequence → Option RequestId → Op LeaderCore CoreError (Unit {0})
unfolding replay_in replay_new
replay id sequence request = do
  session ← find_session unknown_session id
  replay_new id sequence request session (leb sequence session.sequence)

-- The queries leave the state alone.
unfoldable pub subscribers : LeaderCore → SessionId → Result CoreError (List ConnectionId)
subscribers c id = elim (Dict.get id c.sessions) [
  | none ↦ err unknown_session
  | some session ↦ ok (HashSet.to_list session.subscribers)
]

unfoldable pub snapshot : LeaderCore → SessionId → Result CoreError SessionControlSnapshot
unfolding snapshot_of
snapshot c id = elim (Dict.get id c.sessions) [
  | none ↦ err unknown_session
  | some session ↦ ok (snapshot_of session)
]
