-- ===== src/Core/Attach.antt =====
-- src/resident/core.rs: `attach`, `detach`, `release_driver` and `remove_session`.
use turtletap.Prelude.{
  Bool, false, Option, none, some, ◌==◌, if◌then◌else◌, Result, ok, err, Op, pure, fail, require,
  modify, ◌>>=◌, ◌>>◌, ℕ_key, text_key,
}
use turtletap.Dict
use turtletap.HashSet
use turtletap.Protocol.{
  SessionId, ConnectionId, LeaseEpoch, ClientInstanceId, DriverLease, AttachmentMode, drive, view,
  saturating_add,
}
use turtletap.Core.Session.{
  ClientState, SessionState, DriverChange, summary, driver_change, release_owned,
}
use turtletap.Core.Ops.{
  CoreError, unknown_connection, unknown_session, not_attached, not_driver, AttachError, core,
  driver_busy, AttachOutcome, LeaderCore, put_session, put_client, find_client, find_session,
}

-- The check before any change: a driver that another client holds, and no force.
refuse_busy :
    AttachmentMode
    → Bool
    → ClientInstanceId
    → Option DriverLease
    → Op LeaderCore AttachError (Unit {0})
refuse_busy drive false instance_id (some current) =
    if current.owner == instance_id then pure tt else fail (driver_busy current)
refuse_busy _ _ _ _ = pure tt

-- What the lease decision of `attach` yields: the session, the lease and the transition.
pub record Grant : Type 0 where
  pub session : SessionState
  pub lease : Option LeaseEpoch
  pub change : Option DriverChange

unfoldable pub take_lease : ClientInstanceId → SessionState → Grant
unfolding driver_change
take_lease instance_id s =
    let epoch = saturating_add s.lease_epoch 1 in
    let driven = record s {
      lease_epoch = epoch;
      driver = some (record { owner = instance_id; epoch = epoch });
    } in
    record { session = driven; lease = some epoch; change = some (driver_change driven) }

-- The `match session.driver` of a driving attachment.
unfoldable pub drive_lease : Bool → ClientInstanceId → SessionState → Result AttachError Grant
unfolding take_lease
drive_lease force instance_id s = elim s.driver [
  | none ↦ ok (take_lease instance_id s)
  | some current ↦
      if current.owner == instance_id
      then ok (record { session = s; lease = some current.epoch; change = none })
      else (if force then ok (take_lease instance_id s) else err (driver_busy current))
]

unfoldable pub lease_for :
    AttachmentMode → Bool → ClientInstanceId → SessionState → Result AttachError Grant
unfolding drive_lease
lease_for drive force instance_id s = drive_lease force instance_id s
lease_for view force instance_id s = ok (record { session = s; lease = none; change = none })

abbrev lift : {A : Type 0} → Result AttachError A → Op LeaderCore AttachError A
lift r c = (r, c)

unfoldable pub attach :
    ConnectionId → SessionId → AttachmentMode → Bool → Op LeaderCore AttachError AttachOutcome
unfolding refuse_busy lease_for summary
attach connection id mode force = do
  found ← find_client (core unknown_connection) connection
  existing ← find_session (core unknown_session) id
  refuse_busy mode force found.instance_id existing.driver
  client ← find_client (core unknown_connection) connection
  session ← find_session (core unknown_session) id
  let joined = record session { subscribers = HashSet.insert connection session.subscribers }
  modify (put_client connection (record client { sessions = HashSet.insert id client.sessions }))
  modify (put_session id joined)
  grant ← lift (lease_for mode force client.instance_id joined)
  modify (put_session id grant.session)
  pure (record {
    session = summary grant.session;
    lease = grant.lease;
    driver_change = grant.change;
  })

unfoldable pub detach : ConnectionId → SessionId → Op LeaderCore CoreError (Option DriverChange)
unfolding release_owned
detach connection id = do
  client ← find_client unknown_connection connection
  require (HashSet.contains id client.sessions) not_attached
  modify (put_client connection (record client { sessions = HashSet.remove id client.sessions }))
  session ← find_session unknown_session id
  let left = record session { subscribers = HashSet.remove connection session.subscribers }
  let released = release_owned client.instance_id left
  modify (put_session id released.0)
  pure released.1

or_not_driver :
    SessionId → SessionState × Option DriverChange → Op LeaderCore CoreError (Option DriverChange)
or_not_driver id (s, none) = fail not_driver
or_not_driver id (s, some change) = do modify (put_session id s); pure (some change)

unfoldable pub release_driver :
    ConnectionId → SessionId → Op LeaderCore CoreError (Option DriverChange)
unfolding release_owned or_not_driver
release_driver connection id = do
  client ← find_client unknown_connection connection
  require (HashSet.contains id client.sessions) not_attached
  session ← find_session unknown_session id
  or_not_driver id (release_owned client.instance_id session)

unfoldable pub forget_session : SessionId → ClientState → ClientState
forget_session id client = record client { sessions = HashSet.remove id client.sessions }

unfoldable pub remove_session : SessionId → Op LeaderCore CoreError (Unit {0})
unfolding forget_session
remove_session id = do
  session ← find_session unknown_session id
  modify (λ c. record c {
    sessions = Dict.remove id c.sessions;
    names = Dict.remove session.name c.names;
    clients = Dict.map_values (forget_session id) c.clients;
  })
