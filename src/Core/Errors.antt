-- ===== src/Core/Errors.antt =====
-- src/resident/core.rs: a call that answers with an error changes nothing.
use turtletap.Prelude.{◌≡◌, ◌≢◌, ◌↔◌, Bool, false, Option, some, arith, ℕ_key, text_key, err}
use turtletap.Dict
use turtletap.Dict.{dict_laws}
use turtletap.Protocol.{
  SessionId, RequestId, request_key, ConnectionId, DriverLease, Text, EventSequence, AttachmentMode,
  drive,
}
use turtletap.Core.Session.{SessionState, SessionControlSnapshot, ClientState}
use turtletap.Core.Ops.{
  LeaderCore, CoreError, AttachError, driver_busy, create_session, restore_session, rename_session,
}
use turtletap.Core.Attach.{attach, detach, release_driver, remove_session}
use turtletap.Core.Commit.{commit, publish, replay}
use turtletap.Core.Links.{Linked}

-- A refused attachment leaves no subscription behind: `DriverBusy` is only ever answered by the
-- check that stands before the first change, on every branch of `attach`.
pub attach-err :
    (connection : ConnectionId) (id : SessionId) (mode : AttachmentMode) (force : Bool)
    (c d : LeaderCore) (e : AttachError)
    → attach connection id mode force c ≡ (err e, d)
    → d ≡ c
unfolding attach
attach-err connection id mode force c d e h = ground arith

-- `detach` takes the session off the client before it looks the session up. Where the two sides
-- of an attachment agree the look-up cannot fail, so here too an error changes nothing.
pub detach-err :
    (connection : ConnectionId) (id : SessionId) (c d : LeaderCore) (e : CoreError)
    → Linked c
    → detach connection id c ≡ (err e, d)
    → d ≡ c
unfolding detach
detach-err connection id c d e linked h = ground (arith, linked.at connection id)

-- create_session, restore_session, rename_session, remove_session, release_driver, commit, publish and
-- replay return the core that they were given when they answer with an error.
pub err_changes_nothing :
    (c d : LeaderCore) (e : CoreError)
    → ((id : SessionId) (given : Text) → create_session id given c ≡ (err e, d) → d ≡ c)
      × ((image : SessionControlSnapshot) → restore_session image c ≡ (err e, d) → d ≡ c)
      × ((id : SessionId) (given : Text) → rename_session id given c ≡ (err e, d) → d ≡ c)
      × ((id : SessionId) → remove_session id c ≡ (err e, d) → d ≡ c)
      × ((k : ConnectionId) (id : SessionId) → release_driver k id c ≡ (err e, d) → d ≡ c)
      × ((id : SessionId) (r : RequestId) → commit id r c ≡ (err e, d) → d ≡ c)
      × ((id : SessionId) → publish id c ≡ (err e, d) → d ≡ c)
      × ((id : SessionId) (q : EventSequence) (r : Option RequestId)
          → replay id q r c ≡ (err e, d)
          → d ≡ c)
unfolding create_session restore_session rename_session remove_session release_driver commit publish
    replay
err_changes_nothing c d e = (
  λ id given h. ground arith,
  λ image h. ground arith,
  λ id given h. ground arith,
  λ id h. ground arith,
  λ k id h. ground arith,
  λ id r h. ground arith,
  λ id h. ground arith,
  λ id q r h. ground arith,
)

-- `attach` answers `DriverBusy` exactly for a driving attachment, without force, to a session that
-- another client drives.
pub attach-busy_iff :
    (connection : ConnectionId) (id : SessionId) (mode : AttachmentMode) (force : Bool)
    (c : LeaderCore) (client : ClientState) (s : SessionState) (lease : DriverLease)
    → Dict.get connection c.clients ≡ some client
    → Dict.get id c.sessions ≡ some s
    → ((attach connection id mode force c).0 ≡ err (driver_busy lease)) ↔ (
        (mode ≡ drive)
        × (force ≡ false)
        × (s.driver ≡ some lease)
        × (lease.owner ≢ client.instance_id))
unfolding attach
attach-busy_iff connection id mode force c client s lease known at =
    ((λ h. (ground arith, ground arith, ground arith, ground arith)), λ h. ground arith)
