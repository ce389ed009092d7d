-- ===== src/Core/Decisions.antt =====
-- src/resident/core.rs: what `authorize`, `commit` and the lease operations decide, in full.
use turtletap.Prelude.{
  ◌+◌, ◌≡◌, ◌↔◌, ◌<◌, Bool, true, false, none, some, arith, ℕ_key, Option, Option-cases, inl, inr,
  text_key, ok, if◌then◌else◌,
}
use turtletap.Dict
use turtletap.Dict.{dict_laws}
use turtletap.HashSet
use turtletap.HashSet.{set_laws}
use turtletap.Protocol.{
  SessionId, RequestId, request_key, ConnectionId, LeaseEpoch, DriverLease, EventSequence, drive,
  u64_max,
}
use turtletap.Protocol.Saturation.{saturating_add-one}
use turtletap.Core.Session.{remember, SessionState, ClientState}
use turtletap.Core.Ops.{LeaderCore, apply, AttachOutcome, disconnect}
use turtletap.Core.Attach.{attach, release_driver}
use turtletap.Core.Commit.{authorize, commit}
use turtletap.Core.Equations.{commit_fresh}
use turtletap.Core.Links.{Linked, subscribed_in}
use turtletap.Core.Present.{present}
use turtletap.Core.Disconnect.{disconnect-driver, disconnect-subscribed, driver_in, lease_left}
use turtletap.Core.Sound.{Sound}

-- A command is applied exactly if it comes from a known connection, under the client's own request
-- identity, to a session that the connection is attached to, is not committed yet, and carries the
-- lease that this client holds.
pub authorize-apply_iff :
    (connection : ConnectionId) (id : SessionId) (lease : LeaseEpoch) (request : RequestId)
    (c : LeaderCore) (client : ClientState) (s : SessionState)
    → Dict.get connection c.clients ≡ some client
    → Dict.get id c.sessions ≡ some s
    → (authorize connection id lease request c ≡ (ok apply, c)) ↔ (
        (request.client ≡ client.instance_id)
        × (HashSet.contains id client.sessions ≡ true)
        × (Dict.get request s.committed ≡ none)
        × (s.driver ≡ some (record { owner = client.instance_id; epoch = lease })))
unfolding authorize
authorize-apply_iff connection id lease request c client s known at =
    ((λ h. (ground arith, ground arith, ground arith, ground arith)), λ h. ground arith)

-- A driving attachment that succeeds hands out a lease under which the connection's next new
-- request is accepted.
pub authorize-attach :
    (connection : ConnectionId) (id : SessionId) (force : Bool) (c d : LeaderCore)
    (outcome : AttachOutcome) (lease : LeaseEpoch) (client : ClientState) (s : SessionState)
    (request : RequestId)
    → Dict.get connection c.clients ≡ some client
    → Dict.get id c.sessions ≡ some s
    → attach connection id drive force c ≡ (ok outcome, d)
    → outcome.lease ≡ some lease
    → request.client ≡ client.instance_id
    → Dict.get request s.committed ≡ none
    → (authorize connection id lease request d).0 ≡ ok apply
unfolding attach authorize
authorize-attach connection id force c d outcome lease client s request known at joined given mine
      new =
    grind (arith, dict_laws, set_laws)

-- A request, if it was committed, has a sequence before another.
abbrev pub Before : Option EventSequence → EventSequence → Type 0
Before none q = Unit {0}
Before (some v) q = v < q

abbrev pub sequence_in : Option SessionState → Option EventSequence
sequence_in none = none
sequence_in (some s) = some s.sequence

-- In a sound core, for a session that is there and has not reached the u64 limit: the commit of a
-- request that is not remembered succeeds with the sequence after the session's, which is the
-- session's sequence from then on, and any request that is remembered has a smaller one.
pub commit-fresh_sequence :
    (id : SessionId) (r p : RequestId) (c : LeaderCore) (s : SessionState)
    → Sound c
    → Dict.get id c.sessions ≡ some s
    → Dict.get r s.committed ≡ none
    → s.sequence < u64_max
    → ((commit id r c).0 ≡ ok (s.sequence + 1))
      × (sequence_in (Dict.get id (commit id r c).1.sessions) ≡ some (s.sequence + 1))
      × Before (Dict.get p s.committed) (s.sequence + 1)
unfolding remember
commit-fresh_sequence id r p c s sound at fresh room =
    let fact = commit_fresh id c s r at fresh in
    let step = saturating_add-one s.sequence room in
    (
      rw (fact, step),
      rw (fact, step) (grind (arith, dict_laws)),
      elim (Option-cases (Dict.get p s.committed)) [
        | inl never ↦ rw never tt
        | inr (v, old) ↦ let below = (sound.at id s at).past p v old in rw old (omega arith)
      ],
    )

-- `release_driver` takes the lease from its holder and keeps it attached.
pub release_driver-ok :
    (connection : ConnectionId) (id : SessionId) (c : LeaderCore) (client : ClientState)
    (s : SessionState) (lease : DriverLease)
    → Dict.get connection c.clients ≡ some client
    → HashSet.contains id client.sessions ≡ true
    → Dict.get id c.sessions ≡ some s
    → s.driver ≡ some lease
    → lease.owner ≡ client.instance_id
    → (driver_in (Dict.get id (release_driver connection id c).1.sessions) ≡ none)
      × (subscribed_in (Dict.get id (release_driver connection id c).1.sessions) connection
          ≡ subscribed_in (Dict.get id c.sessions) connection)
      × ((release_driver connection id c).1.clients ≡ c.clients)
unfolding release_driver
release_driver-ok connection id c client s lease known inside at drives mine =
    (grind (arith, dict_laws), grind (arith, dict_laws), ground arith)

-- `disconnect` ends every subscription of the connection, and frees exactly the leases whose owner
-- has no other connection attached to the session; other sessions keep their driver.
pub disconnect_lem :
    (connection : ConnectionId) (id : SessionId) (c : LeaderCore) (client : ClientState)
    → Linked c
    → Dict.get connection c.clients ≡ some client
    → (subscribed_in (Dict.get id (disconnect connection c).1.sessions) connection ≡ false)
      × (driver_in (Dict.get id (disconnect connection c).1.sessions) ≡ (
          if HashSet.contains id client.sessions
          then lease_left
              (present (Dict.remove connection c.clients) client.instance_id id)
              client.instance_id
              (driver_in (Dict.get id c.sessions))
          else driver_in (Dict.get id c.sessions)))
disconnect_lem connection id c client linked known = (
  ground (
    arith,
    disconnect-subscribed connection c client id connection known,
    linked.at connection id,
  ),
  disconnect-driver connection c client id known,
)
