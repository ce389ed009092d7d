-- ===== src/Core/Fencing.antt =====
-- src/resident/core.rs: lease epochs as fencing tokens.
use turtletap.Prelude.{
  ◌≡◌, ◌≢◌, ◌≤◌, ◌<◌, subst, ap, Bool, some, arith, ℕ_key, text_key, ok, Option-cases, inl, inr,
}
use turtletap.Dict
use turtletap.Dict.{dict_laws}
use turtletap.Protocol.{SessionId, RequestId, request_key, ConnectionId, LeaseEpoch, u64_max, drive}
use turtletap.Protocol.Saturation.{saturation}
use turtletap.Core.Session.{SessionState, DriverChange}
use turtletap.Core.Ops.{
  LeaderCore, apply, create_session, restore_session, rename_session, connect, AttachOutcome,
}
use turtletap.Core.Attach.{attach, detach, release_driver, remove_session}
use turtletap.Core.Commit.{authorize}
use turtletap.Core.Disconnect.{disconnect-kept}
use turtletap.Core.Steady.{
  Steady, commit-Steady, publish-Steady, replay-Steady, stamp_activity-Steady,
}
use turtletap.Core.Steps.{
  Step, connects, disconnects, creates, restores, renames, removes, attaches, detaches, releases,
  commits, publishes, replays, stamps, IsValid, Step-IsValid,
}

abbrev EpochsRise : LeaderCore → LeaderCore → Type 0
EpochsRise c d =
    (id : SessionId) (s t : SessionState)
    → Dict.get id c.sessions ≡ some s
    → Dict.get id d.sessions ≡ some t
    → s.lease_epoch ≤ t.lease_epoch

Steady-EpochsRise : {c d : LeaderCore} → Steady c d → EpochsRise c d
Steady-EpochsRise same id s t e f = grind (arith, same.frames id)

-- No call lowers the epoch of a session that it leaves in place.
pub Step-EpochsRise : {c d : LeaderCore} → IsValid c → Step c d → EpochsRise c d
Step-EpochsRise {c} v (connects connection instance_id fresh) id s t e f =
    unfold connect in grind arith
Step-EpochsRise {c} v (disconnects connection) id s t e f =
    grind (arith, disconnect-kept connection c id)
Step-EpochsRise {c} v (creates j given fresh) id s t e f =
    unfold create_session in grind (arith, dict_laws)
Step-EpochsRise {c} v (restores image fresh storable) id s t e f =
    unfold restore_session in grind (arith, dict_laws)
Step-EpochsRise {c} v (renames j given) id s t e f =
    unfold rename_session in grind (arith, dict_laws)
Step-EpochsRise {c} v (removes j) id s t e f = unfold remove_session in grind (arith, dict_laws)
Step-EpochsRise {c} v (attaches connection j mode force) id s t e f =
    unfold attach in grind (arith, dict_laws, saturation, v.driven.word id s)
Step-EpochsRise {c} v (detaches connection j) id s t e f = unfold detach in grind (arith, dict_laws)
Step-EpochsRise {c} v (releases connection j) id s t e f =
    unfold release_driver in grind (arith, dict_laws)
Step-EpochsRise {c} v (commits j request) id s t e f =
    Steady-EpochsRise (commit-Steady j request c) id s t e f
Step-EpochsRise {c} v (publishes j) id s t e f = Steady-EpochsRise (publish-Steady j c) id s t e f
Step-EpochsRise {c} v (replays j sequence request unseen word) id s t e f =
    Steady-EpochsRise (replay-Steady j sequence request c) id s t e f
Step-EpochsRise {c} v (stamps j millis) id s t e f =
    Steady-EpochsRise (stamp_activity-Steady j millis c) id s t e f

-- Any number of calls, the session being there after each.
pub data Later (id : SessionId) (c : LeaderCore) : LeaderCore → Type 0 where
  here : Later id c c
  next :
      {d e : LeaderCore}
      → Later id c d
      → Step d e
      → (t : SessionState) → Dict.get id e.sessions ≡ some t
      → Later id c e

pub Later-IsValid : {id : SessionId} {c d : LeaderCore} → IsValid c → Later id c d → IsValid d
Later-IsValid v here = v
Later-IsValid v (next l step t e) = Step-IsValid step (Later-IsValid v l)

Later-epoch :
    {id : SessionId} {c d : LeaderCore} (s : SessionState)
    → IsValid c
    → Dict.get id c.sessions ≡ some s
    → Later id c d
    → (t : SessionState) × (Dict.get id d.sessions ≡ some t) × (s.lease_epoch ≤ t.lease_epoch)
Later-epoch s v e here = (s, e, omega arith)
Later-epoch {id} s v e (next l step t f) =
    let (u, at, below) = Later-epoch s v e l in
    let rise = Step-EpochsRise (Later-IsValid v l) step id u t at f in (t, f, omega arith)

-- A command that is to be applied carries the session's current epoch.
authorize-epoch :
    (connection : ConnectionId) (id : SessionId) (lease : LeaseEpoch) (request : RequestId)
    (d : LeaderCore) (t : SessionState)
    → IsValid d
    → Dict.get id d.sessions ≡ some t
    → (authorize connection id lease request d).0 ≡ ok apply
    → lease ≡ t.lease_epoch
unfolding authorize
authorize-epoch connection id lease request d t v e h = grind (arith, v.driven.epoch id t)

-- In a valid core, a lease older than a session's epoch is never again accepted for a new command, whatever is
-- called meanwhile and whoever sends it, as long as the session is not removed.
pub authorize-stale :
    (c d : LeaderCore) (id : SessionId) (s : SessionState) (lease : LeaseEpoch)
    (connection : ConnectionId) (request : RequestId)
    → IsValid c
    → Dict.get id c.sessions ≡ some s
    → lease < s.lease_epoch
    → Later id c d
    → (authorize connection id lease request d).0 ≢ ok apply
authorize-stale c d id s lease connection request v e old l h =
    let (t, at, below) = Later-epoch s v e l in
    let current = authorize-epoch connection id lease request d t (Later-IsValid v l) at h in
    omega arith

module _ (connection : ConnectionId) (id : SessionId) (force : Bool) (c d : LeaderCore)
    (s : SessionState) (outcome : AttachOutcome) (at : Dict.get id c.sessions ≡ some s)
    (granted : attach connection id drive force c ≡ (ok outcome, d)) where
  take_epoch :
      (change : DriverChange)
      → outcome.driver_change ≡ some change
      → s.lease_epoch < u64_max
      → (t : SessionState) × (Dict.get id d.sessions ≡ some t) × (s.lease_epoch < t.lease_epoch)
  unfolding attach
  take_epoch change changed room = elim (Option-cases (Dict.get id d.sessions)) [
    | inl missing ↦ absurd (grind (arith, dict_laws))
    | inr (t, e) ↦ (t, e, grind (arith, dict_laws, saturation))
  ]

  -- In a valid core, when a driving attachment changes the driver of a session whose epoch is below the
  -- limit of u64, every lease of an epoch up to the one before is dead: no later call accepts a new
  -- command under it, as long as the session is not removed.
  pub attach-fences :
      (change : DriverChange) (e : LeaderCore) (lease : LeaseEpoch) (other : ConnectionId)
      (request : RequestId)
      → IsValid c
      → outcome.driver_change ≡ some change
      → s.lease_epoch < u64_max
      → lease ≤ s.lease_epoch
      → Later id d e
      → (authorize other id lease request e).0 ≢ ok apply
  attach-fences change e lease other request v changed room old l =
      let (t, f, higher) = take_epoch change changed room in
      let valid : IsValid d =
        subst IsValid (ap (λ r. r.1) granted)
          (Step-IsValid (attaches connection id drive force) v) in
      authorize-stale d e id t lease other request valid f (omega arith) l
