-- ===== src/Tests/Witnesses.antt =====
-- src/resident/core.rs: the theorems on leases, requests and errors at concrete states.
use turtletap.Prelude.{
  ℕ, ◌≡◌, ◌≢◌, ◌↔◌, ◌<◌, refl, Bool, true, false, none, some, [], ◌∷◌, arith, ok, err, Result,
  ℕ_key, text_key,
}
use turtletap.Dict
use turtletap.HashSet
use turtletap.HashSet.{mem}
use turtletap.Protocol.{request_key, drive, AttachmentMode}
use turtletap.Core.Session.{SessionState, snapshot_of, summary, DriverChange}
use turtletap.Core.Ops.{
  LeaderCore, restore_session, disconnect, driver_busy, unknown_session, apply, duplicate,
  AttachOutcome, AttachError, attaches, unknown_connection,
}
use turtletap.Core.Attach.{attach, detach}
use turtletap.Core.Commit.{authorize, commit}
use turtletap.Core.Steps.{start, Step-IsValid, commits}
use turtletap.Core.Links.{subscribed_in}
use turtletap.Core.Disconnect.{driver_in}
use turtletap.Core.Fencing.{attach-fences, Later}
use turtletap.Core.Requests.{authorize-commit, commit_all}
use turtletap.Core.Recovery.{Restores, restore_session-snapshot}
use turtletap.Core.Errors.{attach-err, detach-err, attach-busy_iff, err_changes_nothing}
use turtletap.Core.Decisions.{
  authorize-apply_iff, authorize-attach, commit-fresh_sequence, sequence_in, disconnect_lem,
}
use turtletap.Tests.Core.{
  program, driven, taken, request, taken-IsValid, driven-IsValid, session_at, client_at,
}

abbrev committed : LeaderCore
committed = (commit 5 (request 4) taken).1

authorize-commit_example :
    authorize 2 5 0 (request 4) (commit_all 5 (request 5 ∷ request 6 ∷ []) committed)
    ≡ (ok (duplicate 1), commit_all 5 (request 5 ∷ request 6 ∷ []) committed)
unfolding program commit_all
authorize-commit_example =
    authorize-commit 5 (request 4) taken committed 1 (session_at taken) (request 5 ∷ request 6 ∷ [])
      2 (client_at 2 taken) 0 taken-IsValid.sound refl refl refl (omega arith) refl refl refl

abbrev takeover : AttachOutcome
takeover = outcome (attach 2 5 drive true driven).0
  where
    outcome : Result AttachError AttachOutcome → AttachOutcome
    outcome (ok a) = a
    outcome (err e) = record {
      session = summary (session_at driven);
      lease = none;
      driver_change = none;
    }

abbrev transition : DriverChange
transition = record {
  session = 5;
  lease = some (record { owner = 22; epoch = 2 });
  subscribers = HashSet.to_list (session_at taken).subscribers;
}

attach-fences_example : (authorize 1 5 1 (request 7) taken).0 ≢ ok apply
unfolding program
attach-fences_example =
    attach-fences 2 5 true driven taken (session_at driven) takeover refl refl transition taken 1 1
      (request 7) driven-IsValid refl (omega arith) (omega arith) Later.here

abbrev restarted : LeaderCore
restarted = (restore_session (snapshot_of (session_at committed)) (start 3)).1

restore_session-snapshot_example :
    (after : SessionState) × ((restore_session (snapshot_of (session_at committed)) (start 3)).0
      ≡ ok tt)
    × (Dict.get 5 restarted.sessions ≡ some after)
    × Restores (session_at committed) after
unfolding program
restore_session-snapshot_example =
    restore_session-snapshot committed (start 3) 5 (session_at committed)
      (snapshot_of (session_at committed)) refl refl refl
      ((Step-IsValid (commits 5 (request 4)) taken-IsValid).sound.at 5 (session_at committed) refl)
      refl refl

attach-err_example : (attach 2 5 drive false driven).1 ≡ driven
unfolding program
attach-err_example =
    attach-err 2 5 drive false driven (attach 2 5 drive false driven).1
      (driver_busy (record { owner = 11; epoch = 1 })) refl

detach-err_example : (detach 3 5 taken).1 ≡ taken
unfolding program
detach-err_example =
    detach-err 3 5 taken (detach 3 5 taken).1 unknown_connection taken-IsValid.linked refl

attach-busy_iff_example :
    ((attach 2 5 drive false driven).0 ≡ err (driver_busy (record { owner = 11; epoch = 1 }))) ↔ (
      (◌≡◌ {A = AttachmentMode} drive drive)
      × (◌≡◌ {A = Bool} false false)
      × ((session_at driven).driver ≡ some (record { owner = 11; epoch = 1 }))
      × (◌≢◌ {A = ℕ} 11 (client_at 2 driven).instance_id))
unfolding program
attach-busy_iff_example =
    attach-busy_iff 2 5 drive false driven (client_at 2 driven) (session_at driven)
      (record { owner = 11; epoch = 1 }) refl refl

authorize-apply_iff_example : (authorize 2 5 2 (request 4) taken ≡ (ok apply, taken)) ↔ (
    ((request 4).client ≡ (client_at 2 taken).instance_id)
    × (HashSet.contains 5 (client_at 2 taken).sessions ≡ true)
    × (Dict.get (request 4) (session_at taken).committed ≡ none)
    × ((session_at taken).driver
        ≡ some (record { owner = (client_at 2 taken).instance_id; epoch = 2 })))
unfolding program
authorize-apply_iff_example =
    authorize-apply_iff 2 5 2 (request 4) taken (client_at 2 taken) (session_at taken) refl refl

authorize-attach_example : (authorize 2 5 2 (request 4) taken).0 ≡ ok apply
unfolding program
authorize-attach_example =
    authorize-attach 2 5 true driven taken takeover 2 (client_at 2 driven) (session_at driven)
      (request 4) refl refl refl refl refl refl

commit-fresh_sequence_example :
    ((commit 5 (request 5) committed).0 ≡ ok 2)
    × (sequence_in (Dict.get 5 (commit 5 (request 5) committed).1.sessions) ≡ some 2)
    × (1 < 2)
unfolding program
commit-fresh_sequence_example =
    commit-fresh_sequence 5 (request 5) (request 4) committed (session_at committed)
      (Step-IsValid (commits 5 (request 4)) taken-IsValid).sound refl refl (omega arith)

disconnect_lem_example :
    (subscribed_in (Dict.get 5 (disconnect 2 taken).1.sessions) 2 ≡ false)
    × (driver_in (Dict.get 5 (disconnect 2 taken).1.sessions) ≡ none)
unfolding program Dict.any_value Dict.keys attaches
disconnect_lem_example = disconnect_lem 2 5 taken (client_at 2 taken) taken-IsValid.linked refl

err_changes_nothing_example : (commit 9 (request 4) taken).1 ≡ taken
unfolding program
err_changes_nothing_example =
    (err_changes_nothing taken (commit 9 (request 4) taken).1 unknown_session).5 9 (request 4) refl
