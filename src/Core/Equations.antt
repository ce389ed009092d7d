-- ===== src/Core/Equations.antt =====
-- src/resident/core.rs: `commit`, `publish` and `replay` as equations, case by case.
use turtletap.Prelude.{
  ◌≡◌, ◌≤◌, ◌<◌, true, false, Option, none, some, arith, ℕ_key, text_key, ok, err,
}
use turtletap.Dict
use turtletap.Protocol.{Text, SessionId, EventSequence, RequestId, request_key, saturating_add}
use turtletap.Core.Names.{normalize_name, valid_name}
use turtletap.Core.Session.{SessionState, SessionControlSnapshot, remember, summary}
use turtletap.Core.Ops.{
  LeaderCore, put_session, unknown_session, invalid_name, duplicate_name, create_session,
  restore_session, restored, fresh_session, add_session,
}
use turtletap.Core.Commit.{commit, publish, replay, replay_in}

module _ (id : SessionId) (c : LeaderCore) where
  pub publish_missing : Dict.get id c.sessions ≡ none → publish id c ≡ (err unknown_session, c)
  unfolding publish
  publish_missing e = ground arith

  pub commit_missing :
      (request : RequestId)
      → Dict.get id c.sessions ≡ none
      → commit id request c ≡ (err unknown_session, c)
  unfolding commit
  commit_missing request e = ground arith

  pub replay_missing :
      (sequence : EventSequence) (request : Option RequestId)
      → Dict.get id c.sessions ≡ none
      → replay id sequence request c ≡ (err unknown_session, c)
  unfolding replay
  replay_missing sequence request e = ground arith

module _ (id : SessionId) (c : LeaderCore) (s : SessionState) where
  pub publish_found :
      Dict.get id c.sessions ≡ some s
      → publish id c ≡ (
        ok (saturating_add s.sequence 1),
        put_session id (record s { sequence = saturating_add s.sequence 1 }) c,
      )
  unfolding publish
  publish_found e = ground arith

  pub commit_known :
      (request : RequestId) (sequence : EventSequence)
      → Dict.get id c.sessions ≡ some s
      → Dict.get request s.committed ≡ some sequence
      → commit id request c ≡ (ok sequence, c)
  unfolding commit
  commit_known request sequence e known = ground arith

  pub commit_fresh :
      (request : RequestId)
      → Dict.get id c.sessions ≡ some s
      → Dict.get request s.committed ≡ none
      → commit id request c ≡ (
        ok (saturating_add s.sequence 1),
        put_session id (remember c.deduplication_window request (saturating_add s.sequence 1) s) c,
      )
  unfolding commit
  commit_fresh request e fresh = ground arith

  pub replay_old :
      (sequence : EventSequence) (request : Option RequestId)
      → Dict.get id c.sessions ≡ some s
      → sequence ≤ s.sequence
      → replay id sequence request c ≡ (ok tt, c)
  unfolding replay
  replay_old sequence request e old = ground arith

  pub replay_newer :
      (sequence : EventSequence) (request : Option RequestId)
      → Dict.get id c.sessions ≡ some s
      → s.sequence < sequence
      → replay id sequence request c
        ≡ (ok tt, put_session id (replay_in c.deduplication_window sequence request s) c)
  unfolding replay
  replay_newer sequence request e newer = ground arith

module _ (id : SessionId) (given : Text) (c : LeaderCore) where
  pub create_session_invalid :
      valid_name (normalize_name given) ≡ false → create_session id given c ≡ (err invalid_name, c)
  unfolding create_session
  create_session_invalid e = ground arith

  pub create_session_taken :
      (j : SessionId)
      → valid_name (normalize_name given) ≡ true
      → Dict.get (normalize_name given) c.names ≡ some j
      → create_session id given c ≡ (err duplicate_name, c)
  unfolding create_session
  create_session_taken j e taken = ground arith

  pub create_session_free :
      valid_name (normalize_name given) ≡ true
      → Dict.get (normalize_name given) c.names ≡ none
      → create_session id given c ≡ (
        ok (summary (fresh_session id (normalize_name given))),
        add_session (fresh_session id (normalize_name given)) c,
      )
  unfolding create_session
  create_session_free e free = ground arith

module _ (snapshot : SessionControlSnapshot) (c : LeaderCore) where
  pub restore_session_taken :
      (j : SessionId)
      → Dict.get (normalize_name snapshot.name) c.names ≡ some j
      → restore_session snapshot c ≡ (err duplicate_name, c)
  unfolding restore_session
  restore_session_taken j taken = ground arith

  pub restore_session_free :
      Dict.get (normalize_name snapshot.name) c.names ≡ none
      → restore_session snapshot c ≡ (ok tt, add_session (restored snapshot) c)
  unfolding restore_session
  restore_session_free free = ground arith
