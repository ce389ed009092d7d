-- ===== src/Core/Sound/Writes.antt =====
-- src/resident/core.rs: the methods that write a log keep it sound.
use turtletap.Prelude.{
  ℕ, ◌≡◌, ◌≤◌, refl, Option, none, some, arith, ℕ_key, text_key, Bool-cases, Option-cases, inl, inr,
  dec_lt,
}
use turtletap.Dict
use turtletap.Dict.{Dict, dict_laws, get-empty}
use turtletap.HashSet.{mem}
use turtletap.Protocol.{
  SessionId, EventSequence, RequestId, request_key, Text, saturating_add, u64_max,
}
use turtletap.Protocol.Saturation.{saturating_add-ge, saturating_add-le_max}
use turtletap.Core.Names.{normalize_name, valid_name}
use turtletap.Core.Session.{SessionState, SessionControlSnapshot}
use turtletap.Core.Ops.{LeaderCore, create_session, restore_session, add_session, fresh_session}
use turtletap.Core.Commit.{commit, publish, replay, replay_in}
use turtletap.Core.Equations.{
  publish_missing, publish_found, commit_missing, commit_known, commit_fresh, replay_missing,
  replay_old, replay_newer, create_session_invalid, create_session_taken, create_session_free,
  restore_session_taken, restore_session_free,
}
use turtletap.Core.Logged.{Logged, Storable, remember-Logged, restored-Logged}
use turtletap.Core.Sound.{Logged-later, Sound, put-Sound}

pub publish-Sound : (id : SessionId) (c : LeaderCore) → Sound c → Sound (publish id c).1
publish-Sound id c h = elim (Option-cases (Dict.get id c.sessions)) [
  | inl missing ↦ rw (publish_missing id c missing) h
  | inr (s, e) ↦
      let log = h.at id s e in
      rw (publish_found id c s e) (
        put-Sound c id _ h (
          Logged-later c.deduplication_window s
            (record s { sequence = saturating_add s.sequence 1 }) refl refl
            (saturating_add-ge s.sequence 1 log.word) (saturating_add-le_max s.sequence 1) log))
]

commit_in-Sound :
    (id : SessionId) (request : RequestId) (c : LeaderCore) (s : SessionState)
    → Dict.get id c.sessions ≡ some s
    → Sound c
    → Sound (commit id request c).1
commit_in-Sound id request c s e h = elim (Option-cases (Dict.get request s.committed)) [
  | inr (old, known) ↦ rw (commit_known id c s request old e known) h
  | inl fresh ↦
      let log = h.at id s e in
      rw (commit_fresh id c s request e fresh) (
        put-Sound c id _ h (
          remember-Logged c.deduplication_window request (saturating_add s.sequence 1) s log fresh
            (saturating_add-ge s.sequence 1 log.word) (saturating_add-le_max s.sequence 1)))
]

pub commit-Sound :
    (id : SessionId) (request : RequestId) (c : LeaderCore)
    → Sound c
    → Sound (commit id request c).1
commit-Sound id request c h = elim (Option-cases (Dict.get id c.sessions)) [
  | inl missing ↦ rw (commit_missing id c request missing) h
  | inr (s, e) ↦ commit_in-Sound id request c s e h
]

-- A journal record carries a request that the checkpoint does not hold.
abbrev pub Unseen : Option RequestId → SessionState → Type 0
Unseen none s = Unit {0}
Unseen (some r) s = Dict.get r s.committed ≡ none

replay_in-Logged :
    (window : ℕ) (sequence : EventSequence) (request : Option RequestId) (s : SessionState)
    → Unseen request s
    → s.sequence ≤ sequence
    → sequence ≤ u64_max
    → Logged window s
    → Logged window (replay_in window sequence request s)
unfolding replay_in
replay_in-Logged window sequence none s unseen newer word log =
    Logged-later window s (record s { sequence = sequence }) refl refl newer word log
replay_in-Logged window sequence (some r) s unseen newer word log =
    remember-Logged window r sequence s log unseen newer word

pub replay-Sound :
    (id : SessionId) (sequence : EventSequence) (request : Option RequestId) (c : LeaderCore)
    → ((s : SessionState) → Dict.get id c.sessions ≡ some s → Unseen request s)
    → sequence ≤ u64_max
    → Sound c
    → Sound (replay id sequence request c).1
replay-Sound id sequence request c unseen word h = elim (Option-cases (Dict.get id c.sessions)) [
  | inl missing ↦ rw (replay_missing id c sequence request missing) h
  | inr (s, e) ↦ elim (dec_lt s.sequence sequence) [
    | no old ↦ rw (replay_old id c s sequence request e (omega arith)) h
    | yes newer ↦ rw (replay_newer id c s sequence request e newer) (
        put-Sound c id _ h (
          replay_in-Logged c.deduplication_window sequence request s (unseen s e) (omega arith) word
            (h.at id s e)))
  ]
]

add-Sound :
    (c : LeaderCore) (s : SessionState)
    → Sound c
    → Logged c.deduplication_window s
    → Sound (add_session s c)
add-Sound c s h new = record { at = (put-Sound c s.id s h new).at }

fresh_session-Logged :
    (window : ℕ) (id : SessionId) (name : Text) → Logged window (fresh_session id name)
unfolding fresh_session mem
fresh_session-Logged window id name = record {
  bounded = omega arith;
  distinct = tt;
  indexed = λ r. ground (arith, get-empty {V = EventSequence} r);
  past = λ r q e. ground (arith, get-empty {V = EventSequence} r);
  word = omega arith;
}

pub create_session-Sound :
    (id : SessionId) (given : Text) (c : LeaderCore) → Sound c → Sound (create_session id given c).1
create_session-Sound id given c h = elim (Bool-cases (valid_name (normalize_name given))) [
  | inr invalid ↦ rw (create_session_invalid id given c invalid) h
  | inl valid ↦ elim (Option-cases (Dict.get (normalize_name given) c.names)) [
    | inr (j, taken) ↦ rw (create_session_taken id given c j valid taken) h
    | inl free ↦
        rw (create_session_free id given c valid free)
          (add-Sound c _ h (fresh_session-Logged _ id (normalize_name given)))
  ]
]

pub restore_session-Sound :
    (snapshot : SessionControlSnapshot) (c : LeaderCore)
    → Storable c.deduplication_window snapshot
    → Sound c
    → Sound (restore_session snapshot c).1
restore_session-Sound snapshot c storable h =
    elim (Option-cases (Dict.get (normalize_name snapshot.name) c.names)) [
      | inr (j, taken) ↦ rw (restore_session_taken snapshot c j taken) h
      | inl free ↦
          rw (restore_session_free snapshot c free)
            (add-Sound c _ h (restored-Logged _ snapshot storable))
    ]
