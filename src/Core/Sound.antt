-- ===== src/Core/Sound.antt =====
-- src/resident/core.rs: the logs of all sessions are sound. The methods that leave them alone are in
-- Quiet, those that write them in Writes.
pub mod Quiet
pub mod Writes
use turtletap.Prelude.{
  ℕ, ◌≡◌, ◌≤◌, refl, Bool, Option, none, some, List, arith, ℕ_key, text_key, Bool-cases,
  Option-cases, inl, inr, subst, ℕ_discrete, dec_lt,
}
use turtletap.Dict
use turtletap.Dict.{Dict, dict_laws, get-empty}
use turtletap.HashSet.{mem}
use turtletap.Protocol.{
  SessionId, EventSequence, RequestId, request_key, AttachmentMode, ConnectionId, ClientInstanceId,
  Text, saturating_add, u64_max,
}
use turtletap.Protocol.Saturation.{saturating_add-ge, saturating_add-le_max}
use turtletap.Core.Names.{normalize_name, valid_name}
use turtletap.Core.Session.{SessionState, SessionControlSnapshot}
use turtletap.Core.Ops.{
  LeaderCore, stamp_activity, create_session, restore_session, rename_session, connect, disconnect,
  put_session, add_session, fresh_session,
}
use turtletap.Core.Attach.{attach, detach, release_driver, remove_session}
use turtletap.Core.Commit.{commit, publish, replay, replay_in}
use turtletap.Core.Equations.{
  publish_missing, publish_found, commit_missing, commit_known, commit_fresh, replay_missing,
  replay_old, replay_newer, create_session_invalid, create_session_taken, create_session_free,
  restore_session_taken, restore_session_free,
}
use turtletap.Core.Disconnect.{disconnect-kept, disconnect-window}
use turtletap.Core.Logged.{Logged, Storable, remember-Logged, restored-Logged}

pub record Sound (c : LeaderCore) : Type 0 where
  pub at :
      (id : SessionId) (s : SessionState)
      → Dict.get id c.sessions ≡ some s
      → Logged c.deduplication_window s

pub put-Sound :
    (c : LeaderCore) (id : SessionId) (s : SessionState)
    → Sound c
    → Logged c.deduplication_window s
    → Sound (put_session id s c)
put-Sound c id s h new = record {
  at = λ j t e. elim (ℕ_discrete id j) [
    | yes same ↦ subst (Logged c.deduplication_window) (grind (arith, dict_laws)) new
    | no other ↦ h.at j t (grind (arith, dict_laws))
  ];
}

pub Logged-later :
    (window : ℕ) (s s' : SessionState)
    → s'.commit_order ≡ s.commit_order
    → s'.committed ≡ s.committed
    → s.sequence ≤ s'.sequence
    → s'.sequence ≤ u64_max
    → Logged window s
    → Logged window s'
Logged-later window s s' order committed later word h = record {
  bounded = rw order h.bounded;
  distinct = rw order h.distinct;
  indexed = λ r. rw (order, committed) (h.indexed r);
  past = λ r q e. ground (arith, h.past r q, committed);
  word = word;
}
