-- ===== src/Core/Steps.antt =====
-- src/resident/core.rs: the histories of a leader core. A step is one call of a method, whatever it
-- answers; its premises are what the callers provide.
use turtletap.Prelude.{◌≡◌, ◌≤◌, ℕ, Bool, Option, none, some, ℕ_key, text_key, arith}
use turtletap.Dict
use turtletap.Dict.{get-empty}
use turtletap.Protocol.{
  SessionId, EventSequence, RequestId, request_key, AttachmentMode, ConnectionId, ClientInstanceId,
  Text, u64_max,
}
use turtletap.Core.Session.{ClientState, SessionState, SessionControlSnapshot}
use turtletap.Core.Ops.{
  LeaderCore, new, with_deduplication_window, stamp_activity, create_session, restore_session,
  rename_session, connect, disconnect,
}
use turtletap.Core.Attach.{attach, detach, release_driver, remove_session}
use turtletap.Core.Commit.{commit, publish, replay}
use turtletap.Core.Links
use turtletap.Core.Links.{Linked}
use turtletap.Core.Naming
use turtletap.Core.Naming.{Named}
use turtletap.Core.Driven
use turtletap.Core.Driven.{Driven}
use turtletap.Core.Disconnect.{disconnect-Linked}
use turtletap.Core.Steady.{
  commit-Steady, publish-Steady, replay-Steady, stamp_activity-Steady, Steady-Linked, Steady-Named,
  Steady-Driven, Steady,
}
use turtletap.Core.Logged.{Storable}
use turtletap.Core.Sound.Quiet
use turtletap.Core.Sound.Writes
use turtletap.Core.Sound.{Sound}
use turtletap.Core.Sound.Writes.{Unseen}

pub data Step (c : LeaderCore) : LeaderCore → Type 0 where
  connects :
      (connection : ConnectionId) (instance_id : ClientInstanceId)
      → Dict.get connection c.clients ≡ none
      → Step c (connect connection instance_id c)
  disconnects : (connection : ConnectionId) → Step c (disconnect connection c).1
  creates :
      (id : SessionId) (given : Text)
      → Dict.get id c.sessions ≡ none
      → Step c (create_session id given c).1
  restores :
      (image : SessionControlSnapshot)
      → Dict.get image.id c.sessions ≡ none
      → Storable c.deduplication_window image
      → Step c (restore_session image c).1
  renames : (id : SessionId) (given : Text) → Step c (rename_session id given c).1
  removes : (id : SessionId) → Step c (remove_session id c).1
  attaches :
      (connection : ConnectionId) (id : SessionId) (mode : AttachmentMode) (force : Bool)
      → Step c (attach connection id mode force c).1
  detaches : (connection : ConnectionId) (id : SessionId) → Step c (detach connection id c).1
  releases :
      (connection : ConnectionId) (id : SessionId) → Step c (release_driver connection id c).1
  commits : (id : SessionId) (request : RequestId) → Step c (commit id request c).1
  publishes : (id : SessionId) → Step c (publish id c).1
  replays :
      (id : SessionId) (sequence : EventSequence) (request : Option RequestId)
      → ((s : SessionState) → Dict.get id c.sessions ≡ some s → Unseen request s)
      → sequence ≤ u64_max
      → Step c (replay id sequence request c).1
  stamps : (id : SessionId) (millis : ℕ) → Step c (stamp_activity id millis c)

pub data Reach (c : LeaderCore) : LeaderCore → Type 0 where
  here : Reach c c
  next : {d e : LeaderCore} → Reach c d → Step d e → Reach c e

-- The whole invariant.
pub record IsValid (c : LeaderCore) : Type 0 where
  pub linked : Linked c
  pub named : Named c
  pub driven : Driven c
  pub sound : Sound c

abbrev pub start : ℕ → LeaderCore
start window = with_deduplication_window new window

start-IsValid : (window : ℕ) → IsValid (start window)
unfolding new with_deduplication_window
start-IsValid window = record {
  linked = record {
    at = λ k j. grind (arith, get-empty {V = ClientState} k, get-empty {V = SessionState} j);
  };
  named = record {
    found = λ j s e. grind (arith, get-empty {V = SessionState} j);
    owned = λ n j e. grind (arith, get-empty {V = SessionId} n);
    identity = λ j s e. grind (arith, get-empty {V = SessionState} j);
    normal = λ j s e. grind (arith, get-empty {V = SessionState} j);
  };
  driven = record {
    epoch = λ j s lease e d. grind (arith, get-empty {V = SessionState} j);
    owner = λ j s lease e d. absurd (grind (arith, get-empty {V = SessionState} j));
    word = λ j s e. grind (arith, get-empty {V = SessionState} j);
  };
  sound = record { at = λ j s e. absurd (grind (arith, get-empty {V = SessionState} j)) };
}

steady : {c d : LeaderCore} → Steady c d → IsValid c → Sound d → IsValid d
steady same v sound = record {
  linked = Steady-Linked same v.linked;
  named = Steady-Named same v.named;
  driven = Steady-Driven same v.driven;
  sound = sound;
}

-- Every call keeps the invariant, whether it succeeds or fails.
pub Step-IsValid : {c d : LeaderCore} → Step c d → IsValid c → IsValid d
Step-IsValid {c} (connects connection instance_id fresh) v = record {
  linked = Links.connect-Linked connection instance_id c fresh v.linked;
  named =
      unfold connect in
      record {
        found = v.named.found;
        owned = v.named.owned;
        identity = v.named.identity;
        normal = v.named.normal;
      };
  driven = Driven.connect-Driven connection instance_id c fresh v.driven;
  sound = Quiet.connect-Sound connection instance_id c v.sound;
}
Step-IsValid {c} (disconnects connection) v = record {
  linked = disconnect-Linked connection c v.linked;
  named = Naming.disconnect-Named connection c v.named;
  driven = Driven.disconnect-Driven connection c v.driven;
  sound = Quiet.disconnect-Sound connection c v.sound;
}
Step-IsValid {c} (creates id given fresh) v = record {
  linked = Links.create_session-Linked id given c fresh v.linked;
  named = Naming.create_session-Named id given c fresh v.named;
  driven = Driven.create_session-Driven id given c v.driven;
  sound = Writes.create_session-Sound id given c v.sound;
}
Step-IsValid {c} (restores image fresh storable) v = record {
  linked = Links.restore_session-Linked image c fresh v.linked;
  named = Naming.restore_session-Named image c fresh v.named;
  driven = Driven.restore_session-Driven image c v.driven;
  sound = Writes.restore_session-Sound image c storable v.sound;
}
Step-IsValid {c} (renames id given) v = record {
  linked = Links.rename_session-Linked id given c v.linked;
  named = Naming.rename_session-Named id given c v.named;
  driven = Driven.rename_session-Driven id given c v.driven;
  sound = Quiet.rename_session-Sound id given c v.sound;
}
Step-IsValid {c} (removes id) v = record {
  linked = Links.remove_session-Linked id c v.linked;
  named = Naming.remove_session-Named id c v.named;
  driven = Driven.remove_session-Driven id c v.driven;
  sound = Quiet.remove_session-Sound id c v.sound;
}
Step-IsValid {c} (attaches connection id mode force) v = record {
  linked = Links.attach-Linked connection id mode force c v.linked;
  named = Naming.attach-Named connection id mode force c v.named;
  driven = Driven.attach-Driven connection id mode force c v.driven;
  sound = Quiet.attach-Sound connection id mode force c v.sound;
}
Step-IsValid {c} (detaches connection id) v = record {
  linked = Links.detach-Linked connection id c v.linked;
  named = Naming.detach-Named connection id c v.named;
  driven = Driven.detach-Driven connection id c v.driven;
  sound = Quiet.detach-Sound connection id c v.sound;
}
Step-IsValid {c} (releases connection id) v = record {
  linked = Links.release_driver-Linked connection id c v.linked;
  named = Naming.release_driver-Named connection id c v.named;
  driven = Driven.release_driver-Driven connection id c v.driven;
  sound = Quiet.release_driver-Sound connection id c v.sound;
}
Step-IsValid {c} (commits id request) v =
    steady (commit-Steady id request c) v (Writes.commit-Sound id request c v.sound)
Step-IsValid {c} (publishes id) v =
    steady (publish-Steady id c) v (Writes.publish-Sound id c v.sound)
Step-IsValid {c} (replays id sequence request unseen word) v =
    steady (replay-Steady id sequence request c) v
      (Writes.replay-Sound id sequence request c unseen word v.sound)
Step-IsValid {c} (stamps id millis) v =
    steady (stamp_activity-Steady id millis c) v (Quiet.stamp_activity-Sound id millis c v.sound)

-- After any history of calls on an empty core, with new identities for connections and sessions,
-- storable snapshots and journal records that were not seen: subscriptions agree on both sides, names
-- and sessions agree, a driver's lease carries the current epoch and its owner is attached, and each
-- session's log is sound.
pub Reach-IsValid : (window : ℕ) {c : LeaderCore} → Reach (start window) c → IsValid c
Reach-IsValid window here = start-IsValid window
Reach-IsValid window (next r step) = Step-IsValid step (Reach-IsValid window r)
