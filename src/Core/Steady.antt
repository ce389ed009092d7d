-- ===== src/Core/Steady.antt =====
-- src/resident/core.rs: the operations on events (`commit`, `publish`, `replay`, `stamp_activity`)
-- leave clients, names, subscriptions and leases alone.
use turtletap.Prelude.{ℕ, ◌≡◌, Option, none, some, [], arith, ℕ_key, text_key}
use turtletap.Dict
use turtletap.Dict.{dict_laws}
use turtletap.Protocol.{SessionId, EventSequence, RequestId, request_key}
use turtletap.Core.Session.{SessionState}
use turtletap.Core.Ops.{LeaderCore, stamp_activity}
use turtletap.Core.Commit.{commit, publish, replay}
use turtletap.Core.Links.{Linked}
use turtletap.Core.Naming.{Named}
use turtletap.Core.Driven.{Driven}

-- A session without its events.
abbrev frame : SessionState → SessionState
frame s = record s { sequence = 0; last_event_at = none; committed = Dict.empty; commit_order = [] }

abbrev frame_in : Option SessionState → Option SessionState
frame_in none = none
frame_in (some s) = some (frame s)

pub record Steady (c c' : LeaderCore) : Type 0 where
  pub clients : c'.clients ≡ c.clients
  pub names : c'.names ≡ c.names
  pub window : c'.deduplication_window ≡ c.deduplication_window
  pub frames :
      (j : SessionId) → frame_in (Dict.get j c'.sessions) ≡ frame_in (Dict.get j c.sessions)

pub commit-Steady :
    (id : SessionId) (request : RequestId) (c : LeaderCore) → Steady c (commit id request c).1
unfolding commit
commit-Steady id request c = record {
  clients = ground arith;
  names = ground arith;
  window = ground arith;
  frames = λ j. grind (arith, dict_laws);
}

pub publish-Steady : (id : SessionId) (c : LeaderCore) → Steady c (publish id c).1
unfolding publish
publish-Steady id c = record {
  clients = ground arith;
  names = ground arith;
  window = ground arith;
  frames = λ j. grind (arith, dict_laws);
}

pub replay-Steady :
    (id : SessionId) (sequence : EventSequence) (request : Option RequestId) (c : LeaderCore)
    → Steady c (replay id sequence request c).1
unfolding replay
replay-Steady id sequence request c = record {
  clients = ground arith;
  names = ground arith;
  window = ground arith;
  frames = λ j. grind (arith, dict_laws);
}

pub stamp_activity-Steady :
    (id : SessionId) (millis : ℕ) (c : LeaderCore) → Steady c (stamp_activity id millis c)
unfolding stamp_activity
stamp_activity-Steady id millis c = record {
  clients = ground arith;
  names = ground arith;
  window = ground arith;
  frames = λ j. grind (arith, dict_laws);
}

module _ {c c' : LeaderCore} (steady : Steady c c') where
  pub Steady-Linked : Linked c → Linked c'
  Steady-Linked h = record { at = λ k j. ground (arith, steady.frames j, steady.clients, h.at k j) }

  pub Steady-Named : Named c → Named c'
  Steady-Named h = record {
    found = λ j s e. grind (arith, steady.frames j, steady.names, h.found j);
    owned = λ n j e. grind (arith, steady.frames j, steady.names, h.owned n j);
    identity = λ j s e. grind (arith, steady.frames j, h.identity j);
    normal = λ j s e. grind (arith, steady.frames j, h.normal j);
  }

  pub Steady-Driven : Driven c → Driven c'
  Steady-Driven h = record {
    epoch = λ j s lease e d. grind (arith, steady.frames j, h.epoch j);
    owner = λ j s lease e d. grind (arith, steady.frames j, steady.clients, h.owner j);
    word = λ j s e. grind (arith, steady.frames j, h.word j);
  }
