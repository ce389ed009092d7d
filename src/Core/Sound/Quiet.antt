-- ===== src/Core/Sound/Quiet.antt =====
-- src/resident/core.rs: the methods that leave the logs alone keep them sound.
use turtletap.Prelude.{
  ℕ, ◌≡◌, Bool, Option, none, some, List, arith, ℕ_key, text_key, Option-cases, inl, inr,
}
use turtletap.Dict
use turtletap.Dict.{Dict, dict_laws, get-empty}
use turtletap.Protocol.{
  SessionId, EventSequence, RequestId, request_key, AttachmentMode, ConnectionId, ClientInstanceId,
  Text,
}
use turtletap.Core.Session.{SessionState}
use turtletap.Core.Ops.{LeaderCore, stamp_activity, rename_session, connect, disconnect}
use turtletap.Core.Attach.{attach, detach, release_driver, remove_session}
use turtletap.Core.Disconnect.{disconnect-kept, disconnect-window}
use turtletap.Core.Sound.{Logged-later, Sound}

record Log : Type 0 where
  order : List RequestId
  committed : Dict RequestId EventSequence
  sequence : EventSequence

abbrev log_in : Option SessionState → Option Log
log_in none = none
log_in (some s) =
    some (record { order = s.commit_order; committed = s.committed; sequence = s.sequence })

-- What an operation on clients, names or leases does to the logs: nothing.
record Quiet (c c' : LeaderCore) : Type 0 where
  window : c'.deduplication_window ≡ c.deduplication_window
  logs : (j : SessionId) → log_in (Dict.get j c'.sessions) ≡ log_in (Dict.get j c.sessions)

Quiet-Sound : {c c' : LeaderCore} → Quiet c c' → Sound c → Sound c'
Quiet-Sound {c} {c'} quiet h = record {
  at = λ j s' e. elim (Option-cases (Dict.get j c.sessions)) [
    | inl missing ↦ absurd (ground (arith, quiet.logs j))
    | inr (s, f) ↦ rw quiet.window (
        Logged-later c.deduplication_window s s' (ground (arith, quiet.logs j))
          (ground (arith, quiet.logs j)) (ground (arith, quiet.logs j))
          (ground (arith, quiet.logs j, (h.at j s f).word)) (h.at j s f))
  ];
}

pub attach-Sound :
    (connection : ConnectionId) (id : SessionId) (mode : AttachmentMode) (force : Bool)
    (c : LeaderCore)
    → Sound c
    → Sound (attach connection id mode force c).1
unfolding attach
attach-Sound connection id mode force c =
    Quiet-Sound (record { window = ground arith; logs = λ j. grind (arith, dict_laws) })

pub detach-Sound :
    (connection : ConnectionId) (id : SessionId) (c : LeaderCore)
    → Sound c
    → Sound (detach connection id c).1
unfolding detach
detach-Sound connection id c =
    Quiet-Sound (record { window = ground arith; logs = λ j. grind (arith, dict_laws) })

pub release_driver-Sound :
    (connection : ConnectionId) (id : SessionId) (c : LeaderCore)
    → Sound c
    → Sound (release_driver connection id c).1
unfolding release_driver
release_driver-Sound connection id c =
    Quiet-Sound (record { window = ground arith; logs = λ j. grind (arith, dict_laws) })

pub rename_session-Sound :
    (id : SessionId) (given : Text) (c : LeaderCore) → Sound c → Sound (rename_session id given c).1
unfolding rename_session
rename_session-Sound id given c =
    Quiet-Sound (record { window = ground arith; logs = λ j. grind (arith, dict_laws) })

pub stamp_activity-Sound :
    (id : SessionId) (millis : ℕ) (c : LeaderCore) → Sound c → Sound (stamp_activity id millis c)
unfolding stamp_activity
stamp_activity-Sound id millis c =
    Quiet-Sound (record { window = ground arith; logs = λ j. grind (arith, dict_laws) })

pub connect-Sound :
    (connection : ConnectionId) (instance_id : ClientInstanceId) (c : LeaderCore)
    → Sound c
    → Sound (connect connection instance_id c)
unfolding connect
connect-Sound connection instance_id c h = record { at = h.at }

pub disconnect-Sound :
    (connection : ConnectionId) (c : LeaderCore) → Sound c → Sound (disconnect connection c).1
disconnect-Sound connection c = Quiet-Sound (record {
  window = disconnect-window connection c;
  logs = λ j. ground (arith, disconnect-kept connection c j);
})

pub remove_session-Sound :
    (id : SessionId) (c : LeaderCore) → Sound c → Sound (remove_session id c).1
unfolding remove_session
remove_session-Sound id c h = record { at = λ j s e. grind (arith, h.at j s, dict_laws) }
