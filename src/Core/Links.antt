-- ===== src/Core/Links.antt =====
-- src/resident/core.rs: the two records of an attachment, `ClientState::sessions` and
-- `SessionState::subscribers`, agree.
use turtletap.Prelude.{◌≡◌, Bool, false, Option, none, some, arith, ℕ_key, text_key}
use turtletap.Dict
use turtletap.Dict.{dict_laws, get-insert, get-remove}
use turtletap.HashSet
use turtletap.HashSet.{set_laws, contains-insert, contains-remove}
use turtletap.Protocol.{SessionId, ConnectionId, ClientInstanceId, AttachmentMode, Text}
use turtletap.Core.Session.{ClientState, SessionState, SessionControlSnapshot}
use turtletap.Core.Ops.{LeaderCore, connect, create_session, restore_session, rename_session}
use turtletap.Core.Attach.{attach, detach, release_driver, remove_session}

abbrev pub attached_in : Option ClientState → SessionId → Bool
attached_in none id = false
attached_in (some client) id = HashSet.contains id client.sessions

abbrev pub subscribed_in : Option SessionState → ConnectionId → Bool
subscribed_in none connection = false
subscribed_in (some session) connection = HashSet.contains connection session.subscribers

-- The connection's client lists the session exactly when the session lists the connection.
pub record Linked (c : LeaderCore) : Type 0 where
  pub at :
      (connection : ConnectionId) (id : SessionId)
      → attached_in (Dict.get connection c.clients) id
        ≡ subscribed_in (Dict.get id c.sessions) connection

pub attach-Linked :
    (connection : ConnectionId) (id : SessionId) (mode : AttachmentMode) (force : Bool)
    (c : LeaderCore)
    → Linked c
    → Linked (attach connection id mode force c).1
unfolding attach
attach-Linked connection id mode force c h = record {
  at = λ k j. grind (arith, h.at, dict_laws, set_laws);
}

pub detach-Linked :
    (connection : ConnectionId) (id : SessionId) (c : LeaderCore)
    → Linked c
    → Linked (detach connection id c).1
unfolding detach
detach-Linked connection id c h = record { at = λ k j. grind (arith, h.at, dict_laws, set_laws) }

pub release_driver-Linked :
    (connection : ConnectionId) (id : SessionId) (c : LeaderCore)
    → Linked c
    → Linked (release_driver connection id c).1
unfolding release_driver
release_driver-Linked connection id c h = record {
  at = λ k j. grind (arith, h.at, dict_laws, set_laws);
}

pub remove_session-Linked :
    (id : SessionId) (c : LeaderCore) → Linked c → Linked (remove_session id c).1
unfolding remove_session
remove_session-Linked id c h = record { at = λ k j. grind (arith, h.at, dict_laws, set_laws) }

pub connect-Linked :
    (connection : ConnectionId) (instance_id : ClientInstanceId) (c : LeaderCore)
    → Dict.get connection c.clients ≡ none
    → Linked c
    → Linked (connect connection instance_id c)
unfolding connect
connect-Linked connection instance_id c fresh h = record {
  at = λ k j. grind (arith, h.at, dict_laws, set_laws);
}

pub create_session-Linked :
    (id : SessionId) (given : Text) (c : LeaderCore)
    → Dict.get id c.sessions ≡ none
    → Linked c
    → Linked (create_session id given c).1
unfolding create_session
create_session-Linked id given c fresh h = record {
  at = λ k j. grind (arith, h.at, dict_laws, set_laws);
}

pub restore_session-Linked :
    (snapshot : SessionControlSnapshot) (c : LeaderCore)
    → Dict.get snapshot.id c.sessions ≡ none
    → Linked c
    → Linked (restore_session snapshot c).1
unfolding restore_session
restore_session-Linked snapshot c fresh h = record {
  at = λ k j. grind (arith, h.at, dict_laws, set_laws);
}

pub rename_session-Linked :
    (id : SessionId) (given : Text) (c : LeaderCore)
    → Linked c
    → Linked (rename_session id given c).1
unfolding rename_session
rename_session-Linked id given c h = record { at = λ k j. grind (arith, h.at, dict_laws, set_laws) }
