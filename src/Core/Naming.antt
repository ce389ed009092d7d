-- ===== src/Core/Naming.antt =====
-- src/resident/core.rs: the map of names and the names of the sessions agree.
use turtletap.Prelude.{◌≡◌, Bool, Option, none, some, arith, ℕ_key, text_key}
use turtletap.Dict
use turtletap.Dict.{dict_laws}
use turtletap.Protocol.{Text, SessionId, ConnectionId, AttachmentMode}
use turtletap.Core.Names.{normalize_name, normalize_name_idem}
use turtletap.Core.Session.{SessionState, SessionControlSnapshot}
use turtletap.Core.Ops.{LeaderCore, create_session, restore_session, rename_session, disconnect}
use turtletap.Core.Disconnect.{disconnect-names, disconnect-kept}
use turtletap.Core.Attach.{attach, detach, release_driver, remove_session}

abbrev pub name_in : Option SessionState → Option Text
name_in none = none
name_in (some s) = some s.name

-- A name leads to the session of that name and to no other, and each session has its own key.
pub record Named (c : LeaderCore) : Type 0 where
  pub found :
      (id : SessionId) (s : SessionState)
      → Dict.get id c.sessions ≡ some s
      → Dict.get s.name c.names ≡ some id
  pub owned :
      (name : Text) (id : SessionId)
      → Dict.get name c.names ≡ some id
      → name_in (Dict.get id c.sessions) ≡ some name
  pub identity : (id : SessionId) (s : SessionState) → Dict.get id c.sessions ≡ some s → s.id ≡ id
  pub normal :
      (id : SessionId) (s : SessionState)
      → Dict.get id c.sessions ≡ some s
      → normalize_name s.name ≡ s.name

pub create_session-Named :
    (id : SessionId) (given : Text) (c : LeaderCore)
    → Dict.get id c.sessions ≡ none
    → Named c
    → Named (create_session id given c).1
unfolding create_session
create_session-Named id given c fresh h = record {
  found = λ j s e. grind (arith, h.found, h.owned, dict_laws);
  owned = λ n j e. grind (arith, h.found, h.owned n j, dict_laws);
  identity = λ j s e. grind (arith, h.identity, dict_laws);
  normal = λ j s e. grind (arith, h.normal, dict_laws, normalize_name_idem);
}

pub restore_session-Named :
    (snapshot : SessionControlSnapshot) (c : LeaderCore)
    → Dict.get snapshot.id c.sessions ≡ none
    → Named c
    → Named (restore_session snapshot c).1
unfolding restore_session
restore_session-Named snapshot c fresh h = record {
  found = λ j s e. grind (arith, h.found, h.owned, dict_laws);
  owned = λ n j e. grind (arith, h.found, h.owned n j, dict_laws);
  identity = λ j s e. grind (arith, h.identity, dict_laws);
  normal = λ j s e. grind (arith, h.normal, dict_laws, normalize_name_idem);
}

pub rename_session-Named :
    (id : SessionId) (given : Text) (c : LeaderCore) → Named c → Named (rename_session id given c).1
unfolding rename_session
rename_session-Named id given c h = record {
  found = λ j s e. grind (arith, h.found, h.owned, dict_laws);
  owned = λ n j e. grind (arith, h.found, h.owned n j, dict_laws);
  identity = λ j s e. grind (arith, h.identity, dict_laws);
  normal = λ j s e. grind (arith, h.normal, dict_laws, normalize_name_idem);
}

pub remove_session-Named :
    (id : SessionId) (c : LeaderCore) → Named c → Named (remove_session id c).1
unfolding remove_session
remove_session-Named id c h = record {
  found = λ j s e. grind (arith, h.found, h.owned, dict_laws);
  owned = λ n j e. grind (arith, h.found, h.owned n j, dict_laws);
  identity = λ j s e. grind (arith, h.identity, dict_laws);
  normal = λ j s e. grind (arith, h.normal, dict_laws, normalize_name_idem);
}

pub attach-Named :
    (connection : ConnectionId) (id : SessionId) (mode : AttachmentMode) (force : Bool)
    (c : LeaderCore)
    → Named c
    → Named (attach connection id mode force c).1
unfolding attach
attach-Named connection id mode force c h = record {
  found = λ j s e. grind (arith, h.found j, dict_laws);
  owned = λ n j e. grind (arith, h.owned n j, dict_laws);
  identity = λ j s e. grind (arith, h.identity j, dict_laws);
  normal = λ j s e. grind (arith, h.normal j, dict_laws);
}

pub detach-Named :
    (connection : ConnectionId) (id : SessionId) (c : LeaderCore)
    → Named c
    → Named (detach connection id c).1
unfolding detach
detach-Named connection id c h = record {
  found = λ j s e. grind (arith, h.found j, dict_laws);
  owned = λ n j e. grind (arith, h.owned n j, dict_laws);
  identity = λ j s e. grind (arith, h.identity j, dict_laws);
  normal = λ j s e. grind (arith, h.normal j, dict_laws);
}

pub release_driver-Named :
    (connection : ConnectionId) (id : SessionId) (c : LeaderCore)
    → Named c
    → Named (release_driver connection id c).1
unfolding release_driver
release_driver-Named connection id c h = record {
  found = λ j s e. grind (arith, h.found j, dict_laws);
  owned = λ n j e. grind (arith, h.owned n j, dict_laws);
  identity = λ j s e. grind (arith, h.identity j, dict_laws);
  normal = λ j s e. grind (arith, h.normal j, dict_laws);
}

pub disconnect-Named :
    (connection : ConnectionId) (c : LeaderCore) → Named c → Named (disconnect connection c).1
disconnect-Named connection c h = record {
  found = λ j s e.
      grind (arith, disconnect-names connection c, disconnect-kept connection c j, h.found j);
  owned = λ n j e.
      grind (arith, disconnect-names connection c, disconnect-kept connection c j, h.owned n j);
  identity = λ j s e. grind (arith, disconnect-kept connection c j, h.identity j);
  normal = λ j s e. grind (arith, disconnect-kept connection c j, h.normal j);
}
