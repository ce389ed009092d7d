-- ===== src/Core/Present.antt =====
-- src/resident/core.rs: whether a client has a connection attached to a session, through each change of
-- the map of clients.
use turtletap.Prelude.{
  ℕ, ◌≡◌, Bool, true, false, none, some, arith, ℕ_key, text_key, ℕ_discrete, ◌≢◌,
}
use turtletap.Dict
use turtletap.Dict.{dict_laws, any_value-map, any_value-intro}
use turtletap.HashSet
use turtletap.HashSet.{set_laws}
use turtletap.Protocol.{SessionId, ConnectionId, ClientInstanceId}
use turtletap.Core.Session.{ClientState}
use turtletap.Core.Ops.{attaches}
use turtletap.Core.Attach.{forget_session}

-- An attached connection of this client exists.
abbrev pub present : Dict.Dict ConnectionId ClientState → ClientInstanceId → SessionId → Bool
present clients owner id = Dict.any_value (attaches owner id) clients

pub present-join :
    (clients : Dict.Dict ConnectionId ClientState) (connection : ConnectionId)
    (client : ClientState) (joined owner id : ℕ)
    → Dict.get connection clients ≡ some client
    → present clients owner id ≡ true
    → present
        (Dict.insert connection
          (record client { sessions = HashSet.insert joined client.sessions })
          clients)
        owner
        id
      ≡ true
unfolding attaches
present-join clients connection client joined owner id e h =
    any_value-map (attaches owner id) (attaches owner id) clients _ h λ q v at holds.
      elim (ℕ_discrete connection q) [
        | yes same ↦ (
          record client { sessions = HashSet.insert joined client.sessions },
          grind (arith, dict_laws),
          grind (arith, set_laws),
        )
        | no other ↦ (v, grind (arith, dict_laws), holds)
      ]

pub present-joined :
    (clients : Dict.Dict ConnectionId ClientState) (connection : ConnectionId)
    (client : ClientState) (id : ℕ)
    → present
        (Dict.insert connection
          (record client { sessions = HashSet.insert id client.sessions })
          clients)
        client.instance_id
        id
      ≡ true
unfolding attaches
present-joined clients connection client id =
    any_value-intro (attaches client.instance_id id) _ connection
      (record client { sessions = HashSet.insert id client.sessions }) (grind (arith, dict_laws))
      (grind (arith, set_laws))

pub present-part :
    (clients : Dict.Dict ConnectionId ClientState) (connection : ConnectionId)
    (client : ClientState) (left owner id : ℕ)
    → Dict.get connection clients ≡ some client
    → (left ≡ id → client.instance_id ≡ owner → ⊥)
    → present clients owner id ≡ true
    → present
        (Dict.insert connection
          (record client { sessions = HashSet.remove left client.sessions })
          clients)
        owner
        id
      ≡ true
unfolding attaches
present-part clients connection client left owner id e apart h =
    any_value-map (attaches owner id) (attaches owner id) clients _ h λ q v at holds.
      elim (ℕ_discrete connection q) [
        | yes same ↦ (
          record client { sessions = HashSet.remove left client.sessions },
          grind (arith, dict_laws),
          grind (arith, set_laws),
        )
        | no other ↦ (v, grind (arith, dict_laws), holds)
      ]

pub present-forget :
    (clients : Dict.Dict ConnectionId ClientState) (gone owner id : ℕ)
    → gone ≢ id
    → present clients owner id ≡ true
    → present (Dict.map_values (forget_session gone) clients) owner id ≡ true
unfolding attaches forget_session
present-forget clients gone owner id apart h =
    any_value-map (attaches owner id) (attaches owner id) clients _ h λ q v at holds. (
      record v { sessions = HashSet.remove gone v.sessions },
      grind (arith, dict_laws),
      grind (arith, set_laws),
    )

pub present-connect :
    (clients : Dict.Dict ConnectionId ClientState) (connection : ConnectionId)
    (client : ClientState) (owner id : ℕ)
    → Dict.get connection clients ≡ none
    → present clients owner id ≡ true
    → present (Dict.insert connection client clients) owner id ≡ true
present-connect clients connection client owner id fresh h =
    any_value-map (attaches owner id) (attaches owner id) clients _ h
      λ q v at holds. (v, grind (arith, dict_laws), holds)

pub present-remove :
    (clients : Dict.Dict ConnectionId ClientState) (connection : ConnectionId)
    (client : ClientState) (owner id : ℕ)
    → Dict.get connection clients ≡ some client
    → attaches owner id client ≡ false
    → present clients owner id ≡ true
    → present (Dict.remove connection clients) owner id ≡ true
present-remove clients connection client owner id e apart h =
    any_value-map (attaches owner id) (attaches owner id) clients _ h
      λ q v at holds. (v, grind (arith, dict_laws), holds)
