-- ===== src/Core/Disconnect.antt =====
-- src/resident/core.rs: the loop of `disconnect`, seen through what it does to each session.
use turtletap.Prelude.{
  ◌≡◌, ◌∙◌, ap, refl, ite, Bool, true, false, Option, none, some, List, [], ◌∷◌, arith, ℕ_key,
  Option-cases, inl, inr, ◌==◌, ℕ_discrete, if◌then◌else◌,
}
use turtletap.Dict
use turtletap.Dict.{dict_laws, get-remove}
use turtletap.HashSet
use turtletap.HashSet.{set_laws, mem, contains-eq-mem}
use turtletap.Protocol.{SessionId, ConnectionId, ClientInstanceId, DriverLease}
use turtletap.Core.Session.{ClientState, SessionState}
use turtletap.Core.Ops.{LeaderCore, leave_session, leave_sessions, disconnect, attaches}
use turtletap.Core.Links.{Linked, subscribed_in}

-- What a session keeps when clients come and go.
abbrev pub strip : SessionState → SessionState
strip s = record s { subscribers = HashSet.new; driver = none }

abbrev pub kept_in : Option SessionState → Option SessionState
kept_in none = none
kept_in (some s) = some (strip s)

abbrev pub driver_in : Option SessionState → Option DriverLease
driver_in none = none
driver_in (some s) = s.driver

-- The lease that is left when a client with no other connection to the session goes.
abbrev pub lease_left : Bool → ClientInstanceId → Option DriverLease → Option DriverLease
lease_left true owner lease = lease
lease_left false owner none = none
lease_left false owner (some lease) = if lease.owner == owner then none else some lease

module _ (connection : ConnectionId) (client : ClientState) where
  abbrev pub without_connection : ConnectionId → Bool → Bool
  without_connection k old = ite (ℕ_discrete connection k) false old

  -- Another connection of the same client is attached to the session.
  abbrev pub remains : SessionId → LeaderCore → Bool
  remains id c = Dict.any_value (attaches client.instance_id id) c.clients

  leave_session-clients :
      (id : SessionId) (c : LeaderCore)
      → (leave_session connection client id c).1.clients ≡ c.clients
  unfolding leave_session
  leave_session-clients id c = ground arith

  leave_session-names :
      (id : SessionId) (c : LeaderCore) → (leave_session connection client id c).1.names ≡ c.names
  unfolding leave_session
  leave_session-names id c = ground arith

  leave_session-window :
      (id : SessionId) (c : LeaderCore)
      → (leave_session connection client id c).1.deduplication_window ≡ c.deduplication_window
  unfolding leave_session
  leave_session-window id c = ground arith

  leave_session-kept :
      (id j : SessionId) (c : LeaderCore)
      → kept_in (Dict.get j (leave_session connection client id c).1.sessions)
        ≡ kept_in (Dict.get j c.sessions)
  unfolding leave_session
  leave_session-kept id j c = grind (arith, dict_laws)

  leave_session-subscribed :
      (id j : SessionId) (k : ConnectionId) (c : LeaderCore)
      → subscribed_in (Dict.get j (leave_session connection client id c).1.sessions) k
        ≡ ite
            (ℕ_discrete id j)
            (without_connection k (subscribed_in (Dict.get j c.sessions) k))
            (subscribed_in (Dict.get j c.sessions) k)
  unfolding leave_session
  leave_session-subscribed id j k c = grind (arith, dict_laws, set_laws)

  leave_session-driver :
      (id j : SessionId) (c : LeaderCore)
      → driver_in (Dict.get j (leave_session connection client id c).1.sessions)
        ≡ ite
            (ℕ_discrete id j)
            (lease_left (remains j c) client.instance_id (driver_in (Dict.get j c.sessions)))
            (driver_in (Dict.get j c.sessions))
  unfolding leave_session
  leave_session-driver id j c = grind (arith, dict_laws)

  pub leave_sessions-clients :
      (ids : List SessionId) (c : LeaderCore)
      → (leave_sessions connection client ids c).1.clients ≡ c.clients
  unfolding leave_sessions
  leave_sessions-clients [] c = refl
  leave_sessions-clients (id ∷ ids) c =
      leave_sessions-clients ids (leave_session connection client id c).1
      ∙ leave_session-clients id c

  pub leave_sessions-names :
      (ids : List SessionId) (c : LeaderCore)
      → (leave_sessions connection client ids c).1.names ≡ c.names
  unfolding leave_sessions
  leave_sessions-names [] c = refl
  leave_sessions-names (id ∷ ids) c =
      leave_sessions-names ids (leave_session connection client id c).1 ∙ leave_session-names id c

  pub leave_sessions-window :
      (ids : List SessionId) (c : LeaderCore)
      → (leave_sessions connection client ids c).1.deduplication_window ≡ c.deduplication_window
  unfolding leave_sessions
  leave_sessions-window [] c = refl
  leave_sessions-window (id ∷ ids) c =
      leave_sessions-window ids (leave_session connection client id c).1 ∙ leave_session-window id c

  pub leave_sessions-kept :
      (ids : List SessionId) (j : SessionId) (c : LeaderCore)
      → kept_in (Dict.get j (leave_sessions connection client ids c).1.sessions)
        ≡ kept_in (Dict.get j c.sessions)
  unfolding leave_sessions
  leave_sessions-kept [] j c = refl
  leave_sessions-kept (id ∷ ids) j c =
      leave_sessions-kept ids j (leave_session connection client id c).1 ∙ leave_session-kept id j c

  pub leave_sessions-subscribed :
      (ids : List SessionId) (j : SessionId) (k : ConnectionId) (c : LeaderCore)
      → subscribed_in (Dict.get j (leave_sessions connection client ids c).1.sessions) k ≡ (
          if mem j ids
          then without_connection k (subscribed_in (Dict.get j c.sessions) k)
          else subscribed_in (Dict.get j c.sessions) k)
  unfolding leave_sessions mem
  leave_sessions-subscribed [] j k c = refl
  leave_sessions-subscribed (id ∷ ids) j k c = ground (
    arith,
    leave_sessions-subscribed ids j k (leave_session connection client id c).1,
    leave_session-subscribed id j k c,
  )

  pub leave_sessions-driver :
      (ids : List SessionId) (j : SessionId) (c : LeaderCore)
      → driver_in (Dict.get j (leave_sessions connection client ids c).1.sessions) ≡ (
          if mem j ids
          then lease_left (remains j c) client.instance_id (driver_in (Dict.get j c.sessions))
          else driver_in (Dict.get j c.sessions))
  unfolding leave_sessions mem
  leave_sessions-driver [] j c = refl
  leave_sessions-driver (id ∷ ids) j c = ground (
    arith,
    leave_sessions-driver ids j (leave_session connection client id c).1,
    leave_session-driver id j c,
    ap (Dict.any_value (attaches client.instance_id j)) (leave_session-clients id c),
  )

-- What `disconnect` leaves of the maps, session by session.
module _ (connection : ConnectionId) (c : LeaderCore) where
  pub disconnect-names : (disconnect connection c).1.names ≡ c.names
  unfolding disconnect
  disconnect-names = grind (arith, leave_sessions-names)

  pub disconnect-window : (disconnect connection c).1.deduplication_window ≡ c.deduplication_window
  unfolding disconnect
  disconnect-window = grind (arith, leave_sessions-window)

  pub disconnect-clients :
      (k : ConnectionId)
      → Dict.get k (disconnect connection c).1.clients
        ≡ ite (ℕ_discrete connection k) none (Dict.get k c.clients)
  unfolding disconnect
  disconnect-clients k = grind (arith, leave_sessions-clients, get-remove)

  pub disconnect-removes :
      (client : ClientState)
      → Dict.get connection c.clients ≡ some client
      → (disconnect connection c).1.clients ≡ Dict.remove connection c.clients
  unfolding disconnect
  disconnect-removes client e = grind (arith, leave_sessions-clients)

  pub disconnect_unknown : Dict.get connection c.clients ≡ none → disconnect connection c ≡ ([], c)
  unfolding disconnect
  disconnect_unknown e = ground arith

  pub disconnect-kept :
      (j : SessionId)
      → kept_in (Dict.get j (disconnect connection c).1.sessions) ≡ kept_in (Dict.get j c.sessions)
  unfolding disconnect
  disconnect-kept j = grind (arith, leave_sessions-kept)

  pub disconnect-subscribed :
      (client : ClientState) (j : SessionId) (k : ConnectionId)
      → Dict.get connection c.clients ≡ some client
      → subscribed_in (Dict.get j (disconnect connection c).1.sessions) k ≡ (
          if HashSet.contains j client.sessions
          then ite (ℕ_discrete connection k) false (subscribed_in (Dict.get j c.sessions) k)
          else subscribed_in (Dict.get j c.sessions) k)
  unfolding disconnect
  disconnect-subscribed client j k e = grind (arith, leave_sessions-subscribed, contains-eq-mem)

  pub disconnect-driver :
      (client : ClientState) (j : SessionId)
      → Dict.get connection c.clients ≡ some client
      → driver_in (Dict.get j (disconnect connection c).1.sessions) ≡ (
          if HashSet.contains j client.sessions
          then lease_left
              (Dict.any_value (attaches client.instance_id j) (Dict.remove connection c.clients))
              client.instance_id
              (driver_in (Dict.get j c.sessions))
          else driver_in (Dict.get j c.sessions))
  unfolding disconnect
  disconnect-driver client j e = grind (arith, leave_sessions-driver, contains-eq-mem)

pub disconnect-Linked :
    (connection : ConnectionId) (c : LeaderCore) → Linked c → Linked (disconnect connection c).1
disconnect-Linked connection c h = record {
  at = λ k j. elim (Option-cases (Dict.get connection c.clients)) [
    | inl missing ↦ rw (disconnect_unknown connection c missing) (h.at k j)
    | inr (client, e) ↦ ground (
      arith,
      disconnect-clients connection c k,
      disconnect-subscribed connection c client j k e,
      h.at k j,
      h.at connection j,
    )
  ];
}
