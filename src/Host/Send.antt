-- ===== src/Host/Send.antt =====
-- src/resident/host.rs: messages to the clients. A client whose queue is full is disconnected, which
-- may free leases, which is told to the clients that are left.
use turtletap.Prelude.{
  ℕ, zero, suc, Option, none, some, List, [], ◌∷◌, ◌++◌, ◌||◌, leb, length, if◌then◌else◌, ℕ_key,
}
use turtletap.Dict
use turtletap.Protocol.{ConnectionId}
use turtletap.Core.Session.{DriverChange}
use turtletap.Core.Ops
use turtletap.Application.{Application, ShutdownReason}
use turtletap.Host.{HostState, Outbound, ServerMessage, driver_changed, shutting_down, shutdown}

-- What `send` is at the recursive calls.
abbrev pub Sender : Application → Type 0
Sender A = ConnectionId → ServerMessage A → HostState A → HostState A

module _ {A : Application} where
  -- `async_channel::Sender::try_send`: `none` is an error.
  unfoldable pub try_send : ServerMessage A → Outbound A → Option (Outbound A)
  try_send message queue =
      if queue.closed || leb queue.capacity (length queue.messages)
      then none
      else some (record queue { messages = queue.messages ++ message ∷ [] })

  -- `for connection in ... { self.send(connection, message.clone()) }`
  unfoldable pub send_each :
      Sender A → List ConnectionId → ServerMessage A → HostState A → HostState A
  send_each post [] message h = h
  send_each post (k ∷ ks) message h = send_each post ks message (post k message h)

  unfoldable pub broadcast_with : Sender A → DriverChange → HostState A → HostState A
  unfolding send_each
  broadcast_with post change =
      send_each post change.subscribers (driver_changed change.session change.lease)

  unfoldable pub broadcast_changes : Sender A → List DriverChange → HostState A → HostState A
  unfolding broadcast_with
  broadcast_changes post [] h = h
  broadcast_changes post (change ∷ changes) h =
      broadcast_changes post changes (broadcast_with post change h)

  unfoldable pub disconnect_with : Sender A → ConnectionId → HostState A → HostState A
  unfolding broadcast_changes
  disconnect_with post connection h =
      let left = Ops.disconnect connection h.core in
      broadcast_changes post left.0
        (record h { clients = Dict.remove connection h.clients; core = left.1 })

  -- The body of `send`, which calls `disconnect`, which calls `broadcast_driver`, which calls `send`.
  unfoldable pub send_step : Sender A → Sender A
  unfolding try_send disconnect_with
  send_step post connection message h = elim (Dict.get connection h.clients) [
    | none ↦ h
    | some client ↦ elim (try_send message client) [
      | none ↦ disconnect_with post connection h
      | some sent ↦ record h { clients = Dict.insert connection sent h.clients }
    ]
  ]

  -- The fuel bounds how deep the calls nest.
  unfoldable pub send_within : ℕ → Sender A
  unfolding send_step
  send_within zero connection message h = h
  send_within (suc fuel) connection message h = send_step (send_within fuel) connection message h

  -- Each nested call is made behind the removal of a client.
  unfoldable pub send : Sender A
  unfolding send_within
  send connection message h = send_within (suc (Dict.len h.clients)) connection message h

  unfoldable pub disconnect : ConnectionId → HostState A → HostState A
  unfolding disconnect_with
  disconnect = disconnect_with send

  unfoldable pub broadcast_driver : DriverChange → HostState A → HostState A
  unfolding broadcast_with
  broadcast_driver = broadcast_with send

  unfoldable pub broadcast : List ConnectionId → ServerMessage A → HostState A → HostState A
  unfolding send_each
  broadcast = send_each send

  told : Outbound A → ServerMessage A → Outbound A
  told queue message = elim (try_send message queue) [ none ↦ queue | some sent ↦ sent ]

  -- The two messages of `close_client_queues` to one client.
  unfoldable pub close_queue : ShutdownReason → Outbound A → Outbound A
  unfolding told
  close_queue reason queue = told (told queue (shutting_down reason)) (shutdown reason)
