-- ===== src/Host/Fuel.antt =====
-- src/resident/host.rs: the recursion between `send` and `disconnect` ends.
use turtletap.Prelude.{
  ℕ, zero, suc, ◌≤◌, ◌<◌, ◌≡◌, refl, ap, ◌∙◌, Option-cases, List, [], ◌∷◌, arith, inl, inr, ℕ_key,
}
use turtletap.Dict
use turtletap.Dict.{len-remove, len-remove-get, len-insert-get}
use turtletap.Protocol.{ConnectionId}
use turtletap.Core.Session.{DriverChange}
use turtletap.Core.Ops
use turtletap.Application.{Application}
use turtletap.Host.{HostState, ServerMessage, driver_changed}
use turtletap.Host.Send.{
  Sender, try_send, send_each, broadcast_with, broadcast_changes, disconnect_with, send_step,
  send_within, send,
}

module _ {A : Application} where
  abbrev clients_of : HostState A → ℕ
  clients_of h = Dict.len h.clients

  -- A sender that never adds a client.
  abbrev Shrinks : Sender A → Type 0
  Shrinks post =
      (k : ConnectionId) (m : ServerMessage A) (h : HostState A)
      → clients_of (post k m h) ≤ clients_of h

  module _ (post : Sender A) (shrinks : Shrinks post) where
    send_each-Shrinks :
        (ks : List ConnectionId) (m : ServerMessage A) (h : HostState A)
        → clients_of (send_each post ks m h) ≤ clients_of h
    unfolding send_each
    send_each-Shrinks [] m h = omega arith
    send_each-Shrinks (k ∷ ks) m h =
        omega (arith, send_each-Shrinks ks m (post k m h), shrinks k m h)

    broadcast_with-Shrinks :
        (change : DriverChange) (h : HostState A)
        → clients_of (broadcast_with post change h) ≤ clients_of h
    unfolding broadcast_with
    broadcast_with-Shrinks change h =
        send_each-Shrinks change.subscribers (driver_changed change.session change.lease) h

    broadcast_changes-Shrinks :
        (changes : List DriverChange) (h : HostState A)
        → clients_of (broadcast_changes post changes h) ≤ clients_of h
    unfolding broadcast_changes
    broadcast_changes-Shrinks [] h = omega arith
    broadcast_changes-Shrinks (change ∷ changes) h = omega (
      arith,
      broadcast_changes-Shrinks changes (broadcast_with post change h),
      broadcast_with-Shrinks change h,
    )

    disconnect_with-Shrinks :
        (k : ConnectionId) (h : HostState A) → clients_of (disconnect_with post k h) ≤ clients_of h
    unfolding disconnect_with
    disconnect_with-Shrinks k h =
        let left = Ops.disconnect k h.core in
        let gone = record h { clients = Dict.remove k h.clients; core = left.1 } in
        omega (arith, broadcast_changes-Shrinks left.0 gone, len-remove k h.clients)

    send_step-Shrinks : Shrinks (send_step post)
    unfolding send_step
    send_step-Shrinks k m h = elim (Option-cases (Dict.get k h.clients)) [
      | inl missing ↦ rw (send_step, missing) (omega arith)
      | inr (client, at) ↦ elim (Option-cases (try_send m client)) [
        | inl full ↦ rw (send_step, at, full) (disconnect_with-Shrinks k h)
        | inr (sent, room) ↦ rw (send_step, at, room) (len-insert-get k client sent h.clients at)
      ]
    ]

  send_within-Shrinks : (fuel : ℕ) → Shrinks (send_within fuel)
  unfolding send_within
  send_within-Shrinks zero k m h = omega arith
  send_within-Shrinks (suc fuel) k m h =
      send_step-Shrinks (send_within fuel) (send_within-Shrinks fuel) k m h

  -- Two senders that do the same for hosts of fewer clients.
  abbrev Alike : ℕ → Sender A → Sender A → Type 0
  Alike n post other =
      (k : ConnectionId) (m : ServerMessage A) (h : HostState A)
      → clients_of h < n
      → post k m h ≡ other k m h

  module _ (n : ℕ) (post other : Sender A) (shrinks : Shrinks post)
      (alike : Alike n post other) where
    send_each-Alike :
        (ks : List ConnectionId) (m : ServerMessage A) (h : HostState A)
        → clients_of h < n
        → send_each post ks m h ≡ send_each other ks m h
    unfolding send_each
    send_each-Alike [] m h few = refl
    send_each-Alike (k ∷ ks) m h few =
        send_each-Alike ks m (post k m h) (omega (arith, shrinks k m h))
        ∙ ap (send_each other ks m) (alike k m h few)

    broadcast_changes-Alike :
        (changes : List DriverChange) (h : HostState A)
        → clients_of h < n
        → broadcast_changes post changes h ≡ broadcast_changes other changes h
    unfolding broadcast_changes broadcast_with
    broadcast_changes-Alike [] h few = refl
    broadcast_changes-Alike (change ∷ changes) h few =
        broadcast_changes-Alike changes (broadcast_with post change h)
          (omega (arith, broadcast_with-Shrinks post shrinks change h))
        ∙ ap (broadcast_changes other changes)
            (send_each-Alike change.subscribers (driver_changed change.session change.lease) h few)

  -- A client whose queue is full is gone before its disconnection is told.
  send_step-Alike :
      (n : ℕ) (post other : Sender A)
      → Shrinks post
      → Alike n post other
      → Alike (suc n) (send_step post) (send_step other)
  unfolding send_step disconnect_with
  send_step-Alike n post other shrinks alike k m h few =
      elim (Option-cases (Dict.get k h.clients)) [
        | inl missing ↦ rw (send_step, missing) refl
        | inr (client, at) ↦ elim (Option-cases (try_send m client)) [
          | inr (sent, room) ↦ rw (send_step, at, room) refl
          | inl full ↦
              rw (send_step, at, full)
                (let left = Ops.disconnect k h.core in
                  broadcast_changes-Alike n post other shrinks alike left.0
                    (record h { clients = Dict.remove k h.clients; core = left.1 })
                    (omega (arith, len-remove-get k client h.clients at)))
        ]
      ]

  send_within-Alike :
      (n fuel more : ℕ) (k : ConnectionId) (m : ServerMessage A) (h : HostState A)
      → n ≤ fuel
      → n ≤ more
      → clients_of h < n
      → send_within fuel k m h ≡ send_within more k m h
  unfolding send_within
  send_within-Alike zero fuel more k m h enough most few = absurd (omega (arith, few))
  send_within-Alike (suc n) zero more k m h enough most few = absurd (omega (arith, enough))
  send_within-Alike (suc n) (suc fuel) zero k m h enough most few = absurd (omega (arith, most))
  send_within-Alike (suc n) (suc fuel) (suc more) k m h enough most few =
      send_step-Alike n (send_within fuel) (send_within more) (send_within-Shrinks fuel)
        (λ k m h fewer.
          send_within-Alike n fuel more k m h (omega (arith, enough)) (omega (arith, most)) fewer)
        k m h few

  send-send_step :
      (k : ConnectionId) (m : ServerMessage A) (h : HostState A) → send k m h ≡ send_step send k m h
  unfolding send send_within
  send-send_step k m h =
      send_step-Alike (clients_of h) (send_within (clients_of h)) send
        (send_within-Shrinks (clients_of h))
        (λ k m g fewer.
          send_within-Alike (suc (clients_of g)) (clients_of h) (suc (clients_of g)) k m g
            (omega (arith, fewer)) (omega arith) (omega arith))
        k m h (omega arith)

  -- Where the fuel is above the number of clients, `send` does what it does on that fuel, and it is
  -- its body with the calls of itself: the recursion ends.
  pub send_within-send :
      (fuel : ℕ) (k : ConnectionId) (m : ServerMessage A) (h : HostState A)
      → Dict.len h.clients < fuel
      → (send_within fuel k m h ≡ send k m h) × (send k m h ≡ send_step send k m h)
  unfolding send
  send_within-send fuel k m h enough = (
    send_within-Alike (suc (clients_of h)) fuel (suc (clients_of h)) k m h (omega (arith, enough))
        (omega arith) (omega arith),
    send-send_step k m h,
  )
