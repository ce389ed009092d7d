-- ===== src/Core/Driven.antt =====
-- src/resident/core.rs: the driver's lease carries the session's epoch, and its owner is attached.
use turtletap.Prelude.{
  ◌≡◌, ◌∙◌, Bool-cases, Option-cases, inl, inr, Bool, true, none, some, arith, ℕ_key, text_key, ◌≤◌,
}
use turtletap.Dict
use turtletap.Dict.{dict_laws, any_value-map, any_value-intro}
use turtletap.Protocol.{
  SessionId, ConnectionId, ClientInstanceId, AttachmentMode, DriverLease, Text, u64_max,
}
use turtletap.Protocol.Saturation.{saturation}
use turtletap.Core.Session.{ClientState, SessionState, SessionControlSnapshot}
use turtletap.Core.Ops.{
  LeaderCore, connect, attaches, disconnect, create_session, restore_session, rename_session,
}
use turtletap.Core.Disconnect.{
  disconnect-kept, disconnect-driver, disconnect-removes, disconnect_unknown,
}
use turtletap.Core.Attach.{attach, detach, release_driver, remove_session}
use turtletap.Core.Present.{
  present, present-join, present-joined, present-part, present-forget, present-connect,
  present-remove,
}

pub record Driven (c : LeaderCore) : Type 0 where
  pub epoch :
      (id : SessionId) (s : SessionState) (lease : DriverLease)
      → Dict.get id c.sessions ≡ some s
      → s.driver ≡ some lease
      → lease.epoch ≡ s.lease_epoch
  pub owner :
      (id : SessionId) (s : SessionState) (lease : DriverLease)
      → Dict.get id c.sessions ≡ some s
      → s.driver ≡ some lease
      → present c.clients lease.owner id ≡ true
  pub word :
      (id : SessionId) (s : SessionState)
      → Dict.get id c.sessions ≡ some s
      → s.lease_epoch ≤ u64_max

pub attach-Driven :
    (connection : ConnectionId) (id : SessionId) (mode : AttachmentMode) (force : Bool)
    (c : LeaderCore)
    → Driven c
    → Driven (attach connection id mode force c).1
unfolding attach
attach-Driven connection id mode force c h = record {
  epoch = λ j s lease at drives. grind (arith, h.epoch j, dict_laws);
  owner = λ j s lease at drives.
      grind (arith, h.owner j, dict_laws, present-join c.clients, present-joined c.clients);
  word = λ j s at. grind (arith, h.word j, dict_laws, saturation);
}

pub detach-Driven :
    (connection : ConnectionId) (id : SessionId) (c : LeaderCore)
    → Driven c
    → Driven (detach connection id c).1
unfolding detach
detach-Driven connection id c h = record {
  epoch = λ j s lease at drives. grind (arith, h.epoch j, dict_laws);
  owner = λ j s lease at drives. grind (arith, h.owner j, dict_laws, present-part c.clients);
  word = λ j s at. grind (arith, h.word j, dict_laws, saturation);
}

pub release_driver-Driven :
    (connection : ConnectionId) (id : SessionId) (c : LeaderCore)
    → Driven c
    → Driven (release_driver connection id c).1
unfolding release_driver
release_driver-Driven connection id c h = record {
  epoch = λ j s lease at drives. grind (arith, h.epoch j, dict_laws);
  owner = λ j s lease at drives. grind (arith, h.owner j, dict_laws);
  word = λ j s at. grind (arith, h.word j, dict_laws, saturation);
}

pub remove_session-Driven :
    (id : SessionId) (c : LeaderCore) → Driven c → Driven (remove_session id c).1
unfolding remove_session
remove_session-Driven id c h = record {
  epoch = λ j s lease at drives. grind (arith, h.epoch j, dict_laws);
  owner = λ j s lease at drives. grind (arith, h.owner j, dict_laws, present-forget c.clients);
  word = λ j s at. grind (arith, h.word j, dict_laws, saturation);
}

pub connect-Driven :
    (connection : ConnectionId) (instance_id : ClientInstanceId) (c : LeaderCore)
    → Dict.get connection c.clients ≡ none
    → Driven c
    → Driven (connect connection instance_id c)
unfolding connect
connect-Driven connection instance_id c fresh h = record {
  epoch = h.epoch;
  owner = λ j s lease at drives.
      present-connect c.clients connection _ lease.owner j fresh (h.owner j s lease at drives);
  word = h.word;
}

-- A lease that is there after a client is gone was there before, and is not that client's alone.
module _ (connection : ConnectionId) (c : LeaderCore) (client : ClientState) (j : SessionId)
    (s' : SessionState) (lease : DriverLease) (known : Dict.get connection c.clients ≡ some client)
    (at : Dict.get j (disconnect connection c).1.sessions ≡ some s')
    (drives : s'.driver ≡ some lease) where
  lease_before :
      (s : SessionState) × (Dict.get j c.sessions ≡ some s)
      × (s.driver ≡ some lease)
      × (s.lease_epoch ≡ s'.lease_epoch)
  lease_before = elim (Option-cases (Dict.get j c.sessions)) [
    | inl missing ↦ absurd (ground (arith, disconnect-kept connection c j))
    | inr (s, e) ↦ (
      s,
      e,
      ground (arith, disconnect-driver connection c client j known),
      ground (arith, disconnect-kept connection c j),
    )
  ]

  lease_survives :
      present c.clients lease.owner j ≡ true
      → present (disconnect connection c).1.clients lease.owner j ≡ true
  unfolding attaches
  lease_survives before =
      rw (disconnect-removes connection c client known)
        (elim (Bool-cases (attaches lease.owner j client)) [
          | inr apart ↦ present-remove c.clients connection client lease.owner j known apart before
          | inl mine ↦ ground (arith, disconnect-driver connection c client j known)
        ])

pub disconnect-Driven :
    (connection : ConnectionId) (c : LeaderCore) → Driven c → Driven (disconnect connection c).1
disconnect-Driven connection c h = elim (Option-cases (Dict.get connection c.clients)) [
  | inl missing ↦ rw (disconnect_unknown connection c missing) h
  | inr (client, known) ↦ record {
    epoch = λ j s' lease at drives.
        let (s, e, same, kept) = lease_before connection c client j s' lease known at drives in
        h.epoch j s lease e same ∙ kept;
    owner = λ j s' lease at drives.
        let (s, e, same, kept) = lease_before connection c client j s' lease known at drives in
        lease_survives connection c client j s' lease known at drives (h.owner j s lease e same);
    word = λ j s' at. grind (arith, disconnect-kept connection c j, h.word j);
  }
]

pub create_session-Driven :
    (id : SessionId) (given : Text) (c : LeaderCore)
    → Driven c
    → Driven (create_session id given c).1
unfolding create_session
create_session-Driven id given c h = record {
  epoch = λ j s lease at drives. grind (arith, h.epoch j, dict_laws);
  owner = λ j s lease at drives. grind (arith, h.owner j, dict_laws);
  word = λ j s at. grind (arith, h.word j, dict_laws, saturation);
}

pub restore_session-Driven :
    (snapshot : SessionControlSnapshot) (c : LeaderCore)
    → Driven c
    → Driven (restore_session snapshot c).1
unfolding restore_session
restore_session-Driven snapshot c h = record {
  epoch = λ j s lease at drives. grind (arith, h.epoch j, dict_laws);
  owner = λ j s lease at drives. grind (arith, h.owner j, dict_laws);
  word = λ j s at. grind (arith, h.word j, dict_laws, saturation);
}

pub rename_session-Driven :
    (id : SessionId) (given : Text) (c : LeaderCore)
    → Driven c
    → Driven (rename_session id given c).1
unfolding rename_session
rename_session-Driven id given c h = record {
  epoch = λ j s lease at drives. grind (arith, h.epoch j, dict_laws);
  owner = λ j s lease at drives. grind (arith, h.owner j, dict_laws);
  word = λ j s at. grind (arith, h.word j, dict_laws, saturation);
}
