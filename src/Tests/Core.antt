-- ===== src/Tests/Core.antt =====
-- src/resident/core.rs at a core with one session, a driver and a viewer of another client.
use turtletap.Prelude.{
  ℕ, ◌≡◌, ◌≢◌, refl, true, false, none, some, [], ◌∷◌, arith, ok, err, ℕ_key, text_key, ℕ_discrete,
  text_discrete,
}
use turtletap.Dict
use turtletap.HashSet
use turtletap.Protocol.{RequestId, request_key, RequestId-discrete, drive, saturating_add, Text}
use turtletap.Core.Names.{normalize_name, valid_name}
use turtletap.Core.Session.{SessionState, ClientState}
use turtletap.Core.Ops.{
  LeaderCore, new, with_deduplication_window, connect, create_session, restore_session,
  rename_session, disconnect, fresh_session, not_driver, apply, duplicate,
}
use turtletap.Core.Attach.{attach, detach, release_driver, remove_session}
use turtletap.Core.Commit.{authorize, commit, snapshot}
use turtletap.Core.Steps.{
  Reach, here, next, connects, creates, attaches, start, IsValid, Reach-IsValid,
}
use turtletap.Core.Fencing.{authorize-stale, Later}

-- All that a run computes with.
unfoldable pub program : Unit {0}
unfolding new with_deduplication_window connect create_session attach detach authorize commit
    release_driver disconnect normalize_name valid_name ℕ_discrete text_discrete RequestId-discrete
    saturating_add rename_session restore_session remove_session snapshot Dict.get Dict.insert
    Dict.remove Dict.empty HashSet.contains HashSet.insert HashSet.remove HashSet.new
    HashSet.to_list HashSet.len HashSet.mem
program = tt

-- "build"
abbrev pub build : Text
build = b'b' ∷ b'u' ∷ b'i' ∷ b'l' ∷ b'd' ∷ []

-- Connection 1 of client 11 and connection 2 of client 22; session 5.
abbrev pub joined : LeaderCore
joined = connect 2 22 (connect 1 11 (create_session 5 build (start 3)).1)

-- Client 11 drives at epoch 1.
abbrev pub driven : LeaderCore
driven = (attach 1 5 drive false joined).1

-- Client 22 takes over at epoch 2.
abbrev pub taken : LeaderCore
taken = (attach 2 5 drive true driven).1

abbrev pub request : ℕ → RequestId
request n = record { client = 22; sequence = n }

forced_takeover_fences_the_previous_driver :
    (authorize 1 5 1 (record { client = 11; sequence = 1 }) taken).0 ≡ err not_driver
unfolding program
forced_takeover_fences_the_previous_driver = refl

a_retried_request_is_not_applied_twice :
    ((authorize 2 5 2 (request 4) taken).0 ≡ ok apply)
    × ((authorize 2 5 2 (request 4) (commit 5 (request 4) taken).1).0 ≡ ok (duplicate 1))
unfolding program
a_retried_request_is_not_applied_twice = (refl, refl)

joined-Reach : Reach (start 3) joined
joined-Reach =
    next
      (next (next here (creates 5 build (unfold program in refl)))
        (connects 1 11 (unfold program in refl)))
      (connects 2 22 (unfold program in refl))

driven-Reach : Reach (start 3) driven
driven-Reach = next joined-Reach (attaches 1 5 drive false)

taken-Reach : Reach (start 3) taken
taken-Reach = next driven-Reach (attaches 2 5 drive true)

Reach-IsValid_example : IsValid taken
Reach-IsValid_example = Reach-IsValid 3 taken-Reach

pub taken-IsValid : IsValid taken
taken-IsValid = Reach-IsValid 3 taken-Reach

pub driven-IsValid : IsValid driven
driven-IsValid = Reach-IsValid 3 driven-Reach

abbrev pub session_at : LeaderCore → SessionState
session_at c = elim (Dict.get 5 c.sessions) [ none ↦ fresh_session 0 [] | some s ↦ s ]

abbrev pub client_at : ℕ → LeaderCore → ClientState
client_at k c = elim (Dict.get k c.clients) [
  | none ↦ record { instance_id = 0; sessions = HashSet.new }
  | some client ↦ client
]

authorize-stale_example : (authorize 1 5 1 (request 7) taken).0 ≢ ok apply
unfolding program
authorize-stale_example =
    authorize-stale taken taken 5 (session_at taken) 1 1 (request 7) taken-IsValid refl
      (omega arith) Later.here
