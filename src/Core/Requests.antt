-- ===== src/Core/Requests.antt =====
-- src/resident/core.rs: a request that is committed is not applied again.
use turtletap.Prelude.{
  ℕ, suc, ◌+◌, ◌≡◌, ◌≤◌, ◌<◌, ap, subst, ite, true, false, none, some, List, [], ◌∷◌, ◌++◌, arith,
  ℕ_key, ok, length, length-append, Option-cases, inl, inr,
}
use turtletap.Dict
use turtletap.Dict.{Dict, dict_laws, get-insert}
use turtletap.HashSet
use turtletap.HashSet.{mem}
use turtletap.Protocol.{
  SessionId, RequestId, request_key, RequestId-discrete, ConnectionId, LeaseEpoch, EventSequence,
  saturating_add,
}
use turtletap.Core.Session.{SessionState, ClientState, remember, expire}
use turtletap.Core.Window.{Distinct, expire-get}
use turtletap.Core.Logged.{Logged, mem-append_one, Distinct-append_one}
use turtletap.Core.Sound.{Sound}
use turtletap.Core.Sound.Writes.{commit-Sound}
use turtletap.Core.Steady.{commit-Steady}
use turtletap.Core.Ops.{LeaderCore, duplicate}
use turtletap.Core.Commit.{commit, authorize}
use turtletap.Core.Equations.{commit_known, commit_fresh}

-- How many requests stand behind this one in the order.
unfoldable pub newer : RequestId → List RequestId → ℕ
newer r [] = 0
newer r (x ∷ xs) = ite (RequestId-discrete x r) (length xs) (newer r xs)

newer-append_one :
    (r x : RequestId) (xs : List RequestId)
    → mem r xs ≡ true
    → newer r (xs ++ x ∷ []) ≡ suc (newer r xs)
unfolding newer mem
newer-append_one r x [] h = cc
newer-append_one r x (y ∷ ys) h = ground (arith, newer-append_one r x ys, length-append ys (x ∷ []))

newer-last : (r : RequestId) (xs : List RequestId) → mem r xs ≡ false → newer r (xs ++ r ∷ []) ≡ 0
unfolding newer mem
newer-last r [] h = ground arith
newer-last r (y ∷ ys) h = ground (arith, newer-last r ys)

-- A request with fewer than `window` behind it outlives the loop.
expire-keeps :
    (window : ℕ) (order : List RequestId) (m : Dict RequestId EventSequence) (r : RequestId)
    → mem r order ≡ true
    → newer r order < window
    → (mem r (expire window order m).0 ≡ true) × (newer r (expire window order m).0 ≡ newer r order)
unfolding newer mem expire
expire-keeps window [] m r h few = cc
expire-keeps window (x ∷ xs) m r h few = ground (arith, expire-keeps window xs (Dict.remove x m) r)

-- A session that answers `r` with `q`, with `k` newer requests in its order.
pub record Remembers (r : RequestId) (q : EventSequence) (k : ℕ) (s : SessionState) : Type 0 where
  pub entry : Dict.get r s.committed ≡ some q
  pub age : newer r s.commit_order ≤ k

module _ (window : ℕ) (x : RequestId) (v : EventSequence) (s : SessionState) (log : Logged window s)
    (fresh : Dict.get x s.committed ≡ none) where
  order_with-Distinct : Distinct (s.commit_order ++ x ∷ [])
  order_with-Distinct =
      Distinct-append_one s.commit_order x log.distinct (ground (arith, log.indexed x))

  -- The request just committed is known at its sequence.
  remember_self : 0 < window → Remembers x v 0 (remember window x v s)
  unfolding remember
  remember_self room =
      let order = s.commit_order ++ x ∷ [] in
      let entries = Dict.insert x v s.committed in
      let last = newer-last x s.commit_order (ground (arith, log.indexed x)) in
      let inside : mem x order ≡ true = ground (arith, mem-append_one s.commit_order x x) in
      let kept = expire-keeps window order entries x inside (omega arith) in
      record {
        entry = ground (
          arith,
          expire-get window order entries x order_with-Distinct,
          get-insert x x v s.committed,
          kept,
          inside,
        );
        age = omega arith;
      }

  -- One more request makes the others one older.
  remember_other :
      (r : RequestId) (q : EventSequence) (k : ℕ)
      → Remembers r q k s
      → suc k < window
      → Remembers r q (suc k) (remember window x v s)
  unfolding remember
  remember_other r q k known room =
      let order = s.commit_order ++ x ∷ [] in
      let entries = Dict.insert x v s.committed in
      let before : mem r s.commit_order ≡ true = ground (arith, log.indexed r, known.entry) in
      let older = newer-append_one r x s.commit_order before in
      let inside : mem r order ≡ true = ground (arith, mem-append_one s.commit_order x r) in
      let kept = expire-keeps window order entries r inside (omega (arith, known.age)) in
      record {
        entry = ground (
          arith,
          expire-get window order entries r order_with-Distinct,
          get-insert x r v s.committed,
          kept,
          inside,
          known.entry,
        );
        age = omega (arith, known.age);
      }

-- The session of a core answers `r` with `q`.
abbrev pub Knows : SessionId → RequestId → EventSequence → ℕ → LeaderCore → Type 0
Knows id r q k c = (s : SessionState) × (Dict.get id c.sessions ≡ some s) × Remembers r q k s

commit_new-Knows :
    (id : SessionId) (r : RequestId) (c : LeaderCore) (s : SessionState)
    → Sound c
    → 0 < c.deduplication_window
    → Dict.get id c.sessions ≡ some s
    → Dict.get r s.committed ≡ none
    → Knows id r (saturating_add s.sequence 1) 0 (commit id r c).1
commit_new-Knows id r c s sound room at fresh = rw (commit_fresh id c s r at fresh) (
  remember c.deduplication_window r (saturating_add s.sequence 1) s,
  grind (arith, dict_laws),
  remember_self c.deduplication_window r (saturating_add s.sequence 1) s (sound.at id s at) fresh
      room,
)

commit_next-Knows :
    (id : SessionId) (r x : RequestId) (q : EventSequence) (k : ℕ) (c : LeaderCore)
    → Sound c
    → suc k < c.deduplication_window
    → Knows id r q k c
    → Knows id r q (suc k) (commit id x c).1
commit_next-Knows id r x q k c sound room (s, at, known) =
    elim (Option-cases (Dict.get x s.committed)) [
      | inr (old, seen) ↦
          rw (commit_known id c s x old at seen)
            (s, at, record { entry = known.entry; age = omega (arith, known.age) })
      | inl fresh ↦ rw (commit_fresh id c s x at fresh) (
        remember c.deduplication_window x (saturating_add s.sequence 1) s,
        grind (arith, dict_laws),
        remember_other c.deduplication_window x (saturating_add s.sequence 1) s (sound.at id s at)
            fresh r q k known room,
      )
    ]

-- Commits in a row, as the host makes them.
unfoldable pub commit_all : SessionId → List RequestId → LeaderCore → LeaderCore
commit_all id [] c = c
commit_all id (x ∷ xs) c = commit_all id xs (commit id x c).1

-- The session of a core answers `r` with `q`.
abbrev pub Answers : SessionId → RequestId → EventSequence → LeaderCore → Type 0
Answers id r q c =
    (s : SessionState) × (Dict.get id c.sessions ≡ some s) × (Dict.get r s.committed ≡ some q)

commit_all-Answers :
    (id : SessionId) (r : RequestId) (xs : List RequestId) (q : EventSequence) (k : ℕ)
    (c : LeaderCore)
    → Sound c
    → k + length xs < c.deduplication_window
    → Knows id r q k c
    → Answers id r q (commit_all id xs c)
unfolding commit_all
commit_all-Answers id r [] q k c sound room (s, at, known) = (s, at, known.entry)
commit_all-Answers id r (x ∷ xs) q k c sound room known =
    let same = (commit-Steady id x c).window in
    commit_all-Answers id r xs q (suc k) (commit id x c).1 (commit-Sound id x c sound) (omega arith)
      (commit_next-Knows id r x q k c sound (omega arith) known)

authorize-Answers :
    (id : SessionId) (r : RequestId) (q : EventSequence) (c : LeaderCore) (k : ConnectionId)
    (client : ClientState) (lease : LeaseEpoch)
    → Answers id r q c
    → Dict.get k c.clients ≡ some client
    → r.client ≡ client.instance_id
    → HashSet.contains id client.sessions ≡ true
    → authorize k id lease r c ≡ (ok (duplicate q), c)
unfolding authorize
authorize-Answers id r q c k client lease (s, at, entry) known mine inside = ground arith

-- Where the logs are sound, and a request is committed for the first time, and after it fewer others
-- to that session than the window holds: a retry by its client, on any connection that is attached and under any lease, is answered with
-- the sequence of the first commit, and is not applied again.
pub authorize-commit :
    (id : SessionId) (r : RequestId) (c d : LeaderCore) (q : EventSequence) (s : SessionState)
    (xs : List RequestId) (k : ConnectionId) (client : ClientState) (lease : LeaseEpoch)
    → Sound c
    → Dict.get id c.sessions ≡ some s
    → Dict.get r s.committed ≡ none
    → commit id r c ≡ (ok q, d)
    → length xs < c.deduplication_window
    → Dict.get k (commit_all id xs d).clients ≡ some client
    → r.client ≡ client.instance_id
    → HashSet.contains id client.sessions ≡ true
    → authorize k id lease r (commit_all id xs d) ≡ (ok (duplicate q), commit_all id xs d)
authorize-commit id r c d q s xs k client lease sound at fresh committed room known mine inside =
    let fact = commit_fresh id c s r at fresh in
    let after : (commit id r c).1 ≡ d = ap (λ p. p.1) committed in
    let number : saturating_add s.sequence 1 ≡ q = ground (arith, fact) in
    let same = (commit-Steady id r c).window in
    let knows : Knows id r q 0 d = subst (Knows id r q 0) after (
      subst (λ v. Knows id r v 0 (commit id r c).1) number
        (commit_new-Knows id r c s sound (omega arith) at fresh)) in
    let answers : Answers id r q (commit_all id xs d) =
      commit_all-Answers id r xs q 0 d (subst Sound after (commit-Sound id r c sound))
        (subst (λ e. 0 + length xs < e.deduplication_window) after (omega arith)) knows in
    authorize-Answers id r q (commit_all id xs d) k client lease answers known mine inside
