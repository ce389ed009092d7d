-- ===== src/Core/Logged.antt =====
-- src/resident/core.rs: the committed requests of a session and their order.
use turtletap.Prelude.{
  ℕ, ◌≤◌, ◌≡◌, refl, ite, Bool, true, false, ◌||◌, Option, none, some, List, [], ◌∷◌, ◌++◌, arith,
  length, map, ℕ_key, text_key,
}
use turtletap.Dict
use turtletap.Dict.{Dict, dict_laws, get-insert, get-empty}
use turtletap.HashSet.{mem}
use turtletap.Protocol.{RequestId, EventSequence, request_key, RequestId-discrete, u64_max}
use turtletap.Core.Session.{SessionState, remember, SessionControlSnapshot}
use turtletap.Core.Window.{Distinct, expire-length, expire-mem, expire-Distinct, expire-get}
use turtletap.Core.Ops.{collect, restored}

abbrev pub is_some {ℓ} : {A : Type ℓ} → Option A → Bool
is_some none = false
is_some (some a) = true

pub record Logged (window : ℕ) (s : SessionState) : Type 0 where
  pub bounded : length s.commit_order ≤ window
  pub distinct : Distinct s.commit_order
  pub indexed : (r : RequestId) → mem r s.commit_order ≡ is_some (Dict.get r s.committed)
  pub past : (r : RequestId) (q : EventSequence) → Dict.get r s.committed ≡ some q → q ≤ s.sequence
  pub word : s.sequence ≤ u64_max

pub mem-append_one :
    (xs : List RequestId) (r q : RequestId)
    → mem q (xs ++ r ∷ []) ≡ ite (RequestId-discrete r q) true (mem q xs)
unfolding mem
mem-append_one [] r q = refl
mem-append_one (x ∷ xs) r q = ground (arith, mem-append_one xs r q)

pub Distinct-append_one :
    (xs : List RequestId) (r : RequestId) → Distinct xs → mem r xs ≡ false → Distinct (xs ++ r ∷ [])
unfolding mem
Distinct-append_one [] r d h = (refl, tt)
Distinct-append_one (x ∷ xs) r d h =
    (ground (arith, mem-append_one xs r x), Distinct-append_one xs r d.1 (ground arith))

-- A new request is written with a sequence that is not older than the session's, and the window cut.
pub remember-Logged :
    (window : ℕ) (r : RequestId) (q : EventSequence) (s : SessionState)
    → Logged window s
    → Dict.get r s.committed ≡ none
    → s.sequence ≤ q
    → q ≤ u64_max
    → Logged window (remember window r q s)
unfolding remember
remember-Logged window r q s h fresh newer word =
    let order = s.commit_order ++ r ∷ [] in
    let entries = Dict.insert r q s.committed in
    let d : Distinct order =
      Distinct-append_one s.commit_order r h.distinct (ground (arith, h.indexed r)) in
    record {
      bounded = expire-length window order entries;
      distinct = expire-Distinct window order entries d;
      indexed = λ x. ground (
        arith,
        expire-get window order entries x d,
        expire-mem window order entries x,
        mem-append_one s.commit_order r x,
        get-insert r x q s.committed,
        h.indexed x,
      );
      past = λ x v e.
          ground
            (arith, expire-get window order entries x d, get-insert r x q s.committed, h.past x v);
      word = word;
    }

abbrev pub requests : List (RequestId × EventSequence) → List RequestId
requests l = map (λ e. e.0) l

-- What a snapshot must be to be restored into a core of this window.
abbrev pub NotAfter : EventSequence → List (RequestId × EventSequence) → Type 0
NotAfter q [] = Unit {0}
NotAfter q ((r, v) ∷ l) = (v ≤ q) × NotAfter q l

pub record Storable (window : ℕ) (snapshot : SessionControlSnapshot) : Type 0 where
  pub bounded : length snapshot.committed ≤ window
  pub distinct : Distinct (requests snapshot.committed)
  pub past : NotAfter snapshot.sequence snapshot.committed
  pub word : snapshot.sequence ≤ u64_max

length-requests : (l : List (RequestId × EventSequence)) → length (requests l) ≡ length l
length-requests [] = refl
length-requests ((r, v) ∷ l) = omega (arith, length-requests l)

collect-indexed :
    (l : List (RequestId × EventSequence)) (m : Dict RequestId EventSequence) (x : RequestId)
    → is_some (Dict.get x (collect l m)) ≡ mem x (requests l) || is_some (Dict.get x m)
unfolding collect mem
collect-indexed [] m x = refl
collect-indexed ((r, v) ∷ l) m x =
    ground (arith, collect-indexed l (Dict.insert r v m) x, get-insert r x v m)

collect-past :
    (q : EventSequence) (l : List (RequestId × EventSequence)) (m : Dict RequestId EventSequence)
    (x : RequestId) (v : EventSequence)
    → NotAfter q l
    → ((y : RequestId) (w : EventSequence) → Dict.get y m ≡ some w → w ≤ q)
    → Dict.get x (collect l m) ≡ some v
    → v ≤ q
unfolding collect
collect-past q [] m x v all old e = old x v e
collect-past q ((r, w) ∷ l) m x v all old e =
    collect-past q l (Dict.insert r w m) x v all.1
      (λ y u f. ground (arith, get-insert r y w m, old y u)) e

pub restored-Logged :
    (window : ℕ) (snapshot : SessionControlSnapshot)
    → Storable window snapshot
    → Logged window (restored snapshot)
unfolding restored
restored-Logged window snapshot h = record {
  bounded = omega (arith, length-requests snapshot.committed, h.bounded);
  distinct = h.distinct;
  indexed = λ r.
      ground
        (arith, collect-indexed snapshot.committed Dict.empty r, get-empty {V = EventSequence} r);
  past = λ r q e.
      collect-past snapshot.sequence snapshot.committed Dict.empty r q h.past
        (λ y w f. ground (arith, get-empty {V = EventSequence} y)) e;
  word = h.word;
}
