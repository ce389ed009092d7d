-- ===== src/Host/Recovery/Steps.antt =====
-- src/resident/host.rs: the steps of the loop that emits events.
use turtletap.Prelude.{suc, ◌<◌, ◌≡◌, Option, none, some, List, [], ◌∷◌, arith, ok, ℕ_key}
use turtletap.Dict
use turtletap.Protocol.{SessionId, RequestId, EventSequence, request_key, u64_max}
use turtletap.Core.Ops.{LeaderCore}
use turtletap.Core.Commit.{publish, commit, replay}
use turtletap.Core.Naming.{Named}
use turtletap.Core.Session.{SessionState}
use turtletap.Core.Steady.{Steady-Named, publish-Steady, commit-Steady}
use turtletap.Host.Emit.{emit_rest, emit, emit_all, next_sequence, request_of, last_of}
use turtletap.Host.Recovery.{Follows, publish-Follows, commit-Follows}

-- The request was not committed before.
abbrev pub Fresh : Option RequestId → SessionState → Type 0
Fresh none s = Unit {0}
Fresh (some r) s = Dict.get r s.committed ≡ none

pub first-Follows :
    (id : SessionId) (n : EventSequence) (request : Option RequestId) (live loaded : LeaderCore)
    (f : Follows id n live loaded)
    → n < u64_max
    → Fresh request f.s
    → ((next_sequence id request live).0 ≡ ok (suc n))
      × ((replay id (suc n) request loaded).0 ≡ ok tt)
      × Follows id (suc n) (next_sequence id request live).1 (replay id (suc n) request loaded).1
unfolding next_sequence
first-Follows id n none live loaded f room fresh = publish-Follows id n live loaded f room
first-Follows id n (some r) live loaded f room fresh =
    commit-Follows id n live loaded f room r fresh

pub next_sequence-Named :
    (id : SessionId) (request : Option RequestId) (c : LeaderCore)
    → Named c
    → Named (next_sequence id request c).1
unfolding next_sequence
next_sequence-Named id none c named = Steady-Named (publish-Steady id c) named
next_sequence-Named id (some r) c named = Steady-Named (commit-Steady id r c) named

pub emit_rest_cons :
    {E : Type 0} (id : SessionId) (e : E) (es : List E) (c d : LeaderCore) (q : EventSequence)
    (emitted : List (EventSequence × E))
    → (publish id c).0 ≡ ok q
    → emit_rest id es (publish id c).1 ≡ (ok emitted, d)
    → emit_rest id (e ∷ es) c ≡ (ok ((q, e) ∷ emitted), d)
unfolding emit_rest
emit_rest_cons id e es c d q emitted sent others = ground arith

pub emit_cons :
    {E : Type 0} (id : SessionId) (request : Option RequestId) (e : E) (es : List E)
    (c d : LeaderCore) (q : EventSequence) (emitted : List (EventSequence × E))
    → (next_sequence id request c).0 ≡ ok q
    → emit_rest id es (next_sequence id request c).1 ≡ (ok emitted, d)
    → emit id request (e ∷ es) c ≡ (ok ((q, e) ∷ emitted), d)
unfolding emit
emit_cons id request e es c d q emitted sent others = ground arith

pub emit_all_alone :
    {E : Type 0} (id : SessionId) (r : RequestId) (c : LeaderCore) (q : EventSequence)
    → (commit id r c).0 ≡ ok q
    → emit_all {E = E} id (some r) [] c ≡ (ok ([], some q, some q), (commit id r c).1)
unfolding emit_all
emit_all_alone id r c q done = ground arith

pub emit_all_cons :
    {E : Type 0} (id : SessionId) (request : Option RequestId) (e : E) (es : List E)
    (c d : LeaderCore) (emitted : List (EventSequence × E))
    → emit id request (e ∷ es) c ≡ (ok emitted, d)
    → emit_all id request (e ∷ es) c
      ≡ (ok (emitted, request_of request emitted, last_of emitted), d)
unfolding emit_all
emit_all_cons id request e es c d emitted done = ground arith
