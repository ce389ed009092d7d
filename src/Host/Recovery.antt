-- ===== src/Host/Recovery.antt =====
-- src/resident/host.rs: a session that is loaded from its journal follows the one that wrote it. Here
-- is the part of the leader core; the child modules have the events of a transition, its summary, its
-- effects, the record that is written, the attempts at an effect, and the checkpoint.
pub mod Steps
pub mod Emitted
pub mod Summaries
pub mod Effects
pub mod Positions
pub mod Stages
pub mod Logged
pub mod Attempted
pub mod Checkpoint
use turtletap.Prelude.{
  ℕ, suc, ◌+◌, ◌≤◌, ◌<◌, ◌≡◌, refl, ap, subst, Option, none, some, List, [], ◌∷◌, arith, Result, ok,
  err, ℕ_key, text_key,
}
use turtletap.Dict
use turtletap.Dict.{dict_laws}
use turtletap.Protocol.{SessionId, RequestId, EventSequence, request_key, saturating_add, u64_max}
use turtletap.Protocol.Saturation.{saturating_add-one}
use turtletap.Core.Session.{SessionState, remember}
use turtletap.Core.Ops.{LeaderCore, stamp_activity, put_session, latest}
use turtletap.Core.Commit.{publish, commit, replay, replay_in}
use turtletap.Core.Equations.{publish_found, commit_fresh, replay_newer}
use turtletap.Host.Emit.{stamp}

-- Two states of a session with the same log, at sequence `n`; who is attached and who drives is not
-- in the journal.
pub record Agree (n : EventSequence) (s t : SessionState) : Type 0 where
  pub live : s.sequence ≡ n
  pub loaded : t.sequence ≡ n
  pub order : s.commit_order ≡ t.commit_order
  pub committed : s.committed ≡ t.committed
  pub time : s.last_event_at ≡ t.last_event_at

pub record Follows (id : SessionId) (n : EventSequence) (live loaded : LeaderCore) : Type 0 where
  pub s : SessionState
  pub t : SessionState
  pub at_live : Dict.get id live.sessions ≡ some s
  pub at_loaded : Dict.get id loaded.sessions ≡ some t
  pub window : live.deduplication_window ≡ loaded.deduplication_window
  pub agree : Agree n s t

remember-Agree :
    (window : ℕ) (r : RequestId) (n : EventSequence) (s t : SessionState)
    → Agree n s t
    → Agree (suc n) (remember window r (suc n) s) (remember window r (suc n) t)
unfolding remember
remember-Agree window r n s t a = record {
  live = refl;
  loaded = refl;
  order = ground (arith, a.order, a.committed);
  committed = ground (arith, a.order, a.committed);
  time = a.time;
}

put-Follows :
    (id : SessionId) (n m : EventSequence) (live loaded : LeaderCore) (s t : SessionState)
    → Follows id n live loaded
    → Agree m s t
    → Follows id m (put_session id s live) (put_session id t loaded)
put-Follows id n m live loaded s t f a = record {
  s = s;
  t = t;
  at_live = grind (arith, dict_laws);
  at_loaded = grind (arith, dict_laws);
  window = f.window;
  agree = a;
}

module _ (id : SessionId) (n : EventSequence) (live loaded : LeaderCore)
    (f : Follows id n live loaded) (room : n < u64_max) where
  next_sequence_is : saturating_add f.s.sequence 1 ≡ suc n
  next_sequence_is = let same = f.agree.live in rw same (omega (arith, saturating_add-one n room))

  behind : f.t.sequence < suc n
  behind = let same = f.agree.loaded in omega (arith, same)

  -- An event without a request.
  pub publish-Follows :
      ((publish id live).0 ≡ ok (suc n))
      × ((replay id (suc n) none loaded).0 ≡ ok tt)
      × Follows id (suc n) (publish id live).1 (replay id (suc n) none loaded).1
  publish-Follows =
      let a = f.agree in
      let moved : Agree (suc n) (record f.s { sequence = suc n })
          (record f.t { sequence = suc n }) =
        record {
          live = refl;
          loaded = refl;
          order = a.order;
          committed = a.committed;
          time = a.time;
        } in
      let put = put-Follows id n (suc n) live loaded _ _ f moved in
      rw
        (
          publish_found id live f.s f.at_live,
          next_sequence_is,
          replay_newer id loaded f.t (suc n) none f.at_loaded behind,
        )
        (refl, refl, unfold replay_in in put)

  -- A request that is committed for the first time.
  pub commit-Follows :
      (r : RequestId)
      → Dict.get r f.s.committed ≡ none
      → ((commit id r live).0 ≡ ok (suc n))
        × ((replay id (suc n) (some r) loaded).0 ≡ ok tt)
        × Follows id (suc n) (commit id r live).1 (replay id (suc n) (some r) loaded).1
  commit-Follows r fresh =
      let moved = remember-Agree live.deduplication_window r n f.s f.t f.agree in
      let put = put-Follows id n (suc n) live loaded _ _ f moved in
      rw
        (
          commit_fresh id live f.s r f.at_live fresh,
          next_sequence_is,
          replay_newer id loaded f.t (suc n) (some r) f.at_loaded behind,
        )
        (
          refl,
          refl,
          unfold replay_in in
              subst
                (λ w.
                  Follows id (suc n)
                    (put_session id (remember live.deduplication_window r (suc n) f.s) live)
                    (put_session id (remember w r (suc n) f.t) loaded))
                f.window put,
        )

stamp_found :
    (id : SessionId) (at : ℕ) (c : LeaderCore) (s : SessionState)
    → Dict.get id c.sessions ≡ some s
    → stamp_activity id at c
      ≡ put_session id (record s { last_event_at = some (latest s.last_event_at at) }) c
unfolding stamp_activity
stamp_found id at c s e = ground arith

pub stamp-Follows :
    (id : SessionId) (n : EventSequence) (live loaded : LeaderCore) (time : Option ℕ)
    → Follows id n live loaded
    → Follows id n (stamp id time live) (stamp id time loaded)
unfolding stamp
stamp-Follows id n live loaded none f = f
stamp-Follows id n live loaded (some at) f =
    let a = f.agree in
    rw (stamp_found id at live f.s f.at_live, stamp_found id at loaded f.t f.at_loaded)
      (put-Follows id n n live loaded _ _ f (record {
        live = a.live;
        loaded = a.loaded;
        order = a.order;
        committed = a.committed;
        time = ap (λ time. some (latest time at)) a.time;
      }))
