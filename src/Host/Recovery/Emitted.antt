-- ===== src/Host/Recovery/Emitted.antt =====
-- src/resident/host.rs: the events of a transition, emitted by the host and replayed from its journal.
use turtletap.Prelude.{
  suc, ◌+◌, ◌≤◌, ◌≡◌, refl, ◌∙◌, true, Option, none, some, List, [], ◌∷◌, ◌++◌, arith, length,
  Result, ok, ℕ_key,
}
use turtletap.Protocol.{SessionId, RequestId, EventSequence, request_key, u64_max}
use turtletap.Core.Ops.{LeaderCore, CoreError}
use turtletap.Core.Commit.{publish, commit, replay}
use turtletap.Application.{Application}
use turtletap.Host.Emit.{emit_rest, emit, emit_all, next_sequence, request_of, last_of}
use turtletap.Core.Naming.{Named}
use turtletap.Core.Steady.{Steady-Named, publish-Steady, commit-Steady}
use turtletap.Host.Load.{Loading, replay_event, replay_events, replay_alone}
use turtletap.Host.Recovery.Steps.{
  Fresh, first-Follows, next_sequence-Named, emit_rest_cons, emit_cons, emit_all_alone,
  emit_all_cons,
}
use turtletap.Host.Recovery.{Follows, publish-Follows, commit-Follows}

-- Replaying the events, a session becomes another.
abbrev pub Replays : (A : Application) → List A.Event → A.Session → A.Session → Type 0
Replays A [] s s' = s ≡ s'
Replays A (e ∷ es) s s' = (m : A.Session) × (A.replay e s ≡ (ok tt, m)) × Replays A es m s'

module _ {A : Application} where
  -- The loader has caught up with the host.
  pub record Caught (id : SessionId) (live : LeaderCore) (l after : Loading A) (s : A.Session)
      : Type 0 where
    pub session : after.session ≡ s
    pub pending : after.pending_effects ≡ l.pending_effects
    pub sequence : EventSequence
    pub follows : Follows id sequence live after.core

  replay_event_ok :
      (id : SessionId) (request : Option RequestId) (q : EventSequence) (e : A.Event)
      (l : Loading A) (m : A.Session)
      → A.replay e l.session ≡ (ok tt, m)
      → (replay id q request l.core).0 ≡ ok tt
      → replay_event id true request q e l ≡ (
        ok tt,
        record l {
          session = m;
          core = (replay id q request l.core).1;
          events = l.events ++ (q, e) ∷ [];
        },
      )
  unfolding replay_event
  replay_event_ok id request q e l m app core = ground arith

  -- What the host emits, and what its loader makes of it.
  pub record Replayed (id : SessionId) (request : Option RequestId) (c : LeaderCore)
      (emitting : Result CoreError (List (EventSequence × A.Event)) × LeaderCore) (l : Loading A)
      (s : A.Session) : Type 0 where
    pub emitted : List (EventSequence × A.Event)
    pub live : LeaderCore
    pub after : Loading A
    pub emits : emitting ≡ (ok emitted, live)
    pub replays : replay_events id true request emitted l ≡ (ok tt, after)
    pub caught : Caught id live l after s
    pub names : Named c → Named live

  replay_events_cons :
      (id : SessionId) (request : Option RequestId) (q : EventSequence) (e : A.Event)
      (emitted : List (EventSequence × A.Event)) (l one : Loading A)
      → replay_event id true request q e l ≡ (ok tt, one)
      → replay_events id true request ((q, e) ∷ emitted) l ≡ replay_events id true none emitted one
  unfolding replay_events
  replay_events_cons id request q e emitted l one first = ground arith

  emit_rest-replay :
      (id : SessionId) (n : EventSequence) (es : List A.Event) (live : LeaderCore) (l : Loading A)
      (s : A.Session)
      → Follows id n live l.core
      → n + length es ≤ u64_max
      → Replays A es l.session s
      → Replayed id none live (emit_rest id es live) l s
  emit_rest-replay id n [] live l s f room app = record {
    emitted = [];
    live = live;
    after = l;
    emits = unfold emit_rest in refl;
    replays = unfold replay_events in refl;
    caught = record { session = app; pending = refl; sequence = n; follows = f };
    names = λ named. named;
  }
  emit_rest-replay id n (e ∷ es) live l s f room (m, first, app) =
      let (sent, back, follows) = publish-Follows id n live l.core f (omega arith) in
      let one = replay_event_ok id none (suc n) e l m first back in
      let rest =
        emit_rest-replay id (suc n) es (publish id live).1
          (record l {
            session = m;
            core = (replay id (suc n) none l.core).1;
            events = l.events ++ (suc n, e) ∷ [];
          })
          s follows (omega arith) app in
      let c = rest.caught in
      record {
        emitted = (suc n, e) ∷ rest.emitted;
        live = rest.live;
        after = rest.after;
        emits = emit_rest_cons id e es live rest.live (suc n) rest.emitted sent rest.emits;
        replays = replay_events_cons id none (suc n) e rest.emitted l _ one ∙ rest.replays;
        caught = record {
          session = c.session;
          pending = c.pending;
          sequence = c.sequence;
          follows = c.follows;
        };
        names = λ named. rest.names (Steady-Named (publish-Steady id live) named);
      }

  replay_alone_cons :
      (id : SessionId) (request : Option RequestId) (q : EventSequence)
      (e : EventSequence × A.Event) (es : List (EventSequence × A.Event)) (l : Loading A)
      → replay_alone id request q (e ∷ es) l ≡ (ok tt, l)
  unfolding replay_alone
  replay_alone_cons id none q e es l = refl
  replay_alone_cons id (some r) q e es l = refl

  emit-replay :
      (id : SessionId) (n : EventSequence) (request : Option RequestId) (e : A.Event)
      (es : List A.Event) (live : LeaderCore) (l : Loading A) (s : A.Session)
      (f : Follows id n live l.core)
      → n + length (e ∷ es) ≤ u64_max
      → Fresh request f.s
      → Replays A (e ∷ es) l.session s
      → (all : Replayed id request live (emit id request (e ∷ es) live) l s) × ((q : EventSequence)
          → replay_alone id request q all.emitted all.after ≡ (ok tt, all.after))
  emit-replay id n request e es live l s f room fresh (m, first, app) =
      let (sent, back, follows) = first-Follows id n request live l.core f (omega arith) fresh in
      let one = replay_event_ok id request (suc n) e l m first back in
      let rest =
        emit_rest-replay id (suc n) es (next_sequence id request live).1
          (record l {
            session = m;
            core = (replay id (suc n) request l.core).1;
            events = l.events ++ (suc n, e) ∷ [];
          })
          s follows (omega arith) app in
      let c = rest.caught in
      (
        record {
          emitted = (suc n, e) ∷ rest.emitted;
          live = rest.live;
          after = rest.after;
          emits = emit_cons id request e es live rest.live (suc n) rest.emitted sent rest.emits;
          replays = replay_events_cons id request (suc n) e rest.emitted l _ one ∙ rest.replays;
          caught = record {
            session = c.session;
            pending = c.pending;
            sequence = c.sequence;
            follows = c.follows;
          };
          names = λ named. rest.names (next_sequence-Named id request live named);
        },
        λ q. replay_alone_cons id request q (suc n, e) rest.emitted rest.after,
      )

  -- All that a transition does to the core, and what its record does to the loader's.
  pub record Transits (id : SessionId) (request : Option RequestId) (c : LeaderCore)
      (es : List A.Event) (l : Loading A) (s : A.Session) : Type 0 where
    pub emitted : List (EventSequence × A.Event)
    pub first : Option EventSequence
    pub last : Option EventSequence
    pub live : LeaderCore
    pub mid : Loading A
    pub after : Loading A
    pub emits : emit_all id request es c ≡ (ok (emitted, first, last), live)
    pub replays : replay_events id true request emitted l ≡ (ok tt, mid)
    pub caught : Caught id live l after s
    pub alone : replay_alone id request caught.sequence emitted mid ≡ (ok tt, after)
    pub names : Named c → Named live

  replay_alone_ok :
      (id : SessionId) (r : RequestId) (q : EventSequence) (l : Loading A)
      → (replay id q (some r) l.core).0 ≡ ok tt
      → replay_alone id (some r) q [] l
        ≡ (ok tt, record l { core = (replay id q (some r) l.core).1 })
  unfolding replay_alone
  replay_alone_ok id r q l done = ground arith

  pub emit_all-Transits :
      (id : SessionId) (n : EventSequence) (request : Option RequestId) (es : List A.Event)
      (live : LeaderCore) (l : Loading A) (s : A.Session) (f : Follows id n live l.core)
      → n + suc (length es) ≤ u64_max
      → Fresh request f.s
      → Replays A es l.session s
      → Transits id request live es l s
  emit_all-Transits id n none [] live l s f room fresh app = record {
    emitted = [];
    first = none;
    last = none;
    live = live;
    mid = l;
    after = l;
    emits = unfold emit_all in refl;
    replays = unfold replay_events in refl;
    caught = record { session = app; pending = refl; sequence = n; follows = f };
    alone = unfold replay_alone in refl;
    names = λ named. named;
  }
  emit_all-Transits id n (some r) [] live l s f room fresh app =
      let (sent, back, follows) = commit-Follows id n live l.core f (omega arith) r fresh in
      record {
        emitted = [];
        first = some (suc n);
        last = some (suc n);
        live = (commit id r live).1;
        mid = l;
        after = record l { core = (replay id (suc n) (some r) l.core).1 };
        emits = emit_all_alone id r live (suc n) sent;
        replays = unfold replay_events in refl;
        caught = record { session = app; pending = refl; sequence = suc n; follows = follows };
        alone = replay_alone_ok id r (suc n) l back;
        names = λ named. Steady-Named (commit-Steady id r live) named;
      }
  emit_all-Transits id n request (e ∷ es) live l s f room fresh app =
      let (all, alone) = emit-replay id n request e es live l s f (omega arith) fresh app in
      let c = all.caught in
      record {
        emitted = all.emitted;
        first = request_of request all.emitted;
        last = last_of all.emitted;
        live = all.live;
        mid = all.after;
        after = all.after;
        emits = emit_all_cons id request e es live all.live all.emitted all.emits;
        replays = all.replays;
        caught = record {
          session = c.session;
          pending = c.pending;
          sequence = c.sequence;
          follows = c.follows;
        };
        alone = alone c.sequence;
        names = all.names;
      }
