-- ===== src/Host/Emit.antt =====
-- src/resident/host.rs: the part of `apply_transition` that is about the leader core, and the window of
-- events of a session.
use turtletap.Prelude.{
  ℕ, Option, none, some, List, [], ◌∷◌, ◌==◌, ltb, length, if◌then◌else◌, ok, err, Op, pure, ◌>>=◌,
  ℕ_key,
}
use turtletap.Protocol.{SessionId, EventSequence, RequestId, SessionSummary}
use turtletap.Core.Ops
use turtletap.Core.Ops.{LeaderCore, CoreError}
use turtletap.Core.Commit

-- `(index == 0).then_some(request).flatten()` and the choice of the call: the sequence of an event.
unfoldable pub next_sequence : SessionId → Option RequestId → Op LeaderCore CoreError EventSequence
next_sequence session none = Commit.publish session
next_sequence session (some request) = Commit.commit session request

-- The loop over the events: only the first carries the request. With the events come the sequence
-- of the request and the last one.
module _ {E : Type 0} where
  unfoldable pub emit_rest : SessionId → List E → Op LeaderCore CoreError (List (EventSequence × E))
  emit_rest session [] c = (ok [], c)
  emit_rest session (e ∷ es) c =
      let step = Commit.publish session c in
      let rest = emit_rest session es step.1 in
      elim step.0 [
        | err x ↦ (err x, step.1)
        | ok sequence ↦ elim rest.0 [
          | err x ↦ (err x, rest.1)
          | ok emitted ↦ (ok ((sequence, e) ∷ emitted), rest.1)
        ]
      ]

  unfoldable pub emit :
      SessionId → Option RequestId → List E → Op LeaderCore CoreError (List (EventSequence × E))
  unfolding emit_rest
  emit session request [] = pure []
  emit session request (e ∷ es) = do
    sequence ← next_sequence session request
    emitted ← emit_rest session es
    pure ((sequence, e) ∷ emitted)

  unfoldable pub last_of : List (EventSequence × E) → Option EventSequence
  last_of [] = none
  last_of ((sequence, e) ∷ []) = some sequence
  last_of (e ∷ f ∷ emitted) = last_of (f ∷ emitted)

  -- The sequence of the request, where there is one, and the last one.
  unfoldable pub request_of : Option RequestId → List (EventSequence × E) → Option EventSequence
  request_of none emitted = none
  request_of (some request) [] = none
  request_of (some request) ((sequence, e) ∷ emitted) = some sequence

-- A request without events is committed alone.
unfoldable pub commit_alone :
    SessionId → Option RequestId → Op LeaderCore CoreError (Option EventSequence)
commit_alone session none = pure none
commit_alone session (some request) = do
  sequence ← Commit.commit session request
  pure (some sequence)

-- What the events and the request of a transition make of the core: the events with their sequences,
-- the sequence of the request and the last one.
unfoldable pub emit_all :
    {E : Type 0}
    → SessionId
    → Option RequestId
    → List E
    → Op LeaderCore CoreError
        (List (EventSequence × E) × Option EventSequence × Option EventSequence)
unfolding emit commit_alone last_of request_of
emit_all session request [] = do
  sequence ← commit_alone session request
  pure ([], sequence, sequence)
emit_all session request (e ∷ es) = do
  emitted ← emit session request (e ∷ es)
  pure (emitted, request_of request emitted, last_of emitted)

unfoldable pub or_else : Option EventSequence → EventSequence → EventSequence
or_else none default = default
or_else (some sequence) default = sequence

unfoldable pub first_some : Option EventSequence → Option EventSequence → Option EventSequence
first_some none other = other
first_some (some sequence) other = some sequence

-- `last_sequence.is_some().then(unix_millis)`
unfoldable pub commit_time : ℕ → Option EventSequence → Option ℕ
commit_time now none = none
commit_time now (some sequence) = some now

unfoldable pub stamp : SessionId → Option ℕ → LeaderCore → LeaderCore
stamp session none c = c
stamp session (some at) c = Ops.stamp_activity session at c

-- `self.summary(session)`
unfoldable pub find_summary : SessionId → List SessionSummary → Option SessionSummary
find_summary id [] = none
find_summary id (s ∷ ss) = let rest = find_summary id ss in if s.id == id then some s else rest

-- `while hosted.events.len() > self.config.event_history { hosted.events.pop_front(); }`
unfoldable pub trim_events : {X : Type 0} → ℕ → List X → List X
trim_events limit [] = []
trim_events limit (e ∷ es) =
    let rest = trim_events limit es in if ltb limit (length (e ∷ es)) then rest else e ∷ es
