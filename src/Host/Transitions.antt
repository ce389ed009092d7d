-- ===== src/Host/Transitions.antt =====
-- src/resident/host.rs: `apply_transition`, by which the events and effects of a session come to be.
use turtletap.Prelude.{
  ℕ, suc, ◌+◌, Option, none, some, List, [], ◌∷◌, ◌++◌, ◌==◌, length, if◌then◌else◌, Result, ok,
  err, Op, pure, ok_or, gets, modify, ◌>>=◌, ◌>>◌, ℕ_key,
}
use turtletap.Dict
use turtletap.Protocol.{SessionId, EventSequence, RequestId, SessionSummary}
use turtletap.Core.Ops.{LeaderCore, CoreError}
use turtletap.Core.Commit
use turtletap.Core.Lookup
use turtletap.Application.{Application, EffectId, EffectRequest, SessionTransition}
use turtletap.Host.{
  HostState, HostedSession, PendingEffect, StoredEffect, HostError, core_failed, json_failed,
  unknown_resident_session, transition, event,
}
use turtletap.Host.Emit.{
  emit_all, or_else, first_some, commit_time, stamp, find_summary, trim_events,
}
use turtletap.Host.Send.{broadcast}
use turtletap.Host.Journals.{append_log}
use turtletap.Host.Effects.{
  pending_effect, encode_effect, schedule_effect, dispatch_effects, put_hosted,
}

module _ {A : Application} where
  unfoldable pub summary : HostState A → SessionId → Option SessionSummary
  unfolding find_summary
  summary h id = find_summary id (Lookup.sessions h.core)

  -- `self.core.method(...).map_err(io::Error::other)?`
  abbrev pub in_core : {X : Type 0} → Op LeaderCore CoreError X → Op (HostState A) (HostError A) X
  in_core {X} m h =
      let step = m h.core in
      let after = record h { core = step.1 } in
      let answer : Result (HostError A) X × HostState A = elim step.0 [
        | err e ↦ (err (core_failed e), after)
        | ok x ↦ (ok x, after)
      ] in
      answer

  -- `pending_effect` for each effect; each draws an identity.
  unfoldable pub pending_all : Option ℕ → ℕ → List (EffectRequest A.Effect) → List (PendingEffect A)
  pending_all default drawn [] = []
  pending_all default drawn (r ∷ rs) =
      pending_effect r default (A.new_id drawn) ∷ pending_all default (suc drawn) rs

  unfoldable pub encode_all : List (PendingEffect A) → Result (HostError A) (List (StoredEffect A))
  encode_all [] = ok []
  encode_all (p ∷ ps) =
      let rest = encode_all ps in
      elim (encode_effect p) [
        | err e ↦ err e
        | ok stored ↦ elim rest [ err e ↦ err e | ok more ↦ ok (stored ∷ more) ]
      ]

  abbrev pub draw : List (EffectRequest A.Effect) → HostState A → HostState A
  draw requests h = record h {
    around = record h.around { drawn = h.around.drawn + length requests };
  }

  -- `pending_effects.retain(|effect| effect.id != completed)`
  unfoldable pub retain_effects : EffectId → List (PendingEffect A) → List (PendingEffect A)
  retain_effects id [] = []
  retain_effects id (p ∷ ps) =
      let rest = retain_effects id ps in if p.id == id then rest else p ∷ rest

  -- The effects of a session behind a transition.
  unfoldable pub settle :
      Option EffectId → List (PendingEffect A) → HostedSession A → HostedSession A
  unfolding retain_effects
  settle none pending hosted = record hosted { pending_effects = hosted.pending_effects ++ pending }
  settle (some id) pending hosted = record hosted {
    pending_effects = retain_effects id hosted.pending_effects ++ pending;
    active_effect = none;
  }

  find_hosted : SessionId → Op (HostState A) (HostError A) (HostedSession A)
  find_hosted session h = ok_or unknown_resident_session (Dict.get session h.sessions) h

  to_event_value : A.Event → Op (HostState A) (HostError A) A.Value
  to_event_value e h = elim (A.event_value e) [
    | err x ↦ (err (json_failed x), h)
    | ok v ↦ (ok v, h)
  ]

  subscribers_of : SessionId → LeaderCore → Op (HostState A) (HostError A) (List ℕ)
  subscribers_of session c h = elim (Commit.subscribers c session) [
    | err e ↦ (err (core_failed e), h)
    | ok ks ↦ (ok ks, h)
  ]

  unfoldable pub record_and_broadcast :
      SessionId → EventSequence → A.Event → Op (HostState A) (HostError A) (Unit {0})
  unfolding find_hosted trim_events to_event_value subscribers_of
  record_and_broadcast session sequence e = do
    hosted ← find_hosted session
    config ← gets (λ h. h.config)
    modify (
        put_hosted session (record hosted {
          events = trim_events config.event_history (hosted.events ++ (sequence, e) ∷ []);
        }))
    value ← to_event_value e
    core ← gets (λ h. h.core)
    subscribers ← subscribers_of session core
    modify (broadcast subscribers (event session sequence value))

  unfoldable pub broadcast_events :
      SessionId → List (EventSequence × A.Event) → Op (HostState A) (HostError A) (Unit {0})
  unfolding record_and_broadcast
  broadcast_events session [] h = (ok tt, h)
  broadcast_events session ((sequence, e) ∷ emitted) h =
      let step = record_and_broadcast session sequence e h in
      let rest = broadcast_events session emitted step.1 in
      elim step.0 [ err x ↦ (err x, step.1) | ok _ ↦ rest ]

  encoded : List (PendingEffect A) → Op (HostState A) (HostError A) (List (StoredEffect A))
  encoded pending h = (encode_all pending, h)

  time_of : Option EventSequence → HostState A → Option ℕ
  time_of last h = commit_time h.around.now last

  -- What `apply_transition` does up to the record in the journal: the events with their sequences,
  -- and the answer.
  unfoldable pub log_transition :
      SessionId
      → Option RequestId
      → Option EffectId
      → SessionTransition A.Event A.Effect
      → Op (HostState A) (HostError A) (List (EventSequence × A.Event) × EventSequence)
  unfolding encoded summary find_hosted time_of
  log_transition session request completed t = do
    (emitted, request_sequence, last_sequence) ← in_core (emit_all session request t.events)
    committed_at ← gets (time_of last_sequence)
    modify (λ h. record h { core = stamp session committed_at h.core })
    pending ← gets (λ h. pending_all h.config.effect_timeout h.around.drawn t.effects)
    modify (draw t.effects)
    stored ← encoded pending
    found ← gets (λ h. summary h session)
    control ← ok_or unknown_resident_session found
    append_log session (transition request control.sequence committed_at emitted stored completed)
    hosted ← find_hosted session
    modify (put_hosted session (settle completed pending hosted))
    pure (emitted, or_else (first_some request_sequence last_sequence) control.sequence)

  unfoldable pub apply_transition :
      SessionId
      → Option RequestId
      → Option EffectId
      → SessionTransition A.Event A.Effect
      → Op (HostState A) (HostError A) EventSequence
  unfolding log_transition
  apply_transition session request completed t = do
    (emitted, answer) ← log_transition session request completed t
    broadcast_events session emitted
    modify (schedule_effect session)
    dispatch_effects
    pure answer
