-- ===== src/Host/Polling.antt =====
-- src/resident/host.rs: polls of the sessions, and effects that end or time out.
use turtletap.Prelude.{
  ℕ, Bool, true, false, Option, none, some, List, [], ◌∷◌, ◌++◌, ◌&&◌, ◌==◌, if◌then◌else◌, Result,
  ok, err, Op, pure, ◌>>=◌, ℕ_key,
}
use turtletap.Dict
use turtletap.Protocol.{SessionId, EventSequence}
use turtletap.Application.{Application, EffectId, SessionTransition}
use turtletap.Host.{HostState, HostedSession, PendingEffect, HostError, application_failed}
use turtletap.Host.Effects.{schedule_effect, dispatch_effects, put_hosted}
use turtletap.Host.Transitions.{apply_transition}

no_values : {X : Type 0} → List X → Bool
no_values [] = true
no_values (x ∷ xs) = false

-- `events.is_empty() && effects.is_empty()`
is_idle : {E F : Type 0} → SessionTransition E F → Bool
unfolding no_values
is_idle t = no_values t.events && no_values t.effects

-- `... != Some(effect)`
unfoldable pub is_effect : Option EffectId → EffectId → Bool
is_effect none effect = false
is_effect (some id) effect = id == effect

module _ {A : Application} where
  -- A method of the application on a hosted session.
  unfoldable pub in_session :
      SessionId
      → HostedSession A
      → Result A.Failure (SessionTransition A.Event A.Effect) × A.Session
      → Op (HostState A) (HostError A) (SessionTransition A.Event A.Effect)
  in_session session hosted step h =
      let after = put_hosted session (record hosted { session = step.1 }) h in
      elim step.0 [ err e ↦ (err (application_failed e), after) | ok t ↦ (ok t, after) ]

  discard : Op (HostState A) (HostError A) EventSequence → Op (HostState A) (HostError A) (Unit {0})
  discard m = do _ ← m; pure tt

  apply_polled :
      SessionId → SessionTransition A.Event A.Effect → Op (HostState A) (HostError A) (Unit {0})
  apply_polled session t =
      if is_idle t then pure tt else discard (apply_transition session none none t)

  unfoldable pub poll_session : SessionId → ℕ → Op (HostState A) (HostError A) (Unit {0})
  unfolding apply_polled is_idle discard in_session
  poll_session session elapsed h = elim (Dict.get session h.sessions) [
    | none ↦ (ok tt, h)
    | some hosted ↦
        (do t ← in_session session hosted (A.poll elapsed hosted.session); apply_polled session t) h
  ]

  poll_each : List SessionId → ℕ → Op (HostState A) (HostError A) (Unit {0})
  unfolding poll_session
  poll_each [] elapsed h = (ok tt, h)
  poll_each (session ∷ sessions) elapsed h =
      let step = poll_session session elapsed h in
      let rest = poll_each sessions elapsed step.1 in
      elim step.0 [ err e ↦ (err e, step.1) | ok _ ↦ rest ]

  unfoldable pub poll : ℕ → Op (HostState A) (HostError A) (Unit {0})
  unfolding poll_each
  poll elapsed h = poll_each (Dict.keys h.sessions) elapsed h

  front_id : List (PendingEffect A) → Option EffectId
  front_id [] = none
  front_id (p ∷ ps) = some p.id

  unfoldable pub complete_effect :
      SessionId → EffectId → Result A.Failure A.Output → Op (HostState A) (HostError A) (Unit {0})
  unfolding is_effect front_id in_session
  complete_effect session effect output h = elim (Dict.get session h.sessions) [
    | none ↦ (ok tt, h)
    | some hosted ↦
        if is_effect hosted.active_effect effect
          && is_effect (front_id hosted.pending_effects) effect
        then (do
          t ← in_session session hosted (A.effect_completed effect output hosted.session)
          _ ← apply_transition session none (some effect) t
          poll_session session 0)
            h
        else (ok tt, h)
  ]

  abbrev pub cancel : EffectId → HostState A → HostState A
  cancel id h = record h { around = record h.around { cancelled = h.around.cancelled ++ id ∷ [] } }

  active_of : Option (HostedSession A) → Option EffectId
  active_of none = none
  active_of (some hosted) = hosted.active_effect

  unfoldable pub timeout_effect : SessionId → EffectId → Op (HostState A) (HostError A) (Unit {0})
  unfolding active_of is_effect
  timeout_effect session effect h =
      if is_effect (active_of (Dict.get session h.sessions)) effect
      then complete_effect session effect (err A.effect_timed_out) (cancel effect h)
      else (ok tt, h)

  schedule_all : List SessionId → HostState A → HostState A
  schedule_all [] h = h
  schedule_all (session ∷ sessions) h = schedule_all sessions (schedule_effect session h)

  unfoldable pub dispatch_recovered_effects : Op (HostState A) (HostError A) (Unit {0})
  unfolding schedule_all
  dispatch_recovered_effects h = dispatch_effects (schedule_all (Dict.keys h.sessions) h)
