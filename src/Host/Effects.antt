-- ===== src/Host/Effects.antt =====
-- src/resident/host.rs: the effects of a session, one of which runs at a time, and the queue of the
-- sessions that have one to run.
use turtletap.Prelude.{
  ℕ, ◌+◌, Bool, true, false, not, Option, none, some, List, [], ◌∷◌, ◌++◌, ◌&&◌, ltb, leb,
  if◌then◌else◌, Result, ok, err, Op, pure, modify, ◌>>◌, ℕ_key,
}
use turtletap.Dict
use turtletap.HashSet
use turtletap.Protocol.{SessionId}
use turtletap.Application.{Application, EffectId, EffectRequest, at_least_once, at_most_once}
use turtletap.Host.{
  HostState, HostedSession, PendingEffect, StoredEffect, HostError, json_failed, effect_attempted,
  Spawned, executes, times_out, reports_unknown,
}
use turtletap.Host.Journals.{append_log}

-- `timeout.or(default_timeout)`
or_default : Option ℕ → Option ℕ → Option ℕ
or_default none default = default
or_default (some t) default = some t

-- `u64::try_from(timeout.as_millis()).unwrap_or(u64::MAX)`
millis : ℕ → ℕ
millis t = if leb t 0xffff_ffff_ffff_ffff then t else 0xffff_ffff_ffff_ffff

stored_timeout : Option ℕ → Option ℕ
stored_timeout none = none
stored_timeout (some t) = some (millis t)

-- `attempts.saturating_add(1)` on u32
unfoldable pub next_attempt : ℕ → ℕ
next_attempt n = if ltb n 0xffff_ffff then n + 1 else 0xffff_ffff

module _ {A : Application} where
  unfoldable pub pending_effect : EffectRequest A.Effect → Option ℕ → EffectId → PendingEffect A
  unfolding or_default
  pending_effect request default id = record {
    id = id;
    delivery = request.delivery;
    attempts = 0;
    effect = request.effect;
    timeout = or_default request.timeout default;
  }

  unfoldable pub encode_effect : PendingEffect A → Result (HostError A) (StoredEffect A)
  unfolding stored_timeout millis
  encode_effect pending = elim (A.effect_value pending.effect) [
    | err e ↦ err (json_failed e)
    | ok value ↦ ok (record {
      id = pending.id;
      delivery = pending.delivery;
      attempts = pending.attempts;
      effect = value;
      timeout_ms = stored_timeout pending.timeout;
    })
  ]

  unfoldable pub decode_effect : StoredEffect A → Result (HostError A) (PendingEffect A)
  decode_effect stored = elim (A.effect_of stored.effect) [
    | err e ↦ err (json_failed e)
    | ok effect ↦ ok (record {
      id = stored.id;
      delivery = stored.delivery;
      attempts = stored.attempts;
      effect = effect;
      timeout = stored.timeout_ms;
    })
  ]

  unfoldable pub is_active : HostedSession A → Bool
  is_active hosted = elim hosted.active_effect [ none ↦ false | some id ↦ true ]

  is_empty : List (PendingEffect A) → Bool
  is_empty [] = true
  is_empty (p ∷ ps) = false

  -- `hosted.active_effect.is_none() && !hosted.pending_effects.is_empty()`
  unfoldable pub is_ready : Option (HostedSession A) → Bool
  unfolding is_active is_empty
  is_ready none = false
  is_ready (some hosted) = not (is_active hosted) && not (is_empty hosted.pending_effects)

  unfoldable pub schedule_effect : SessionId → HostState A → HostState A
  unfolding is_ready
  schedule_effect session h =
      if is_ready (Dict.get session h.sessions) && not (HashSet.contains session h.ready_effect_set)
      then record h {
        ready_effect_set = HashSet.insert session h.ready_effect_set;
        ready_effects = h.ready_effects ++ session ∷ [];
      }
      else h

  abbrev pub put_hosted : SessionId → HostedSession A → HostState A → HostState A
  put_hosted session hosted h = record h { sessions = Dict.insert session hosted h.sessions }

  abbrev pub spawn : Spawned A → HostState A → HostState A
  spawn task h = record h { around = record h.around { tasks = h.around.tasks ++ task ∷ [] } }

  -- `pending_effects.front()` of a session without an active effect
  unfoldable pub front_effect : Option (HostedSession A) → Option (PendingEffect A)
  front_effect none = none
  front_effect (some hosted) = elim hosted.active_effect [
    | some id ↦ none
    | none ↦ elim hosted.pending_effects [ [] ↦ none | p ∷ ps ↦ some p ]
  ]

  -- `pending.delivery == EffectDelivery::AtMostOnce && pending.attempts > 0`
  unfoldable pub may_have_run : PendingEffect A → Bool
  may_have_run pending = elim pending.delivery [
    | at_least_once ↦ false
    | at_most_once ↦ ltb 0 pending.attempts
  ]

  unfoldable pub activate :
      EffectId → Option (HostedSession A) → SessionId → HostState A → HostState A
  activate id none session h = h
  activate id (some hosted) session h =
      put_hosted session (record hosted { active_effect = some id }) h

  unfoldable pub set_attempts : ℕ → List (PendingEffect A) → List (PendingEffect A)
  set_attempts attempt [] = []
  set_attempts attempt (p ∷ ps) = record p { attempts = attempt } ∷ ps

  unfoldable pub attempted : ℕ → Option (HostedSession A) → SessionId → HostState A → HostState A
  unfolding set_attempts
  attempted attempt none session h = h
  attempted attempt (some hosted) session h =
      put_hosted session
        (record hosted { pending_effects = set_attempts attempt hosted.pending_effects }) h

  unfoldable pub spawn_timeout : SessionId → EffectId → Option ℕ → HostState A → HostState A
  spawn_timeout session id none h = h
  spawn_timeout session id (some t) h = spawn (times_out session id t) h

  -- The attempt is in the journal before the effect runs.
  unfoldable pub run_effect :
      SessionId → PendingEffect A → Op (HostState A) (HostError A) (Unit {0})
  unfolding activate attempted next_attempt spawn_timeout
  run_effect session pending = do
    let attempt = next_attempt pending.attempts
    modify (λ h. attempted attempt (Dict.get session h.sessions) session h)
    append_log session (effect_attempted pending.id attempt)
    modify (λ h. activate pending.id (Dict.get session h.sessions) session h)
    modify (spawn (executes session pending.id attempt pending.effect))
    modify (spawn_timeout session pending.id pending.timeout)

  unfoldable pub dispatch_front :
      SessionId → Option (PendingEffect A) → Op (HostState A) (HostError A) (Unit {0})
  unfolding may_have_run activate
  dispatch_front session none = pure tt
  dispatch_front session (some pending) =
      if may_have_run pending
      then (do
        modify (λ h. activate pending.id (Dict.get session h.sessions) session h)
        modify (spawn (reports_unknown session pending.id)))
      else run_effect session pending

  unfoldable pub dispatch_one_effect : SessionId → Op (HostState A) (HostError A) (Unit {0})
  unfolding front_effect dispatch_front
  dispatch_one_effect session h =
      dispatch_front session (front_effect (Dict.get session h.sessions)) h

  -- `self.config.max_concurrent_effects.max(1)`
  unfoldable pub effect_limit : HostState A → ℕ
  effect_limit h =
      if leb h.config.max_concurrent_effects 1 then 1 else h.config.max_concurrent_effects

  -- The loop of `dispatch_effects`: each round takes one session off the queue, to which no round
  -- adds, so `ready` is what the queue holds.
  unfoldable pub dispatch_ready : ℕ → List SessionId → Op (HostState A) (HostError A) (Unit {0})
  unfolding is_active
  dispatch_ready limit [] h = (ok tt, h)
  dispatch_ready limit (session ∷ ready) h =
      let taken = record h {
        ready_effects = ready;
        ready_effect_set = HashSet.remove session h.ready_effect_set;
      } in
      let dispatched = dispatch_one_effect session taken in
      let rest = dispatch_ready limit ready dispatched.1 in
      if ltb (Dict.count is_active h.sessions) limit
      then elim dispatched.0 [ err e ↦ (err e, dispatched.1) | ok _ ↦ rest ]
      else (ok tt, h)

  unfoldable pub dispatch_effects : Op (HostState A) (HostError A) (Unit {0})
  unfolding dispatch_ready effect_limit
  dispatch_effects h = dispatch_ready (effect_limit h) h.ready_effects h
