-- ===== src/Application.antt =====
-- src/resident/application.rs: what a product gives the host: the values of a transition, and the
-- traits `ResidentApplication` and `ResidentSession`, whose methods are a parameter. A duration is a
-- number of milliseconds.
use turtletap.Prelude.{ℕ, Bool, Option, none, some, List, [], Result, map}
use turtletap.Protocol.{Text, SessionId}

abbrev pub EffectId : Type 0
EffectId = ℕ

pub data EffectDelivery : Type 0 where
  at_least_once at_most_once : EffectDelivery

pub record EffectRequest (F : Type 0) : Type 0 where
  pub delivery : EffectDelivery
  pub effect : F
  pub timeout : Option ℕ

pub record SessionTransition (E F : Type 0) : Type 0 where
  pub events : List E
  pub effects : List (EffectRequest F)

module _ {F : Type 0} where
  -- `EffectRequest::at_least_once` and its siblings
  unfoldable pub redriven : F → EffectRequest F
  redriven effect = record { delivery = at_least_once; effect = effect; timeout = none }

  unfoldable pub executed_once : F → EffectRequest F
  executed_once effect = record { delivery = at_most_once; effect = effect; timeout = none }

  unfoldable pub with_timeout : EffectRequest F → ℕ → EffectRequest F
  with_timeout request timeout = record request { timeout = some timeout }

module _ {E F : Type 0} where
  -- `SessionTransition::new`, `events` and `idle`
  unfoldable pub transition_of : List E → List F → SessionTransition E F
  unfolding redriven
  transition_of events effects = record { events = events; effects = map redriven effects }

  unfoldable pub events_only : List E → SessionTransition E F
  events_only events = record { events = events; effects = [] }

  unfoldable pub idle : SessionTransition E F
  idle = record { events = []; effects = [] }

pub data ShutdownReason : Type 0 where
  manual upgrade failure : ShutdownReason

-- The types and methods of a `ResidentApplication`, and serde_json for them. A method that takes
-- `&mut self` returns the session that it leaves, on an error also.
pub record Application : Type 1 where
  pub Session : Type 0
  pub Command : Type 0
  pub Event : Type 0
  pub Effect : Type 0
  pub Output : Type 0
  -- `serde_json::Value`
  pub Value : Type 0
  -- `ApplicationError`, `serde_json::Error` and `io::Error`
  pub Failure : Type 0
  pub JsonError : Type 0
  pub DiskError : Type 0
  -- the errors that the host makes itself
  pub effect_outcome_unknown : Failure
  pub effect_timed_out : Failure
  pub create : Text → Result Failure Session
  pub command : Command → Session → Result Failure (SessionTransition Event Effect) × Session
  pub poll : ℕ → Session → Result Failure (SessionTransition Event Effect) × Session
  pub effect_completed :
      EffectId
      → Result Failure Output
      → Session
      → Result Failure (SessionTransition Event Effect) × Session
  pub replay : Event → Session → Result Failure (Unit {0}) × Session
  pub State : Type 0
  -- `A::STORAGE_VERSION`
  pub storage_version : ℕ
  pub migrate : ℕ → Value → Result Failure State
  pub restore : State → Result Failure Session
  pub session_available : SessionId → Result Failure (Unit {0})
  pub session_stopping : SessionId → Result Failure (Unit {0})
  pub host_stopping : ShutdownReason → Result Failure (Unit {0})
  -- `serde_json::to_value` and `serde_json::from_value`
  pub command_of : Value → Result JsonError Command
  pub event_value : Event → Result JsonError Value
  pub effect_value : Effect → Result JsonError Value
  pub effect_of : Value → Result JsonError Effect
  pub snapshot_value : Session → Result JsonError Value
  pub state_value : Session → Result JsonError Value
  -- `semver::Version`, its parser and its order
  pub Version : Type 0
  pub parse_version : Text → Option Version
  pub version_lt : Version → Version → Bool
  -- `EffectId::new` and `SessionId::new`: what is drawn at the n-th time.
  pub new_id : ℕ → ℕ
