-- ===== src/Host/Recovery/Positions.antt =====
-- src/resident/host.rs: the sequence of a session's log, in the host and in the loader of its journal.
use turtletap.Prelude.{
  ℕ, ◌<◌, ◌≡◌, refl, ap, sym, ◌∙◌, true, Option, none, some, List, [], ◌∷◌, arith, ok, ltb,
}
use turtletap.Protocol.{SessionId, RequestId, EventSequence}
use turtletap.Application.{Application, EffectId}
use turtletap.Host.{HostedSession, PendingEffect, HostLogEvent}
use turtletap.Host.Emit.{trim_events}
use turtletap.Host.Transitions.{settle}
use turtletap.Host.Load.{
  Loading, load_event, load_record, later, replay_event, replay_events, replay_alone,
}

later_of_next : (a b : EventSequence) → a < b → later a b ≡ b
unfolding later
later_of_next a b h = ground arith

module _ {A : Application} where
  -- The loader when it has read the sequence of a record.
  abbrev pub advanced_to : EventSequence → Loading A → Loading A
  advanced_to sequence l = record l { log_sequence = sequence }

  abbrev pub trimmed : ℕ → Loading A → Loading A
  trimmed history l = record l { events = trim_events history l.events }

  -- A record behind the checkpoint is replayed.
  pub load_record_ok :
      (session : SessionId) (history : ℕ) (checkpoint sequence : EventSequence) (e : HostLogEvent A)
      (l after : Loading A)
      → l.log_sequence < sequence
      → checkpoint < sequence
      → load_event session true e (advanced_to sequence l) ≡ (ok tt, after)
      → load_record session history checkpoint (sequence, e) l ≡ (ok tt, trimmed history after)
  unfolding load_record
  load_record_ok session history checkpoint sequence e l after new behind loads =
      let replays : ltb checkpoint sequence ≡ true = ground arith in
      rw (later_of_next l.log_sequence sequence new, replays, loads)

  replay_event-log :
      (id : SessionId) (request : Option RequestId) (q : EventSequence) (e : A.Event)
      (l : Loading A)
      → (replay_event id true request q e l).1.log_sequence ≡ l.log_sequence
  unfolding replay_event
  replay_event-log id request q e l = ground arith

  replay_events-log :
      (id : SessionId) (request : Option RequestId) (emitted : List (EventSequence × A.Event))
      (l : Loading A)
      → (replay_events id true request emitted l).1.log_sequence ≡ l.log_sequence
  unfolding replay_events
  replay_events-log id request [] l = refl
  replay_events-log id request ((q, e) ∷ emitted) l =
      let first = replay_event-log id request q e l in
      let rest = replay_events-log id none emitted (replay_event id true request q e l).1 in
      ground arith

  replay_alone-log :
      (id : SessionId) (request : Option RequestId) (q : EventSequence)
      (emitted : List (EventSequence × A.Event)) (l : Loading A)
      → (replay_alone id request q emitted l).1.log_sequence ≡ l.log_sequence
  unfolding replay_alone
  replay_alone-log id none q [] l = refl
  replay_alone-log id none q (e ∷ emitted) l = refl
  replay_alone-log id (some r) q [] l = ground arith
  replay_alone-log id (some r) q (e ∷ emitted) l = refl

  pub replayed-log :
      (id : SessionId) (request : Option RequestId) (q : EventSequence)
      (emitted : List (EventSequence × A.Event)) (l mid after : Loading A)
      → replay_events id true request emitted l ≡ (ok tt, mid)
      → replay_alone id request q emitted mid ≡ (ok tt, after)
      → after.log_sequence ≡ l.log_sequence
  replayed-log id request q emitted l mid after events alone =
      sym (ap (λ x. x.1.log_sequence) alone)
      ∙ replay_alone-log id request q emitted mid
      ∙ sym (ap (λ x. x.1.log_sequence) events)
      ∙ replay_events-log id request emitted l

  pub settle-log :
      (completed : Option EffectId) (pending : List (PendingEffect A)) (hosted : HostedSession A)
      → (settle completed pending hosted).log_sequence ≡ hosted.log_sequence
  unfolding settle
  settle-log none pending hosted = refl
  settle-log (some id) pending hosted = refl
