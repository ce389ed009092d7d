-- ===== src/Tests/Host.antt =====
-- src/resident/host.rs with an application that counts: a command is a number that is added, its
-- event is that number, and it asks for an effect that runs at most once.
use turtletap.Prelude.{
  true, err, false, ℕ, ◌+◌, ◌≤◌, ◌≡◌, refl, none, some, List, [], ◌∷◌, arith, ok, ltb, ℕ_key,
}
use turtletap.Dict
use turtletap.HashSet
use turtletap.Protocol.{EventSequence}
use turtletap.Core.Ops.{create_session, stamp_activity}
use turtletap.Core.Steps.{start}
use turtletap.Application.{manual, Application, SessionTransition, executed_once, at_most_once}
use turtletap.Host.{
  resident_io, disk_failed, accepted, shutting_down, HostState, HostedSession, PendingEffect,
  effect_attempted, Surroundings,
}
use turtletap.Core.Lookup.{sessions}
use turtletap.Host.Emit.{
  trim_events, emit_all, next_sequence, stamp, commit_time, or_else, first_some,
}
use turtletap.Host.Send.{send, send_step, send_within}
use turtletap.Host.Journals.{write, append_log, open_journal, close_oldest}
use turtletap.Host.Effects.{
  dispatch_one_effect, dispatch_effects, front_effect, effect_limit, pending_effect, run_effect,
  spawn_timeout, activate, attempted, encode_effect,
}
use turtletap.Host.Transitions.{apply_transition, log_transition, pending_all, encode_all}
use turtletap.Host.Load.{Loading}
use turtletap.Host.Requests.{command}
use turtletap.Host.Replay.{replay_from, events_after}
use turtletap.Host.Writers.{Kept, append_log-Kept}
use turtletap.Host.Cursor.{Resumed, IsWindow, replay_from_complete}
use turtletap.Host.Concurrency.{running, dispatch_effects-running}
use turtletap.Host.Attempts.{Dispatched, dispatch_one_effect-Dispatched}
use turtletap.Host.Fuel.{send_within-send}
use turtletap.Host.Sessions.{persist_checkpoint}
use turtletap.Host.Recovery.{Follows}
use turtletap.Host.Recovery.Attempted.{ReportsUnknown, run_effect_once}
use turtletap.Tests.Core.{program, build, taken, request, session_at}

abbrev added : ℕ → SessionTransition ℕ ℕ
added n = record { events = n ∷ []; effects = executed_once n ∷ [] }

abbrev counter : Application
counter = record {
  Session = ℕ;
  Command = ℕ;
  Event = ℕ;
  Effect = ℕ;
  Output = ℕ;
  Value = ℕ;
  Failure = ℕ;
  JsonError = ℕ;
  DiskError = ℕ;
  effect_outcome_unknown = 1;
  effect_timed_out = 2;
  create = λ name. ok 0;
  command = λ n total. (ok (added n), total + n);
  poll = λ elapsed total. (ok (record { events = []; effects = [] }), total);
  effect_completed = λ id output total. (ok (record { events = []; effects = [] }), total);
  replay = λ n total. (ok tt, total + n);
  State = ℕ;
  storage_version = 1;
  migrate = λ version value. ok value;
  restore = λ state. ok state;
  session_available = λ session. ok tt;
  session_stopping = λ session. ok tt;
  host_stopping = λ reason. ok tt;
  command_of = λ value. ok value;
  event_value = λ event. ok event;
  effect_value = λ effect. ok effect;
  effect_of = λ value. ok value;
  snapshot_value = λ total. ok total;
  state_value = λ total. ok total;
  Version = ℕ;
  parse_version = λ text. none;
  version_lt = ltb;
  new_id = λ n. n + 100;
}

abbrev waiting : PendingEffect counter
waiting = record { id = 9; delivery = at_most_once; attempts = 0; effect = 4; timeout = some 50 }

abbrev hosted_5 : HostedSession counter
hosted_5 = record {
  session = 7;
  events = [];
  pending_effects = waiting ∷ [];
  active_effect = none;
  log_sequence = 0;
}

abbrev calm : Surroundings counter
calm = record {
  records = Dict.empty;
  checkpoints = Dict.empty;
  manifests = Dict.empty;
  legacy_records = Dict.empty;
  faults = [];
  tasks = [];
  cancelled = [];
  parted = Dict.empty;
  now = 1000;
  drawn = 0;
}

-- The host of session 5, with its one effect in the queue.
abbrev hosting : HostState counter
hosting = record {
  config = record {
    binary_version = build;
    event_history = 2;
    effect_timeout = none;
    initial_session = none;
    max_concurrent_effects = 1;
  };
  core = taken;
  sessions = Dict.insert 5 hosted_5 Dict.empty;
  journals = HashSet.new;
  journal_order = [];
  clients = Dict.empty;
  ready_effects = 5 ∷ [];
  ready_effect_set = HashSet.insert 5 HashSet.new;
  around = calm;
}

unfoldable host_program : Unit {0}
unfolding persist_checkpoint write run_effect spawn_timeout activate attempted append_log Dict.count
    dispatch_one_effect dispatch_effects front_effect effect_limit log_transition replay_from
    events_after trim_events executed_once pending_all pending_effect emit_all next_sequence
    encode_all encode_effect sessions Dict.values stamp commit_time stamp_activity open_journal
    close_oldest or_else first_some
host_program = tt

dispatch_one_effect-Dispatched_example :
    Dispatched 5 waiting hosted_5 hosting (dispatch_one_effect 5 hosting)
unfolding program host_program
dispatch_one_effect-Dispatched_example =
    dispatch_one_effect-Dispatched 5 waiting hosted_5 hosting refl refl refl

dispatch_effects-running_example : running (dispatch_effects hosting).1 ≤ 1
unfolding program host_program
dispatch_effects-running_example = dispatch_effects-running hosting (omega arith)

hosting-Kept : Kept hosting.journal_order hosting.journals
unfolding program
hosting-Kept = record { ordered = λ j e. absurd (ground arith); few = ground arith }

append_log-Kept_example :
    Kept
      (append_log 5 (effect_attempted 9 1) hosting).1.journal_order
      (append_log 5 (effect_attempted 9 1) hosting).1.journals
append_log-Kept_example = append_log-Kept 5 (effect_attempted 9 1) hosting hosting-Kept

abbrev first_three : List (EventSequence × ℕ)
first_three = (1, 10) ∷ (2, 20) ∷ (3, 30) ∷ []

abbrev last_two : List (EventSequence × ℕ)
last_two = (2, 20) ∷ (3, 30) ∷ []

abbrev last_two-IsWindow : IsWindow 2 first_three last_two
last_two-IsWindow = record { older = (1, 10) ∷ []; suffix = refl; bounded = omega arith }

replay_from_complete_example : Resumed 1 first_three last_two (replay_from (some 1) last_two)
replay_from_complete_example =
    replay_from_complete 2 first_three last_two 1 (omega arith, (omega arith, (omega arith, tt)))
      (omega arith) (omega arith, (omega arith, tt)) last_two-IsWindow

-- A loader that has read the checkpoint of session 5.
abbrev read_back : Loading counter
read_back = record {
  session = 7;
  core = (create_session 5 build (start 3)).1;
  events = [];
  pending_effects = waiting ∷ [];
  log_sequence = 0;
}

taken-Follows : Follows 5 0 taken (create_session 5 build (start 3)).1
unfolding program
taken-Follows = record {
  s = session_at taken;
  t = session_at (create_session 5 build (start 3)).1;
  at_live = refl;
  at_loaded = refl;
  window = refl;
  agree = record { live = refl; loaded = refl; order = refl; committed = refl; time = refl };
}

-- Behind the first attempt at the effect the host is gone, and started again.
run_effect_once_example :
    ReportsUnknown 5 waiting 2 0 hosting (run_effect 5 waiting hosting).1 read_back hosted_5 hosting
unfolding program host_program
run_effect_once_example =
    run_effect_once 5 waiting [] 2 0 hosting (run_effect 5 waiting hosting).1 hosted_5 read_back
      hosted_5 hosting refl refl refl (omega arith) refl refl (omega arith) refl

-- Two clients watch session 5, and the queue of the one that drives it is full.
abbrev crowded : HostState counter
crowded = record hosting {
  clients =
      Dict.insert 1 (record { capacity = 4; messages = []; closed = false })
        (Dict.insert 2 (record { capacity = 0; messages = []; closed = false }) Dict.empty);
}

send_within-send_example :
    (send_within 7 2 (shutting_down manual) crowded ≡ send 2 (shutting_down manual) crowded)
    × (send 2 (shutting_down manual) crowded ≡ send_step send 2 (shutting_down manual) crowded)
unfolding program host_program Dict.len
send_within-send_example = send_within-send 7 2 (shutting_down manual) crowded (omega arith)

-- The first write to the disk fails.
abbrev failing : HostState counter
failing = record hosting { around = record calm { faults = some 3 ∷ [] } }

-- The command was not journaled, and its client was told so; the host takes a retry for a duplicate.
a_retry_behind_a_failed_write_is_a_duplicate :
    ((command 2 (request 1) 5 2 4 failing).0 ≡ err (resident_io (disk_failed 3)))
    × (Dict.get 5 (command 2 (request 1) 5 2 4 failing).1.around.records ≡ none)
    × ((command 2 (request 1) 5 2 4 (command 2 (request 1) 5 2 4 failing).1).0
        ≡ ok (accepted 5 1 true))
unfolding program host_program command apply_transition
a_retry_behind_a_failed_write_is_a_duplicate = (refl, refl, refl)
