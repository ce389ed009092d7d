-- ===== src/Host/Requests.antt =====
-- src/resident/host.rs: the requests of the clients, and the loop that serves them.
use turtletap.Prelude.{
  ℕ, Bool, true, false, Option, none, some, List, Result, ok, err, Op, pure, fail, require, gets,
  modify, ◌>>=◌, ◌>>◌, ℕ_key,
}
use turtletap.Dict
use turtletap.Protocol.{
  SessionId, ConnectionId, EventSequence, LeaseEpoch, RequestId, SessionSummary, AttachmentMode,
  drive,
}
use turtletap.Protocol.Replacement.{replacement_is_newer}
use turtletap.Core.Ops
use turtletap.Core.Ops.{
  LeaderCore, CoreError, AttachError, AttachOutcome, Authorization, apply, duplicate,
}
use turtletap.Core.Session.{DriverChange}
use turtletap.Core.Attach
use turtletap.Core.Commit
use turtletap.Core.Lookup
use turtletap.Application.{Application, SessionTransition, ShutdownReason, manual, upgrade}
use turtletap.Host.{
  HostState, HostedSession, HostError, WireError, ControlResult, Outbound, ServerMessage,
  SessionSelector, ClientRequest, Incoming, disk_failed, attach_refused, application, resident_io,
  invalid_command, replacement_not_newer,
}
use turtletap.Host.Send.{send, disconnect, broadcast_driver}
use turtletap.Host.Effects.{put_hosted}
use turtletap.Host.Transitions.{apply_transition}
use turtletap.Host.Polling.{poll_session, poll, complete_effect, timeout_effect}
use turtletap.Host.Sessions.{
  in_wire, in_core_wire, wire_application, persist_manifest, persist_checkpoint, create_session,
  stop_session, shutdown,
}
use turtletap.Host.Replay.{found, resolve, replay_or_snapshot}

module _ {A : Application} where
  tell_driver : Option DriverChange → HostState A → HostState A
  tell_driver none h = h
  tell_driver (some change) h = broadcast_driver change h

  in_attach : Op LeaderCore AttachError AttachOutcome → Op (HostState A) (WireError A) AttachOutcome
  in_attach m h =
      let step = m h.core in
      let after = record h { core = step.1 } in
      elim step.0 [ err e ↦ (err (attach_refused e), after) | ok x ↦ (ok x, after) ]

  unfoldable pub attach :
      ConnectionId
      → SessionSelector A
      → AttachmentMode
      → Option EventSequence
      → Bool
      → Op (HostState A) (WireError A) (ControlResult A)
  unfolding resolve in_attach tell_driver
  attach connection selector mode after force = do
    session ← resolve selector
    outcome ← in_attach (Attach.attach connection session mode force)
    modify (tell_driver outcome.driver_change)
    replay_or_snapshot connection session after
    pure (ControlResult.attached outcome.session outcome.lease)

  -- `self.sessions.get_mut(&session)...session.command(command)?`
  run_command :
      SessionId
      → HostedSession A
      → A.Command
      → Op (HostState A) (WireError A) (SessionTransition A.Event A.Effect)
  run_command session hosted given h =
      let step = A.command given hosted.session in
      let after = put_hosted session (record hosted { session = step.1 }) h in
      elim step.0 [ err e ↦ (err (application e), after) | ok t ↦ (ok t, after) ]

  command_value : A.Value → Op (HostState A) (WireError A) A.Command
  command_value value h = elim (A.command_of value) [
    | err e ↦ (err (invalid_command e), h)
    | ok given ↦ (ok given, h)
  ]

  -- A command that is to be applied.
  unfoldable pub apply_command :
      RequestId → SessionId → A.Value → Op (HostState A) (WireError A) (ControlResult A)
  unfolding found run_command command_value
  apply_command request session value = do
    given ← command_value value
    looked ← gets (λ h. Dict.get session h.sessions)
    hosted ← found looked
    t ← run_command session hosted given
    sequence ← in_wire resident_io (apply_transition session (some request) none t)
    pure (ControlResult.accepted session sequence false)

  unfoldable pub command :
      ConnectionId
      → RequestId
      → SessionId
      → LeaseEpoch
      → A.Value
      → Op (HostState A) (WireError A) (ControlResult A)
  unfolding apply_command
  command connection request session lease value = do
    authorization ← in_core_wire (Commit.authorize connection session lease request)
    elim authorization [
      | duplicate sequence ↦ pure (ControlResult.accepted session sequence true)
      | apply ↦ apply_command request session value
    ]

  -- An answer that does not end the host.
  answer :
      Op (HostState A) (WireError A) (ControlResult A)
      → Op (HostState A) (WireError A) (ControlResult A × Option ShutdownReason)
  answer m = do r ← m; pure (r, none)

  stop_for :
      ShutdownReason → Op (HostState A) (WireError A) (ControlResult A × Option ShutdownReason)
  stop_for reason = do
    wire_application (A.host_stopping reason)
    pure (ControlResult.stopping, some reason)

  listing : Op (HostState A) (WireError A) (List SessionSummary)
  listing h = (ok (Lookup.sessions h.core), h)

  -- The `match envelope.message` of `handle_request`, with the reason of a shutdown.
  unfoldable pub answer_request :
      ConnectionId
      → RequestId
      → ClientRequest A
      → Op (HostState A) (WireError A) (ControlResult A × Option ShutdownReason)
  unfolding answer stop_for listing in_attach tell_driver
  answer_request connection request ClientRequest.status =
      answer (do all ← listing; pure (ControlResult.status all))
  answer_request connection request ClientRequest.list_sessions =
      answer (do all ← listing; pure (ControlResult.sessions all))
  answer_request connection request (ClientRequest.create_session given) =
      answer (create_session given)
  answer_request connection request (ClientRequest.rename_session session given) = answer (do
    renamed ← in_core_wire (Ops.rename_session session given)
    in_wire resident_io (persist_manifest session)
    in_wire resident_io (persist_checkpoint session)
    pure (ControlResult.renamed renamed))
  answer_request connection request (ClientRequest.attach selector mode after force) =
      answer (attach connection selector mode after force)
  answer_request connection request (ClientRequest.command session lease value) =
      answer (command connection request session lease value)
  answer_request connection request (ClientRequest.detach session) = answer (do
    change ← in_core_wire (Attach.detach connection session)
    modify (tell_driver change)
    pure (ControlResult.detached session))
  answer_request connection request (ClientRequest.acquire_driver session force) = answer (do
    outcome ← in_attach (Attach.attach connection session drive force)
    modify (tell_driver outcome.driver_change)
    pure (ControlResult.driver session outcome.session.driver))
  answer_request connection request (ClientRequest.release_driver session) = answer (do
    change ← in_core_wire (Attach.release_driver connection session)
    modify (tell_driver change)
    pure (ControlResult.driver session none))
  answer_request connection request (ClientRequest.stop_session session) =
      answer (do in_wire resident_io (stop_session session); pure ControlResult.stopping)
  answer_request connection request ClientRequest.ping = answer (pure ControlResult.pong)
  answer_request connection request ClientRequest.stop_leader = stop_for manual
  answer_request connection request (ClientRequest.replace_leader version) = do
    config ← gets (λ h. h.config)
    require (replacement_is_newer A.parse_version A.version_lt config.binary_version version)
        replacement_not_newer
    stop_for upgrade

  result_of :
      Result (WireError A) (ControlResult A × Option ShutdownReason)
      → Result (WireError A) (ControlResult A)
  result_of (err e) = err e
  result_of (ok (r, reason)) = ok r

  reason_of : Result (WireError A) (ControlResult A × Option ShutdownReason) → Option ShutdownReason
  reason_of (err e) = none
  reason_of (ok (r, reason)) = reason

  -- Each request is answered, whatever became of it.
  unfoldable pub handle_request :
      ConnectionId → RequestId → ClientRequest A → HostState A → Option ShutdownReason × HostState A
  unfolding result_of reason_of
  handle_request connection request asked h =
      let step = answer_request connection request asked h in
      (reason_of step.0, send connection (ServerMessage.response request (result_of step.0)) step.1)

  connect : ConnectionId → ℕ → Outbound A → HostState A → HostState A
  connect connection client outbound h = record h {
    core = Ops.connect connection client h.core;
    clients = Dict.insert connection outbound h.clients;
  }

  going : Op (HostState A) (HostError A) (Unit {0}) → Op (HostState A) (HostError A) Bool
  going m = do m; pure true

  finish : Option ShutdownReason × HostState A → Result (HostError A) Bool × HostState A
  finish (none, h) = (ok true, h)
  finish (some reason, h) = (do shutdown reason; pure false) h

  -- One round of `run`; `false` is its end by a shutdown.
  unfoldable pub serve : Incoming A → Op (HostState A) (HostError A) Bool
  unfolding connect going finish
  serve (Incoming.connected connection client outbound) =
      going (modify (connect connection client outbound))
  serve (Incoming.disconnected connection) = going (modify (disconnect connection))
  serve (Incoming.effect_done session effect output) = going (complete_effect session effect output)
  serve (Incoming.effect_timed_out session effect) = going (timeout_effect session effect)
  serve (Incoming.session_ready session) = going (poll_session session 0)
  serve (Incoming.message connection request asked) =
      λ h. finish (handle_request connection request asked h)
  serve (Incoming.tick elapsed) = going (poll elapsed)
  serve (Incoming.listener_failed e) = fail (disk_failed e)
