-- ===== src/Lib.antt =====
-- turtletap: the resident control plane of a terminal shell that many clients share.
--
-- A leader process hosts named sessions. Clients connect to it over a Unix socket, attach to
-- sessions to view or to drive them, and send commands under a lease that one client holds at a
-- time. The parts that are modelled here, from the socket inwards:
--
-- * src/resident/framing.rs (Framing.antt): a message is its JSON behind four bytes of length.
--   `encode_frame` is `encode_frame`, a `FrameDecoder` is its buffered bytes, `push`, `next_payload`
--   and `decode_next` are functions on them. Framing/BigEndian has the length, Framing/Frames the
--   decoder on whole and partial frames. Framing/Stream models the loop of `receive` in
--   src/resident/runtime/tokio.rs: what the socket will deliver is a list of chunks, an empty one is
--   the end of the stream, and where the list ends the read is pending and may be cancelled.
-- * src/resident/protocol.rs (Protocol.antt): identities, leases, summaries and the negotiation of
--   a version, `VersionRange::negotiate`. Protocol/Replacement has `replacement_is_newer`, with the
--   parser and the order of the library semver as parameters.
-- * src/resident/core.rs (Core.antt and Core/): `LeaderCore`, the state machine that the leader's
--   host calls for every message. Its state is the record `LeaderCore`, its maps are dictionaries
--   (Dict.antt) and its sets HashSet.antt; a method with `&mut self` that may fail is an `Op` of
--   Prelude/Results: it returns its result and the state it leaves, on an error also. Core/Session has
--   the state of a session and the loop that forgets old requests, Core/Names the rule for names,
--   Core/Ops, Core/Attach and Core/Commit the methods under their own names. The other modules of
--   Core/ are proofs: Links, Present, Driven, Logged, Naming and Sound are the parts of the invariant and how
--   each method keeps them, Steps the histories of calls, Fencing and Steady what happens to a lease
--   later, Requests and Window the memory of requests, Recovery the restart from a snapshot, Errors
--   and Decisions the methods' answers, Lookup the names and listings.
-- * src/resident/journal.rs (Journal.antt and Journal/): the file of events a session is rebuilt
--   from after a crash. A file is its bytes. `append`, `load`, `compact` and `truncate_torn_tail`
--   are the functions of these names.
-- * src/resident/application.rs (Cancellation.antt): `EffectCancellation`, the flag and the waker that
--   the threads of an effect and its host share; their accesses are the steps of a relation, `Move`,
--   and what can come of them in any order is `Runs`.
-- * src/resident/host.rs (Host.antt and Host/): the leader's host, `HostState`, with its leader core,
--   its hosted sessions, the queues of its clients and its open journals. The product's
--   `ResidentApplication` is a parameter (Application.antt). What is on the disk, how the coming
--   writes end, the tasks handed to the runtime, the clock and the identities drawn are
--   `Surroundings`. An operation is an `Op`, which leaves its changes behind on an error also.
--   Host/Send has the queues of the clients, Host/Effects the dispatch of effects, Host/Journals
--   `append_log`, Host/Emit the sequences of a transition's events, Host/Transitions
--   `apply_transition`, Host/Polling `poll`, `complete_effect` and `timeout_effect`, Host/Sessions
--   the creation, the stop and the checkpoint of a session, Host/Replay what an attaching client is
--   sent, Host/Requests `handle_request` and one round of `run` (`serve`), Host/Load the reading of
--   a journal and of a state directory. The other modules of Host/ are proofs: Appended on
--   what `append_log` writes and why it fails, Attempts and Concurrency on the effects, Fuel on the recursion of `send`, Writers on the open journals,
--   Cursor on the events that a client is sent when it comes back, and Recovery on the journal and
--   the checkpoint, whose reader follows the host that wrote them.
-- * src/binding.rs (Binding.antt and Binding/): key chords and the sets of them that a user may
--   configure. Binding/Chords has `KeyBinding` and its normal form, Labels and Parse its texts and
--   their parser, Actions and Catalog the table that `binding_catalog!` is given and the functions
--   that it makes, Sets `ShellBindings`, Defaults the bindings of src/shell.rs, Validate `validate`,
--   a loop for each of the source's, which a `?` or a `return` leaves. Parts, Stored, Characters,
--   RoundTrip and Modifiers are the proofs on the texts, Paths on the names of actions, Safe the
--   abstract view of a set of bindings, Accept and Reports the proofs that `validate` decides it.
-- * src/shell.rs, with src/surface.rs and the types of src/runtime.rs (Shell.antt and Shell/): a shell,
--   the surfaces that it holds, and which of them has the focus. A surface is a parameter, the
--   record `Surfaces` of the methods of the trait. A method that may panic gives an `Option`
--   (Prelude/Panics), `none` for the panic. Shell/Focus has adding, selecting and removing, Pulse the
--   pulse and the rate of ticks, Actions and Dispatch the answers of surfaces and the polling of
--   their work, Score and Palette the action bar, Keys, Overlays and Events the terminal events,
--   Terminal `TerminalApplication::handle`. A chain of `else if` is a list of tests with their branches,
--   `first_of`; a notice is the data that its text is made of. Shell/Wrap is on the step between
--   screens, Shell/Focused and its modules are the invariant of the focus and how each method keeps
--   it.
--
-- Numbers: a UUID is the number of its bits; sequences and epochs are `u64` and are added as the
-- source does, `saturating_add`, with the limit written out. A byte is a number, a `String` the list
-- of its code points.
--
-- Loops: those over maps and lists are structural. `scan_back`, the loop of `truncate_torn_tail`,
-- runs on fuel; the length of the file and one more is enough, since each round moves the end
-- down by at least one byte until it is 0. The loop of `receive` makes a round for each chunk.
-- `send_within`, the recursion between `send` and the disconnection of a client whose queue is full,
-- runs on fuel, the number of clients and one more, since each call below another has lost a
-- client. The loop of `advance_pulse` makes as many rounds as the time has whole frames.
-- `close_oldest`, the loop that closes journals, answers `none` where the source would not end: no
-- journal is left in the order, and too many are open.
--
-- Libraries are parameters: serde_json and crc32fast are the functions that Framing takes and the
-- `Codec` that Journal takes; `ReadsBack` and `IsFaithful` are their contracts. What the standard library does with texts is in Prelude/Strings and Prelude/Trim.
-- The label of a chord takes the operating system and `to_uppercase` as parameters; key codes and
-- flags of crossterm that the program does not name are numbers. The order in which a
-- hash map is walked is the order of the dictionary's list, and no theorem is about that order.
--
-- Not modelled: the calls of the file system (opening, renaming, synchronising, permissions, the
-- refusal of symbolic links) and, in a journal, their failures; the failure of a socket's read; the
-- texts of errors and of `Display`; the checkpoints of a journal, whose content is opaque to it;
-- `EffectWake` in src/resident/application.rs; of src/resident/host.rs the sockets and tasks
-- (`serve_connection`, `session_wake`), the import of a root checkpoint of version 0, the digest in
-- summaries, the identities of the leader and its process in a status, and `session_attached`,
-- whose result is dropped; and the parts of the program around
-- the host: the client, the supervisor and the election, drawing and the terminal itself (of src/shell.rs
-- also the loops of `attach` and `attach_async` and the labels that only drawing reads), and the command line
-- under cli/.
mod Prelude
pub mod Dict
pub mod HashSet
pub mod Protocol
pub mod Core
pub mod Framing
pub mod Journal
pub mod Application
pub mod Host
pub mod Binding
pub mod Shell
pub mod Cancellation
mod Tests
