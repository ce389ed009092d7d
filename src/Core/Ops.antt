-- ===== src/Core/Ops.antt =====
-- src/resident/core.rs: `LeaderCore` and its methods. A method with `&mut self` is an `Op`; one
-- that cannot fail is a function from the state to the state.
use turtletap.Prelude.{
  ℕ, Bool, true, false, not, ◌&&◌, Option, none, some, List, [], ◌∷◌, map, ◌==◌, leb, if◌then◌else◌,
  Op, pure, ok_or, gets, require, modify, ◌>>=◌, ◌>>◌, ℕ_key, text_key,
}
use turtletap.Dict
use turtletap.Dict.{Dict}
use turtletap.HashSet
use turtletap.HashSet.{HashSet}
use turtletap.Protocol.{
  Text, SessionId, ConnectionId, EventSequence, LeaseEpoch, RequestId, DriverLease, SessionSummary,
  ClientInstanceId, saturating_add, request_key,
}
use turtletap.Core.Names.{normalize_name, valid_name}
use turtletap.Core.Session.{
  SessionControlSnapshot, ClientState, SessionState, DriverChange, summary, release_owned,
}

pub data CoreError : Type 0 where
  unknown_connection unknown_session duplicate_name invalid_name : CoreError
  not_attached not_driver : CoreError
  stale_lease : LeaseEpoch → CoreError
  foreign_request : CoreError

pub data AttachError : Type 0 where
  core : CoreError → AttachError
  driver_busy : DriverLease → AttachError

pub record AttachOutcome : Type 0 where
  pub session : SessionSummary
  pub lease : Option LeaseEpoch
  pub driver_change : Option DriverChange

pub data Authorization : Type 0 where
  apply : Authorization
  duplicate : EventSequence → Authorization

pub record LeaderCore : Type 0 where
  pub clients : Dict ConnectionId ClientState
  pub sessions : Dict SessionId SessionState
  pub names : Dict Text SessionId
  pub deduplication_window : ℕ

abbrev pub default_deduplication_window : ℕ
default_deduplication_window = 4096

unfoldable pub new : LeaderCore
new = record {
  clients = Dict.empty;
  sessions = Dict.empty;
  names = Dict.empty;
  deduplication_window = default_deduplication_window;
}

unfoldable pub with_deduplication_window : LeaderCore → ℕ → LeaderCore
with_deduplication_window c window = record c {
  deduplication_window = if leb window 1 then 1 else window;
}

abbrev pub put_session : SessionId → SessionState → LeaderCore → LeaderCore
put_session id s c = record c { sessions = Dict.insert id s c.sessions }

abbrev pub put_client : ConnectionId → ClientState → LeaderCore → LeaderCore
put_client connection cl c = record c { clients = Dict.insert connection cl c.clients }

-- `self.clients.get(&connection).ok_or(...)?` and `self.sessions.get(&session_id).ok_or(...)?`
abbrev pub find_client : {E : Type 0} → E → ConnectionId → Op LeaderCore E ClientState
find_client e connection c = ok_or e (Dict.get connection c.clients) c

abbrev pub find_session : {E : Type 0} → E → SessionId → Op LeaderCore E SessionState
find_session e id c = ok_or e (Dict.get id c.sessions) c

unfoldable pub connect : ConnectionId → ClientInstanceId → LeaderCore → LeaderCore
connect connection instance_id =
    put_client connection (record { instance_id = instance_id; sessions = HashSet.new })

-- `other.instance == instance && other.sessions.contains(&session_id)`
unfoldable pub attaches : ClientInstanceId → SessionId → ClientState → Bool
attaches instance_id id other =
    other.instance_id == instance_id && HashSet.contains id other.sessions

-- One round of the loop in `disconnect`.
unfoldable pub leave_session :
    ConnectionId → ClientState → SessionId → LeaderCore → Option DriverChange × LeaderCore
unfolding attaches release_owned
leave_session connection client id c = elim (Dict.get id c.sessions) [
  | none ↦ (none, c)
  | some session ↦
      let left = record session { subscribers = HashSet.remove connection session.subscribers } in
      if Dict.any_value (attaches client.instance_id id) c.clients
      then (none, put_session id left c)
      else (let released = release_owned client.instance_id left in
          (released.1, put_session id released.0 c))
]

unfoldable pub push_change : Option DriverChange → List DriverChange → List DriverChange
push_change none changes = changes
push_change (some change) changes = change ∷ changes

unfoldable pub leave_sessions :
    ConnectionId → ClientState → List SessionId → LeaderCore → List DriverChange × LeaderCore
unfolding leave_session push_change
leave_sessions connection client [] c = ([], c)
leave_sessions connection client (id ∷ ids) c =
    let step = leave_session connection client id c in
    let rest = leave_sessions connection client ids step.1 in (push_change step.0 rest.0, rest.1)

unfoldable pub disconnect : ConnectionId → LeaderCore → List DriverChange × LeaderCore
unfolding leave_sessions
disconnect connection c = elim (Dict.get connection c.clients) [
  | none ↦ ([], c)
  | some client ↦
      leave_sessions connection client (HashSet.to_list client.sessions)
        (record c { clients = Dict.remove connection c.clients })
]

-- `self.names.contains_key(&name)`
unfoldable pub is_taken : Text → LeaderCore → Bool
is_taken name c = elim (Dict.get name c.names) [ none ↦ false | some _ ↦ true ]

unfoldable pub fresh_session : SessionId → Text → SessionState
fresh_session id name = record {
  id = id;
  name = name;
  subscribers = HashSet.new;
  driver = none;
  lease_epoch = 0;
  sequence = 0;
  last_event_at = none;
  committed = Dict.empty;
  commit_order = [];
}

abbrev pub add_session : SessionState → LeaderCore → LeaderCore
add_session s c = record c {
  names = Dict.insert s.name s.id c.names;
  sessions = Dict.insert s.id s c.sessions;
}

unfoldable pub create_session : SessionId → Text → Op LeaderCore CoreError SessionSummary
unfolding is_taken fresh_session summary
create_session id given = do
  let name = normalize_name given
  require (valid_name name) invalid_name
  taken ← gets (is_taken name)
  require (not taken) duplicate_name
  let session = fresh_session id name
  modify (add_session session)
  pure (summary session)

-- `snapshot.committed.iter().copied().collect()`: a later pair replaces an earlier one.
unfoldable pub collect :
    List (RequestId × EventSequence) → Dict RequestId EventSequence → Dict RequestId EventSequence
collect [] m = m
collect ((r, q) ∷ l) m = collect l (Dict.insert r q m)

unfoldable pub restored : SessionControlSnapshot → SessionState
unfolding collect
restored snapshot = record {
  id = snapshot.id;
  name = normalize_name snapshot.name;
  subscribers = HashSet.new;
  driver = none;
  lease_epoch = saturating_add snapshot.lease_epoch 1;
  sequence = snapshot.sequence;
  last_event_at = snapshot.last_event_at;
  committed = collect snapshot.committed Dict.empty;
  commit_order = map (λ e. e.0) snapshot.committed;
}

unfoldable pub restore_session : SessionControlSnapshot → Op LeaderCore CoreError (Unit {0})
unfolding restored is_taken
restore_session snapshot = do
  taken ← gets (is_taken (normalize_name snapshot.name))
  require (not taken) duplicate_name
  modify (add_session (restored snapshot))

unfoldable pub latest : Option ℕ → ℕ → ℕ
latest none millis = millis
latest (some current) millis = if leb current millis then millis else current

unfoldable pub stamp_activity : SessionId → ℕ → LeaderCore → LeaderCore
unfolding latest
stamp_activity id millis c = elim (Dict.get id c.sessions) [
  | none ↦ c
  | some session ↦
      put_session id (record session { last_event_at = some (latest session.last_event_at millis) })
        c
]

unfoldable pub session_named : LeaderCore → Text → Option SessionId
session_named c name = Dict.get (normalize_name name) c.names

-- `names.get(&name).is_some_and(|existing| *existing != session_id)`
is_other : Option SessionId → SessionId → Bool
is_other none id = false
is_other (some existing) id = not (existing == id)

unfoldable pub rename_session : SessionId → Text → Op LeaderCore CoreError SessionSummary
unfolding is_other summary
rename_session id given = do
  let name = normalize_name given
  require (valid_name name) invalid_name
  existing ← gets (λ c. Dict.get name c.names)
  require (not (is_other existing id)) duplicate_name
  session ← find_session unknown_session id
  let renamed = record session { name = name }
  modify (λ c. record (put_session id renamed c) {
    names = Dict.insert name id (Dict.remove session.name c.names);
  })
  pure (summary renamed)
