-- ===== src/Host/Recovery/Logged.antt =====
-- src/resident/host.rs: the record that `apply_transition` writes, and what the loader makes of it.
use turtletap.Prelude.{ℕ, ◌<◌, ◌≡◌, some, [], ◌∷◌, ◌++◌, ok, ℕ_key}
use turtletap.Dict
use turtletap.Dict.{dict_laws}
use turtletap.Protocol.{SessionId, EventSequence, request_key}
use turtletap.Application.{Application}
use turtletap.Host.{HostState, HostedSession, HostLogEvent}
use turtletap.Host.Journals.{records_of}
use turtletap.Host.Load.{Loading, load_record}
use turtletap.Host.Recovery.{Follows}

module _ {A : Application} where
  -- What a loader that followed the host before a transition has behind its record, reading it behind
  -- a checkpoint of the log.
  pub record Recovered (session : SessionId) (history : ℕ) (checkpoint : EventSequence)
      (h h' : HostState A) (l : Loading A) (s : A.Session) : Type 0 where
    pub sequence : EventSequence
    pub logged : HostLogEvent A
    pub after : Loading A
    pub hosted : HostedSession A
    pub recorded :
        Dict.get session h'.around.records
        ≡ some (records_of (Dict.get session h.around.records) ++ (sequence, logged) ∷ [])
    pub loads : load_record session history checkpoint (sequence, logged) l ≡ (ok tt, after)
    pub state : after.session ≡ s
    pub at : EventSequence
    pub follows : Follows session at h'.core after.core
    pub kept : Dict.get session h'.sessions ≡ some hosted
    pub effects : after.pending_effects ≡ hosted.pending_effects
    pub log : after.log_sequence ≡ hosted.log_sequence
    pub newer : checkpoint < hosted.log_sequence
