-- ===== src/Host/Recovery/Checkpoint.antt =====
-- src/resident/host.rs: a session that is loaded from its checkpoint is the one that was stored.
use turtletap.Prelude.{◌≡◌, Option, some, List, ok, ℕ_key, text_key}
use turtletap.Dict
use turtletap.Protocol.{SessionId}
use turtletap.Core.Session.{SessionState, SessionControlSnapshot}
use turtletap.Core.Commit.{snapshot}
use turtletap.Core.Logged.{Logged}
use turtletap.Core.Recovery.{Restores}
use turtletap.Application.{Application}
use turtletap.Host.{HostState, HostedSession, StoredEffect, StoredManifest, StoredSession}
use turtletap.Host.Transitions.{encode_all}
use turtletap.Host.Sessions.{host_storage_version}
use turtletap.Host.Load.Directories.{Beginning, begin_with}

-- The application restores the state that a session of it had, from its JSON.
abbrev pub RestoresState : Application → Type 0
RestoresState A =
    (s : A.Session) (value : A.Value)
    → A.state_value s ≡ ok value
    → (state : A.State) × (A.migrate A.storage_version value ≡ ok state) × (A.restore state ≡ ok s)

module _ {A : Application} where
  abbrev image_of :
      SessionControlSnapshot → A.Value → List (StoredEffect A) → HostedSession A → StoredSession A
  image_of control value effects hosted = record {
    host_version = host_storage_version;
    application_version = A.storage_version;
    control = control;
    state = value;
    log_sequence = hosted.log_sequence;
    pending_effects = effects;
  }

  -- What a checkpoint that is written is made of.
  record Written (session : SessionId) (h h' : HostState A) (hosted : HostedSession A)
      : Type 0 where
    control : SessionControlSnapshot
    value : A.Value
    effects : List (StoredEffect A)
    taken : snapshot h.core session ≡ ok control
    stated : A.state_value hosted.session ≡ ok value
    encodes : encode_all hosted.pending_effects ≡ ok effects
    stored : Dict.get session h'.around.checkpoints ≡ some (image_of control value effects hosted)

  -- A loading host has the session as it was.
  pub record Reloaded (session : SessionId) (s : SessionState) (hosted : HostedSession A)
      (h' g : HostState A) (manifest : Option (StoredManifest A)) : Type 0 where
    pub stored : StoredSession A
    pub begun : Beginning A
    pub loaded : HostState A
    pub after : SessionState
    pub written : Dict.get session h'.around.checkpoints ≡ some stored
    pub begins : begin_with (some stored) manifest g ≡ (ok begun, loaded)
    pub application : begun.session ≡ hosted.session
    pub log : begun.log_sequence ≡ hosted.log_sequence
    pub effects : begun.pending_effects ≡ hosted.pending_effects
    pub sequence : begun.sequence ≡ s.sequence
    pub core : Dict.get session loaded.core.sessions ≡ some after
    pub restores : Restores s after
