-- ===== src/Host/Recovery/Effects.antt =====
-- src/resident/host.rs: the effects of a transition, stored in its record and read back.
use turtletap.Prelude.{
  ℕ, ◌≤◌, ◌≡◌, refl, ap, subst, Option, Option-cases, none, some, List, [], ◌∷◌, ◌++◌, arith, ok,
  Result-cases, ℕ_key, inl, inr, Every,
}
use turtletap.Dict
use turtletap.Dict.{dict_laws}
use turtletap.Protocol.{SessionId, u64_max}
use turtletap.Application.{Application, EffectId}
use turtletap.Host.{HostState, HostedSession, PendingEffect, StoredEffect, HostLogEvent}
use turtletap.Host.Journals.{append_log}
use turtletap.Host.Effects.{encode_effect, decode_effect}
use turtletap.Host.Transitions.{encode_all, settle}
use turtletap.Host.Load.{decode_all, without_completed}
use turtletap.Host.Concurrency.{append_log-sessions}

-- serde_json reads an effect back as it was written.
abbrev pub ReadsEffects : Application → Type 0
ReadsEffects A =
    (effect : A.Effect) (value : A.Value)
    → A.effect_value effect ≡ ok value
    → A.effect_of value ≡ ok effect

-- A timeout in milliseconds that a u64 holds.
abbrev pub FitsTimeout : Option ℕ → Type 0
FitsTimeout none = Unit {0}
FitsTimeout (some t) = t ≤ u64_max

module _ {A : Application} where
  decode-encode_effect :
      (p : PendingEffect A) (stored : StoredEffect A)
      → ReadsEffects A
      → FitsTimeout p.timeout
      → encode_effect p ≡ ok stored
      → decode_effect stored ≡ ok p
  unfolding encode_effect decode_effect
  decode-encode_effect p stored reads fits h = elim (Result-cases (A.effect_value p.effect)) [
    | inl (e, failed) ↦ absurd (ground arith)
    | inr (value, written) ↦ elim (Option-cases p.timeout) [
      | inl forever ↦ ground (arith, reads p.effect value written)
      | inr (t, limited) ↦
          let room : t ≤ u64_max = subst FitsTimeout limited fits in
          ground (arith, reads p.effect value written, room)
    ]
  ]

  pub decode_all-encode_all :
      (ps : List (PendingEffect A)) (stored : List (StoredEffect A))
      → ReadsEffects A
      → Every (λ (p : PendingEffect A). FitsTimeout p.timeout) ps
      → encode_all ps ≡ ok stored
      → decode_all stored ≡ ok ps
  unfolding encode_all decode_all
  decode_all-encode_all [] stored reads fits h = ground arith
  decode_all-encode_all (p ∷ ps) stored reads fits h = elim (Result-cases (encode_effect p)) [
    | inl (e, failed) ↦ absurd (ground arith)
    | inr (one, written) ↦ elim (Result-cases (encode_all ps)) [
      | inl (e, failed) ↦ absurd (ground arith)
      | inr (more, all) ↦ ground (
        arith,
        decode-encode_effect p one reads fits.0 written,
        decode_all-encode_all ps more reads fits.1 all,
      )
    ]
  ]

  -- What the host keeps of the effects is what the loader keeps.
  pub settle-pending :
      (completed : Option EffectId) (pending : List (PendingEffect A)) (hosted : HostedSession A)
      → (settle completed pending hosted).pending_effects
        ≡ without_completed completed hosted.pending_effects ++ pending
  unfolding settle without_completed
  settle-pending none pending hosted = refl
  settle-pending (some id) pending hosted = refl

  pub append_log-pending :
      (session : SessionId) (e : HostLogEvent A) (h : HostState A) (hosted after : HostedSession A)
      → Dict.get session h.sessions ≡ some hosted
      → Dict.get session (append_log session e h).1.sessions ≡ some after
      → after.pending_effects ≡ hosted.pending_effects
  append_log-pending session e h hosted after at found = elim (append_log-sessions session e h) [
    | inl same ↦ cc (same, at, found)
    | inr (old, sequence, was, same) ↦ grind (arith, dict_laws, ap (Dict.get session) same)
  ]
