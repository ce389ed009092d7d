-- ===== src/Protocol/Negotiation.antt =====
-- src/resident/protocol.rs: what `VersionRange::negotiate` promises.
use turtletap.Prelude.{ℕ, ◌≤◌, ◌≡◌, ◌↔◌, inl, inr, none, some, arith, Option-cases}
use turtletap.Protocol.{VersionRange, negotiate}

abbrev pub Supports : VersionRange → ℕ → Type 0
Supports r v = (r.minimum ≤ v) × (v ≤ r.maximum)

-- A negotiated version is supported by both sides, and no version that both support is newer.
pub negotiate_newest :
    (self peer : VersionRange) (v : ℕ)
    → negotiate self peer ≡ some v
    → Supports self v × Supports peer v × ((w : ℕ) → Supports self w → Supports peer w → w ≤ v)
unfolding negotiate
negotiate_newest self peer v h = (ground arith, ground arith, λ w p q. ground arith)

-- Negotiation fails exactly when no version is supported by both sides.
pub negotiate-eq-none_iff :
    (self peer : VersionRange)
    → (negotiate self peer ≡ none) ↔ ((w : ℕ) → Supports self w → Supports peer w → ⊥)
unfolding negotiate
negotiate-eq-none_iff self peer = (
  (λ h w p q. ground arith),
  λ none_shared. elim (Option-cases (negotiate self peer)) [
    | inl e ↦ e
    | inr (v, e) ↦
        let found = negotiate_newest self peer v e in absurd (none_shared v found.0 found.1)
  ],
)

-- Client and leader reach the same answer.
pub negotiate_comm : (self peer : VersionRange) → negotiate self peer ≡ negotiate peer self
unfolding negotiate
negotiate_comm self peer = ground arith
