-- ===== src/Protocol.antt =====
-- src/resident/protocol.rs: identities, leases, version ranges and summaries. A UUID is the number
-- of its bits; a `u64` or `u32` is a number whose wrap-around or saturation is written out.
pub mod Negotiation
pub mod Replacement
pub mod Saturation
use turtletap.Prelude.{
  ℕ, ◌+◌, ◌-◌, ◌^◌, ◌≤◌, Option, none, some, Bool, ltb, leb, if◌then◌else◌, Key, ℕ_discrete,
}
use turtletap.Prelude.{◌≡◌, List}

-- `u64::MAX`
abbrev pub u64_max : ℕ
u64_max = 0xffff_ffff_ffff_ffff

-- `u64::saturating_add`
unfoldable pub saturating_add : ℕ → ℕ → ℕ
saturating_add a b = if leb (a + b) u64_max then a + b else u64_max

abbrev pub ClientInstanceId : Type 0
ClientInstanceId = ℕ

abbrev pub SessionId : Type 0
SessionId = ℕ

abbrev pub ConnectionId : Type 0
ConnectionId = ℕ

abbrev pub EventSequence : Type 0
EventSequence = ℕ

abbrev pub LeaseEpoch : Type 0
LeaseEpoch = ℕ

-- `String`: the code points of its characters.
abbrev pub Text : Type 0
Text = List ℕ

pub record RequestId : Type 0 where
  pub client : ClientInstanceId
  pub sequence : ℕ

unfoldable pub RequestId-discrete : Discrete RequestId
unfolding ℕ_discrete
RequestId-discrete r s = decide (ℕ_discrete r.client s.client) (ℕ_discrete r.sequence s.sequence)
  where
    decide : Dec (r.client ≡ s.client) → Dec (r.sequence ≡ s.sequence) → Dec (r ≡ s)
    decide (yes p) (yes q) = yes (λ i. record { client = p i; sequence = q i })
    decide (yes p) (no q) = no (λ e. q (λ i. (e i).sequence))
    decide (no p) _ = no (λ e. p (λ i. (e i).client))

instance abbrev pub request_key : Key RequestId
request_key = record { dec = RequestId-discrete }

pub data AttachmentMode : Type 0 where
  drive view : AttachmentMode

pub record DriverLease : Type 0 where
  pub owner : ClientInstanceId
  pub epoch : LeaseEpoch

-- `digest` is always `None` here: the host fills it in.
pub record SessionSummary : Type 0 where
  pub id : SessionId
  pub name : Text
  pub driver : Option DriverLease
  pub attached_clients : ℕ
  pub sequence : EventSequence
  pub last_event_at : Option ℕ

pub record VersionRange : Type 0 where
  pub minimum : ℕ
  pub maximum : ℕ

-- `PROTOCOL_VERSION`
abbrev pub protocol_version : ℕ
protocol_version = 1

unfoldable pub current : VersionRange
current = record { minimum = protocol_version; maximum = protocol_version }

-- `Ord::max` and `Ord::min`
abbrev max : ℕ → ℕ → ℕ
max a b = if ltb b a then a else b

abbrev min : ℕ → ℕ → ℕ
min a b = if leb a b then a else b

-- The newest mutually supported version.
unfoldable pub negotiate : VersionRange → VersionRange → Option ℕ
negotiate self peer =
    let minimum = max self.minimum peer.minimum in
    let maximum = min self.maximum peer.maximum in
    if leb minimum maximum then some maximum else none
