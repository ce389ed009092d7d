-- ===== src/Protocol/Saturation.antt =====
-- src/resident/protocol.rs: epochs and sequences are `u64`s that stop at their maximum.
use turtletap.Prelude.{ℕ, ◌+◌, ◌≤◌, ◌<◌, ◌≡◌, arith}
use turtletap.Protocol.{u64_max, saturating_add}

pub saturating_add-le_max : (a b : ℕ) → saturating_add a b ≤ u64_max
unfolding saturating_add
saturating_add-le_max a b = ground arith

pub saturating_add-ge : (a b : ℕ) → a ≤ u64_max → a ≤ saturating_add a b
unfolding saturating_add
saturating_add-ge a b h = ground arith

pub saturating_add-lt : (a : ℕ) → a < u64_max → a < saturating_add a 1
unfolding saturating_add
saturating_add-lt a h = ground arith

pub saturating_add-one : (a : ℕ) → a < u64_max → saturating_add a 1 ≡ a + 1
unfolding saturating_add
saturating_add-one a h = ground arith

pub ruleset saturation = (saturating_add-le_max, saturating_add-ge, saturating_add-lt)
