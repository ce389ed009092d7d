-- ===== src/Framing/BigEndian.antt =====
-- src/resident/framing.rs: the four bytes of a length.
use turtletap.Prelude.{ℕ, ◌^◌, ◌≡◌, ◌<◌, [], ◌∷◌, arith}
use turtletap.Framing.{Bytes, to_be_bytes, from_be_bytes}

-- What `from_be_bytes` makes of a list of four bytes.
abbrev pub number_of : Bytes → ℕ
number_of (a ∷ b ∷ c ∷ d ∷ []) = from_be_bytes a b c d
number_of bytes = 0

-- A number below 2 ^ 32 is read back from its big-endian bytes.
pub from_be_bytes-to_be_bytes : (n : ℕ) → n < 2 ^ 32 → number_of (to_be_bytes n) ≡ n
unfolding to_be_bytes from_be_bytes
from_be_bytes-to_be_bytes n h = omega arith
