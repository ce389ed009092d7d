-- ===== src/Framing.antt =====
-- src/resident/framing.rs: length-prefixed frames. Bytes are numbers below 256. JSON is the
-- library serde_json: its encoder and decoder are parameters.
pub mod BigEndian
pub mod Frames
pub mod Stream
use turtletap.Prelude.{
  ℕ, ◌+◌, ◌*◌, ◌/◌, ◌%◌, ◌^◌, Option, none, some, List, [], ◌∷◌, ◌++◌, Result, ok, err, ltb,
  if◌then◌else◌, length, take, drop,
}

abbrev pub Bytes : Type 0
Bytes = List ℕ

-- `MAX_FRAME_SIZE`
abbrev pub max_frame_size : ℕ
max_frame_size = 8388608

abbrev u32_max : ℕ
u32_max = 0xffff_ffff

pub data FrameError (I J : Type 0) : Type 0 where
  io : I → FrameError I J
  too_large : ℕ → FrameError I J
  json : J → FrameError I J

-- `u32::to_be_bytes` and `u32::from_be_bytes`
unfoldable pub to_be_bytes : ℕ → Bytes
to_be_bytes n = (n / 2 ^ 24 % 256) ∷ (n / 2 ^ 16 % 256) ∷ (n / 2 ^ 8 % 256) ∷ (n % 256) ∷ []

unfoldable pub from_be_bytes : ℕ → ℕ → ℕ → ℕ → ℕ
from_be_bytes a b c d = a * 2 ^ 24 + b * 2 ^ 16 + c * 2 ^ 8 + d

module _ {I J : Type 0} where
  -- `encode_frame` behind the JSON encoder.
  unfoldable pub encode_payload : Bytes → Result (FrameError I J) Bytes
  encode_payload payload =
      if ltb max_frame_size (length payload)
      then err (too_large (length payload))
      else if ltb u32_max (length payload)
      then err (too_large (length payload))
      else ok (to_be_bytes (length payload) ++ payload)

  unfoldable pub encode_frame :
      {T : Type 0} → (T → Result J Bytes) → T → Result (FrameError I J) Bytes
  unfolding encode_payload
  encode_frame to_vec value = elim (to_vec value) [
    | err e ↦ err (json e)
    | ok payload ↦ encode_payload payload
  ]

  -- `next_payload` behind the four bytes of the length.
  unfoldable pub payload_of : ℕ → Bytes → Bytes → Result (FrameError I J) (Option Bytes) × Bytes
  payload_of size rest bytes =
      if ltb max_frame_size size
      then (err (too_large size), bytes)
      else if ltb (length bytes) (4 + size)
      then (ok none, bytes)
      else (ok (some (take size rest)), drop size rest)

  -- The state of a `FrameDecoder` is its bytes.
  unfoldable pub next_payload : Bytes → Result (FrameError I J) (Option Bytes) × Bytes
  unfolding payload_of
  next_payload (a ∷ b ∷ c ∷ d ∷ rest) =
      payload_of (from_be_bytes a b c d) rest (a ∷ b ∷ c ∷ d ∷ rest)
  next_payload bytes = (ok none, bytes)

  read_value :
      {T : Type 0} → (Bytes → Result J T) → Option Bytes → Result (FrameError I J) (Option T)
  read_value from_slice none = ok none
  read_value from_slice (some payload) = elim (from_slice payload) [
    | err e ↦ err (json e)
    | ok value ↦ ok (some value)
  ]

  decoded :
      {T : Type 0}
      → (Bytes → Result J T)
      → Result (FrameError I J) (Option Bytes)
      → Result (FrameError I J) (Option T)
  decoded from_slice (err e) = err e
  decoded from_slice (ok payload) = read_value from_slice payload

  unfoldable pub decode_next :
      {T : Type 0} → (Bytes → Result J T) → Bytes → Result (FrameError I J) (Option T) × Bytes
  unfolding decoded read_value
  decode_next from_slice bytes =
      let step = next_payload bytes in (decoded from_slice step.0, step.1)

-- `FrameDecoder::push`
unfoldable pub push : Bytes → Bytes → Bytes
push bytes chunk = bytes ++ chunk
