-- ===== src/Tests/Framing.antt =====
-- src/resident/framing.rs and src/resident/runtime/tokio.rs at the frame of a two-byte payload.
use turtletap.Prelude.{ℕ, ◌≡◌, refl, subst, ok, err, Result, none, some, [], ◌∷◌, ◌++◌, arith}
use mathlib.Core.List.{flatten}
use turtletap.Framing.{
  Bytes, to_be_bytes, from_be_bytes, encode_payload, encode_frame, next_payload, decode_next,
  payload_of, push, too_large,
}
use turtletap.Framing.BigEndian.{number_of, from_be_bytes-to_be_bytes}
use turtletap.Framing.Frames.{ReadsBack, decode_next-encode_frame}
use turtletap.Framing.Stream.{
  Reader, receive, receive_from, Delivers, receive-encode_payload, receive_cancel,
}

-- "hi"
abbrev hi : Bytes
hi = b'h' ∷ b'i' ∷ []

abbrev hi_frame : Bytes
hi_frame = 0 ∷ 0 ∷ 0 ∷ 2 ∷ hi

-- A value of one byte, as its text.
abbrev to_vec : ℕ → Result ℕ Bytes
to_vec n = ok (n ∷ [])

abbrev from_slice : Bytes → Result ℕ ℕ
from_slice (n ∷ []) = ok n
from_slice bytes = err 0

to_vec-ReadsBack : ReadsBack ℕ ℕ to_vec from_slice
to_vec-ReadsBack value payload h =
    let e : value ∷ [] ≡ payload = cc h in subst (λ p. from_slice p ≡ ok value) e refl

decoder_retains_partial_frames :
    next_payload {I = ℕ} {J = ℕ} (0 ∷ 0 ∷ 0 ∷ []) ≡ (ok none, 0 ∷ 0 ∷ 0 ∷ [])
unfolding next_payload
decoder_retains_partial_frames = refl

decoder_rejects_oversized_declarations :
    (next_payload {I = ℕ} {J = ℕ} (to_be_bytes 8388609)).0 ≡ err (too_large 8388609)
unfolding next_payload to_be_bytes from_be_bytes payload_of
decoder_rejects_oversized_declarations = refl

from_be_bytes-to_be_bytes_example : number_of (to_be_bytes 70000) ≡ 70000
from_be_bytes-to_be_bytes_example = from_be_bytes-to_be_bytes 70000 (omega arith)

decode_next-encode_frame_example :
    decode_next {I = ℕ} {J = ℕ} from_slice ((0 ∷ 0 ∷ 0 ∷ 1 ∷ b'7' ∷ []) ++ hi_frame)
    ≡ (ok (some b'7'), hi_frame)
unfolding encode_frame encode_payload to_be_bytes
decode_next-encode_frame_example =
    decode_next-encode_frame ℕ ℕ to_vec from_slice b'7' (0 ∷ 0 ∷ 0 ∷ 1 ∷ b'7' ∷ []) hi_frame
      to_vec-ReadsBack refl

abbrev in_pieces : Reader
in_pieces = record { bytes = 0 ∷ 0 ∷ []; chunks = (0 ∷ 2 ∷ b'h' ∷ []) ∷ (b'i' ∷ 0 ∷ 0 ∷ []) ∷ [] }

receive-encode_payload_example : Delivers ℕ ℕ hi (0 ∷ 0 ∷ []) (receive ℕ ℕ in_pieces)
unfolding encode_payload to_be_bytes flatten
receive-encode_payload_example =
    receive-encode_payload ℕ ℕ hi hi_frame (0 ∷ 0 ∷ []) in_pieces refl tt refl

receive_cancel_example :
    receive ℕ ℕ (record { bytes = 0 ∷ 0 ∷ 0 ∷ 2 ∷ b'h' ∷ []; chunks = (b'i' ∷ []) ∷ [] })
    ≡ receive ℕ ℕ
        (record { bytes = 0 ∷ 0 ∷ []; chunks = ((0 ∷ 2 ∷ b'h' ∷ []) ∷ []) ++ (b'i' ∷ []) ∷ [] })
unfolding receive receive_from next_payload payload_of from_be_bytes push
receive_cancel_example =
    receive_cancel ℕ ℕ (0 ∷ 0 ∷ []) (0 ∷ 0 ∷ 0 ∷ 2 ∷ b'h' ∷ []) ((0 ∷ 2 ∷ b'h' ∷ []) ∷ [])
      ((b'i' ∷ []) ∷ []) refl
