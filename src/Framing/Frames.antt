-- ===== src/Framing/Frames.antt =====
-- src/resident/framing.rs: the decoder on whole, partial and refused frames.
use turtletap.Prelude.{
  suc, ltb, Bool-cases, Result-cases, inl, inr, ◌⊎◌, ◌+◌, ◌≡◌, ◌<◌, refl, ap, Option, none, some,
  [], ◌∷◌, ◌++◌, Result, ok, err, arith, length, take, drop, length-append,
}
use turtletap.Framing.{
  Bytes, FrameError, too_large, max_frame_size, to_be_bytes, from_be_bytes, encode_payload,
  next_payload, encode_frame, decode_next,
}
use turtletap.Framing.BigEndian.{from_be_bytes-to_be_bytes}

module _ (I J : Type 0) where
  abbrev pub next : Bytes → Result (FrameError I J) (Option Bytes) × Bytes
  next bytes = next_payload {I = I} {J = J} bytes

  -- The decoder refuses, yields a payload, or waits with its bytes untouched.
  pub next-cases :
      (bytes : Bytes)
      → ((e : FrameError I J) × (next bytes ≡ (err e, bytes)))
        ⊎ ((payload : Bytes) × (left : Bytes) × (next bytes ≡ (ok (some payload), left)))
        ⊎ (next bytes ≡ (ok none, bytes))
  unfolding next_payload
  next-cases (a ∷ b ∷ c ∷ d ∷ rest) =
      elim (Bool-cases (ltb max_frame_size (from_be_bytes a b c d))) [
        | inl large ↦ inl (too_large (from_be_bytes a b c d), ground arith)
        | inr fits ↦
            elim (Bool-cases
              (ltb (suc (suc (suc (suc (length rest))))) (4 + from_be_bytes a b c d))) [
                | inl short ↦ inr (inr (ground arith))
                | inr whole ↦ inr (
                    inl (
                      take (from_be_bytes a b c d) rest,
                      drop (from_be_bytes a b c d) rest,
                      ground arith,
                    ))
              ]
      ]
  next-cases [] = inr (inr refl)
  next-cases (a ∷ []) = inr (inr refl)
  next-cases (a ∷ b ∷ []) = inr (inr refl)
  next-cases (a ∷ b ∷ c ∷ []) = inr (inr refl)

  take-length : (p tail : Bytes) → take (length p) (p ++ tail) ≡ p
  take-length [] tail = refl
  take-length (b ∷ p) tail = ap (◌∷◌ b) (take-length p tail)

  drop-length : (p tail : Bytes) → drop (length p) (p ++ tail) ≡ tail
  drop-length [] tail = refl
  drop-length (b ∷ p) tail = drop-length p tail

  -- A whole frame at the front of the buffer is taken off, and what follows it stays.
  pub next_payload-encode_payload :
      (p frame tail : Bytes)
      → encode_payload {I = I} {J = J} p ≡ ok frame
      → next_payload {I = I} {J = J} (frame ++ tail) ≡ (ok (some p), tail)
  unfolding encode_payload next_payload to_be_bytes
  next_payload-encode_payload p frame tail h =
      let read = from_be_bytes-to_be_bytes (length p) (ground arith) in
      ground (arith, length-append p tail, take-length p tail, drop-length p tail, read)

  -- A buffer that holds less than the next frame is left alone.
  pub next-partial :
      (p frame tail bytes more : Bytes)
      → encode_payload {I = I} {J = J} p ≡ ok frame
      → bytes ++ more ≡ frame ++ tail
      → length bytes < length frame
      → next bytes ≡ (ok none, bytes)
  unfolding encode_payload next_payload to_be_bytes
  next-partial p frame tail (a ∷ b ∷ c ∷ d ∷ rest) more h same short =
      let read = from_be_bytes-to_be_bytes (length p) (ground arith) in ground (arith, read)
  next-partial p frame tail [] more h same short = refl
  next-partial p frame tail (a ∷ []) more h same short = refl
  next-partial p frame tail (a ∷ b ∷ []) more h same short = refl
  next-partial p frame tail (a ∷ b ∷ c ∷ []) more h same short = refl

  -- JSON is read back as it was written: the contract of serde_json for the values of a type.
  abbrev pub ReadsBack : {T : Type 0} → (T → Result J Bytes) → (Bytes → Result J T) → Type 0
  ReadsBack {T} to_vec from_slice =
      (value : T) (payload : Bytes) → to_vec value ≡ ok payload → from_slice payload ≡ ok value

  encode_frame-ok :
      {T : Type 0} (to_vec : T → Result J Bytes) (value : T) (frame : Bytes)
      → encode_frame {I = I} {J = J} to_vec value ≡ ok frame
      → (p : Bytes) × (to_vec value ≡ ok p) × (encode_payload {I = I} {J = J} p ≡ ok frame)
  unfolding encode_frame
  encode_frame-ok to_vec value frame h = elim (Result-cases (to_vec value)) [
    | inl (e, failed) ↦ absurd (ground arith)
    | inr (p, done) ↦ (p, done, ground arith)
  ]

  -- Where JSON is read back as it was written, a value that was encoded is decoded again, whatever
  -- bytes follow its frame, and those stay.
  pub decode_next-encode_frame :
      {T : Type 0} (to_vec : T → Result J Bytes) (from_slice : Bytes → Result J T) (value : T)
      (frame tail : Bytes)
      → ReadsBack to_vec from_slice
      → encode_frame {I = I} {J = J} to_vec value ≡ ok frame
      → decode_next {I = I} {J = J} from_slice (frame ++ tail) ≡ (ok (some value), tail)
  unfolding decode_next
  decode_next-encode_frame to_vec from_slice value frame tail back done =
      let (p, written, framed) = encode_frame-ok to_vec value frame done in
      ground (arith, next_payload-encode_payload p frame tail framed, back value p written)
