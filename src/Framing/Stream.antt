-- ===== src/Framing/Stream.antt =====
-- src/resident/framing.rs and src/resident/runtime/tokio.rs: frames on a stream. What a socket
-- delivers is a list of chunks; an empty chunk is a read of zero bytes, the end of the stream. Where
-- the list ends the read is pending, and the caller may cancel it.
use turtletap.Prelude.{
  ℕ, inl, inr, ◌≡◌, ◌≤◌, refl, sym, ap, ◌∙◌, Option, none, some, List, [], ◌∷◌, ◌++◌, Result, ok,
  err, arith, length, length-append, append-split, dec_lt,
}
use mathlib.Core.List.{flatten, append_assoc}
use turtletap.Framing.{Bytes, FrameError, encode_payload, next_payload, push}
use turtletap.Framing.Frames.{next, next-cases, next-partial, next_payload-encode_payload}

pub data Outcome : Type 0 where
  received : Bytes → Outcome
  invalid_data unexpected_eof pending : Outcome

-- A `TokioUnixReader`: the bytes of its decoder, and what the socket will deliver.
pub record Reader : Type 0 where
  pub bytes : Bytes
  pub chunks : List Bytes

module _ (I J : Type 0) where
  -- An answer of `next_payload`, unless it asks for more bytes.
  answer :
      Result (FrameError I J) (Option Bytes)
      → Bytes
      → List Bytes
      → Outcome × Reader
      → Outcome × Reader
  answer (err e) left chunks more = (invalid_data, record { bytes = left; chunks = chunks })
  answer (ok (some payload)) left chunks more =
      (received payload, record { bytes = left; chunks = chunks })
  answer (ok none) left chunks more = more

  -- The loop of `receive`, one round for each chunk that is read.
  unfoldable pub receive_from : Bytes → List Bytes → Outcome × Reader
  unfolding next_payload answer push
  receive_from bytes [] =
      let step = next_payload {I = I} {J = J} bytes in
      answer step.0 step.1 [] (pending, record { bytes = step.1; chunks = [] })
  receive_from bytes ([] ∷ rest) =
      let step = next_payload {I = I} {J = J} bytes in
      answer step.0 step.1 ([] ∷ rest) (unexpected_eof, record { bytes = step.1; chunks = rest })
  receive_from bytes ((b ∷ bs) ∷ rest) =
      let step = next_payload {I = I} {J = J} bytes in
      let more = receive_from (push step.1 (b ∷ bs)) rest in
      answer step.0 step.1 ((b ∷ bs) ∷ rest) more

  unfoldable pub receive : Reader → Outcome × Reader
  unfolding receive_from
  receive r = receive_from r.bytes r.chunks

  -- One round of the loop, when no whole frame is there.
  receive_from-wait :
      (bytes : Bytes)
      → next I J bytes ≡ (ok none, bytes)
      → (receive_from bytes [] ≡ (pending, record { bytes = bytes; chunks = [] }))
        × ((b : ℕ) (bs : Bytes) (rest : List Bytes)
            → receive_from bytes ((b ∷ bs) ∷ rest) ≡ receive_from (push bytes (b ∷ bs)) rest)
        × ((rest : List Bytes)
            → receive_from bytes ([] ∷ rest)
              ≡ (unexpected_eof, record { bytes = bytes; chunks = rest }))
  unfolding receive_from
  receive_from-wait bytes h = (ground arith, (λ b bs rest. ground arith), λ rest. ground arith)

  receive_from-payload :
      (bytes payload left : Bytes) (chunks : List Bytes)
      → next I J bytes ≡ (ok (some payload), left)
      → receive_from bytes chunks ≡ (received payload, record { bytes = left; chunks = chunks })
  unfolding receive_from
  receive_from-payload bytes payload left [] h = ground arith
  receive_from-payload bytes payload left ([] ∷ rest) h = ground arith
  receive_from-payload bytes payload left ((b ∷ bs) ∷ rest) h = ground arith

  receive_from-error :
      (bytes : Bytes) (e : FrameError I J) (chunks : List Bytes)
      → next I J bytes ≡ (err e, bytes)
      → receive_from bytes chunks ≡ (invalid_data, record { bytes = bytes; chunks = chunks })
  unfolding receive_from
  receive_from-error bytes e [] h = ground arith
  receive_from-error bytes e ([] ∷ rest) h = ground arith
  receive_from-error bytes e ((b ∷ bs) ∷ rest) h = ground arith

  -- A `receive` that waits has seen no whole frame.
  pending-short :
      (bytes : Bytes) (chunks : List Bytes) (r : Reader)
      → receive_from bytes chunks ≡ (pending, r)
      → next I J bytes ≡ (ok none, bytes)
  pending-short bytes chunks r h = elim (next-cases I J bytes) [
    | inl (e, failed) ↦ absurd (ground (arith, receive_from-error bytes e chunks failed))
    | inr (inl (payload, rest, whole)) ↦
        absurd (ground (arith, receive_from-payload bytes payload rest chunks whole))
    | inr (inr short) ↦ short
  ]

  cancel_from :
      (bytes left : Bytes) (chunks later : List Bytes)
      → receive_from bytes chunks ≡ (pending, record { bytes = left; chunks = [] })
      → receive_from left later ≡ receive_from bytes (chunks ++ later)
  cancel_from bytes left [] later h =
      let step = receive_from-wait bytes (pending-short bytes [] _ h) in
      ap (λ b. receive_from b later) (ground (arith, step.0))
  cancel_from bytes left ([] ∷ rest) later h =
      let step = receive_from-wait bytes (pending-short bytes ([] ∷ rest) _ h) in
      absurd (ground (arith, step.2 rest))
  cancel_from bytes left ((b ∷ bs) ∷ rest) later h =
      let step = receive_from-wait bytes (pending-short bytes ((b ∷ bs) ∷ rest) _ h) in
      cancel_from (push bytes (b ∷ bs)) left rest later (sym (step.1 b bs rest) ∙ h)
      ∙ sym (step.1 b bs (rest ++ later))

  -- A `receive` that waits, all that came being read, may be cancelled without loss: a later one,
  -- over whatever comes then, answers what one `receive` over all of it would have.
  pub receive_cancel :
      (bytes left : Bytes) (chunks later : List Bytes)
      → receive (record { bytes = bytes; chunks = chunks })
        ≡ (pending, record { bytes = left; chunks = [] })
      → receive (record { bytes = left; chunks = later })
        ≡ receive (record { bytes = bytes; chunks = chunks ++ later })
  unfolding receive
  receive_cancel bytes left chunks later h = cancel_from bytes left chunks later h

  abbrev pub NonEmpty : List Bytes → Type 0
  NonEmpty [] = Unit {0}
  NonEmpty ([] ∷ chunks) = ⊥
  NonEmpty ((b ∷ bs) ∷ chunks) = NonEmpty chunks

  -- `receive` answers `p`, and `tail` is what is still to be read.
  abbrev pub Delivers : Bytes → Bytes → Outcome × Reader → Type 0
  Delivers p tail r =
      (r.0 ≡ received p) × (r.1.bytes ++ flatten r.1.chunks ≡ tail) × NonEmpty r.1.chunks

  deliver_whole :
      (p frame tail bytes : Bytes) (chunks : List Bytes)
      → encode_payload {I = I} {J = J} p ≡ ok frame
      → NonEmpty chunks
      → bytes ++ flatten chunks ≡ frame ++ tail
      → length frame ≤ length bytes
      → Delivers p tail (receive_from bytes chunks)
  deliver_whole p frame tail bytes chunks h full same enough =
      let (e, cut, after) = append-split bytes (flatten chunks) frame tail same enough in
      let whole : next I J bytes ≡ (ok (some p), e) =
        ap (next I J) cut ∙ next_payload-encode_payload I J p frame e h in
      rw (receive_from-payload bytes p e chunks whole) (refl, after, full)

  deliver :
      (p frame tail bytes : Bytes) (chunks : List Bytes)
      → encode_payload {I = I} {J = J} p ≡ ok frame
      → NonEmpty chunks
      → bytes ++ flatten chunks ≡ frame ++ tail
      → Delivers p tail (receive_from bytes chunks)
  unfolding flatten push
  deliver p frame tail bytes [] h full same =
      deliver_whole p frame tail bytes [] h full same
        (omega (arith, ap length same, length-append bytes [], length-append frame tail))
  deliver p frame tail bytes ([] ∷ rest) h full same = absurd full
  deliver p frame tail bytes ((b ∷ bs) ∷ rest) h full same =
      elim (dec_lt (length bytes) (length frame)) [
        | no enough ↦ deliver_whole p frame tail bytes ((b ∷ bs) ∷ rest) h full same (omega arith)
        | yes short ↦
            let wait =
              next-partial I J p frame tail bytes ((b ∷ bs) ++ flatten rest) h same short in
            rw ((receive_from-wait bytes wait).1 b bs rest) (
              deliver p frame tail (push bytes (b ∷ bs)) rest h full
                (append_assoc bytes (b ∷ bs) (flatten rest) ∙ same))
      ]

  -- However the bytes of a frame and of what follows it are cut into chunks, none of them empty, and
  -- however many of them are buffered already, `receive` answers the frame's payload and leaves the
  -- rest, buffered or in chunks none of which is empty.
  pub receive-encode_payload :
      (p frame tail : Bytes) (r : Reader)
      → encode_payload {I = I} {J = J} p ≡ ok frame
      → NonEmpty r.chunks
      → r.bytes ++ flatten r.chunks ≡ frame ++ tail
      → Delivers p tail (receive r)
  unfolding receive
  receive-encode_payload p frame tail r h full same =
      deliver p frame tail r.bytes r.chunks h full same
