-- ===== src/Journal/Records.antt =====
-- src/resident/journal.rs: what is appended is loaded again, and a torn tail is not.
use mathlib.Core.List.{append_assoc, append-nil}
use turtletap.Prelude.{
  ℕ, suc, ◌≡◌, refl, ap, subst, sym, some, List, [], ◌∷◌, ◌++◌, arith, Result, ok, Result-cases,
  inl, inr,
}
use turtletap.Framing.{Bytes}
use turtletap.Journal.{
  Codec, JournalError, newline, split_lines, read_line, load_lines, load, write_record, append,
  write_all, compact,
}
use turtletap.Journal.TornTail.{complete, truncate_torn_tail-complete}
use turtletap.Journal.Lines.{
  NoNewline, split_lines-NoNewline, split_lines-line, split_lines-complete, complete-line,
}

-- The contract of serde_json for a type of records: the compact text of a value holds no newline, a
-- stored line yields the text of its record and its checksum, and the text yields the record.
pub record IsFaithful {J R : Type 0} (codec : Codec J R) : Type 0 where
  pub one_line : (r : R) (n : ℕ) (line : Bytes) → codec.to_stored r n ≡ ok line → NoNewline line
  pub stored :
      (r : R) (n : ℕ) (line payload : Bytes)
      → codec.to_stored r n ≡ ok line
      → codec.to_vec r ≡ ok payload
      → codec.from_stored line ≡ ok (payload, n)
  pub text :
      (r : R) (payload : Bytes) → codec.to_vec r ≡ ok payload → codec.from_text payload ≡ ok r

module _ (I : Type 0) {J R : Type 0} (codec : Codec J R) where
  loads : Bytes → Result (JournalError I J) (List R)
  loads file = load {I = I} codec file

  load_lines-append :
      (n : ℕ) (lines : List Bytes) (line : Bytes) (rs : List R) (r : R)
      → load_lines {I = I} codec n lines ≡ ok rs
      → ((m : ℕ) → read_line {I = I} codec m line ≡ ok r)
      → load_lines {I = I} codec n (lines ++ line ∷ []) ≡ ok (rs ++ r ∷ [])
  unfolding load_lines
  load_lines-append n [] line rs r h last = ground (arith, last n)
  load_lines-append n (l ∷ lines) line rs r h last =
      elim (Result-cases (load_lines {I = I} codec (suc n) lines)) [
        | inl (e, failed) ↦ absurd (ground arith)
        | inr (rest, read) ↦ ground (arith, load_lines-append (suc n) lines line rest r read last)
      ]

  -- Bytes without a newline behind the complete lines of a file, as a write that a crash cut short
  -- leaves them, do not change what is loaded.
  pub load_torn :
      (file torn : Bytes)
      → NoNewline torn
      → load {I = I} codec (complete file ++ torn) ≡ load {I = I} codec file
  unfolding load
  load_torn file torn h =
      rw (split_lines-complete file torn, split_lines-NoNewline torn h)
        (ap (load_lines {I = I} codec 1) (append-nil (split_lines file).0))

  module _ (faithful : IsFaithful codec) where
    read_line-stored :
        (r : R) (payload line : Bytes) (m : ℕ)
        → codec.to_vec r ≡ ok payload
        → codec.to_stored r (codec.hash payload) ≡ ok line
        → read_line {I = I} codec m line ≡ ok r
    unfolding read_line
    read_line-stored r payload line m text stored = ground (
      arith,
      faithful.stored r (codec.hash payload) line payload stored text,
      faithful.text r payload text,
    )

    -- What `write_record` writes.
    written :
        (file longer : Bytes) (r : R)
        → write_record {I = I} codec file r ≡ ok longer
        → (line : Bytes) × (longer ≡ file ++ (line ++ newline ∷ []))
          × NoNewline line
          × ((m : ℕ) → read_line {I = I} codec m line ≡ ok r)
    unfolding write_record
    written file longer r h = elim (Result-cases (codec.to_vec r)) [
      | inl (e, failed) ↦ absurd (ground arith)
      | inr (payload, text) ↦ elim (Result-cases (codec.to_stored r (codec.hash payload))) [
        | inl (e, failed) ↦ absurd (ground arith)
        | inr (line, stored) ↦ (
          line,
          ground arith,
          faithful.one_line r (codec.hash payload) line stored,
          λ m. read_line-stored r payload line m text stored,
        )
      ]
    ]

    load-write_record :
        (file longer : Bytes) (r : R) (rs : List R)
        → load {I = I} codec file ≡ ok rs
        → write_record {I = I} codec (complete file) r ≡ ok longer
        → load {I = I} codec longer ≡ ok (rs ++ r ∷ [])
    unfolding load
    load-write_record file longer r rs h done =
        let (line, same, plain, reads) = written (complete file) longer r done in
        rw (same, split_lines-complete file (line ++ newline ∷ []), split_lines-line line [] plain)
          (unfold split_lines in load_lines-append 1 (split_lines file).0 line rs r h reads)

    -- Where the codec is faithful, a record that is appended to a file that loads is loaded behind the
    -- records before it, also where a crash left a torn line at the end of the file.
    pub load-append :
        (file longer : Bytes) (r : R) (rs : List R)
        → load {I = I} codec file ≡ ok rs
        → append {I = I} codec file r ≡ some (ok longer)
        → load {I = I} codec longer ≡ ok (rs ++ r ∷ [])
    unfolding append
    load-append file longer r rs h done =
        load-write_record file longer r rs h (ground (arith, truncate_torn_tail-complete file))

    load-write_all :
        (file longer : Bytes) (rs more : List R)
        → complete file ≡ file
        → load {I = I} codec file ≡ ok rs
        → write_all {I = I} codec file more ≡ ok longer
        → load {I = I} codec longer ≡ ok (rs ++ more)
    unfolding write_all
    load-write_all file longer rs [] whole h done =
        let same : file ≡ longer = ground arith in
        rw (append-nil rs) (subst (λ x. load {I = I} codec x ≡ ok rs) same h)
    load-write_all file longer rs (r ∷ more) whole h done =
        elim (Result-cases (write_record {I = I} codec file r)) [
          | inl (e, failed) ↦ absurd (ground arith)
          | inr (next, one) ↦
              let (line, same, plain, reads) = written file next r one in
              let whole_next : complete next ≡ next =
                subst (λ x. complete x ≡ x) (sym same) (complete-line file line) in
              let loaded =
                load-write_record file next r rs h
                  (subst (λ x. write_record {I = I} codec x r ≡ ok next) (sym whole) one) in
              let others : write_all {I = I} codec next more ≡ ok longer = ground arith in
              subst (λ x. load {I = I} codec longer ≡ ok x) (append_assoc rs (r ∷ []) more)
                (load-write_all next longer (rs ++ r ∷ []) more whole_next loaded others)
        ]

    -- Where the codec is faithful, a journal that was compacted loads the records it was compacted
    -- to, in their order.
    pub load-compact :
        (file : Bytes) (rs : List R)
        → compact {I = I} codec rs ≡ ok file
        → load {I = I} codec file ≡ ok rs
    unfolding compact
    load-compact file rs done =
        load-write_all [] file [] rs (unfold complete in refl)
          (unfold load load_lines split_lines in refl) done
