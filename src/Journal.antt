-- ===== src/Journal.antt =====
-- src/resident/journal.rs: the append-only journal. A file is its bytes; the calls of the file
-- system that open, rename and synchronise it, and reject symbolic links, are not modelled. JSON and
-- CRC-32 are libraries, and so parameters.
pub mod TornTail
pub mod Lines
pub mod Records
use turtletap.Prelude.{
  ℕ, zero, suc, ◌+◌, ◌-◌, Option, none, some, List, [], ◌∷◌, ◌++◌, Result, ok, err, ◌==◌,
  if◌then◌else◌, length, take, drop,
}
use turtletap.Framing.{Bytes}

pub data JournalError (I J : Type 0) : Type 0 where
  io : I → JournalError I J
  json : J → JournalError I J
  corrupt : ℕ → JournalError I J

-- `b'\n'`
abbrev pub newline : ℕ
newline = 10

-- `rposition(|byte| *byte == b'\n')`
unfoldable pub rposition : Bytes → Option ℕ
rposition [] = none
rposition (b ∷ bs) = elim (rposition bs) [
  | some i ↦ some (suc i)
  | none ↦ if b == newline then some 0 else none
]

-- `SCAN_BYTES`
abbrev pub scan_bytes : ℕ
scan_bytes = 8192

-- The loop of `truncate_torn_tail`, from `end` backwards in blocks; what it leaves of the file.
-- `none` is out of fuel.
unfoldable pub scan_back : ℕ → Bytes → ℕ → Option Bytes
scan_back zero file stop = none
scan_back (suc fuel) file stop =
    let start = stop - scan_bytes in
    let before = scan_back fuel file start in
    if stop == 0 then some [] else elim (rposition (take (stop - start) (drop start file))) [
      | some index ↦ some (take (start + index + 1) file)
      | none ↦ before
    ]

unfoldable pub last_byte : Bytes → Option ℕ
last_byte [] = none
last_byte (b ∷ []) = some b
last_byte (b ∷ c ∷ bs) = last_byte (c ∷ bs)

unfoldable pub truncate_torn_tail : Bytes → Option Bytes
truncate_torn_tail file = elim (last_byte file) [
  | none ↦ some file
  | some last ↦
      if last == newline then some file else scan_back (suc (length file)) file (length file)
]

-- `read_until(b'\n')` to the end of the file: the lines without their newline, and what stands
-- behind the last newline.
unfoldable pub split_lines : Bytes → List Bytes × Bytes
split_lines [] = ([], [])
split_lines (b ∷ bs) =
    let rest = split_lines bs in
    if b == newline
    then ([] ∷ rest.0, rest.1)
    else elim rest.0 [ [] ↦ ([], b ∷ rest.1) | line ∷ lines ↦ ((b ∷ line) ∷ lines, rest.1) ]

-- serde_json and crc32fast, for one type of records.
pub record Codec (J R : Type 0) : Type 0 where
  -- `serde_json::to_vec(record)`
  pub to_vec : R → Result J Bytes
  -- `serde_json::to_writer` of a `StoredRecordRef`
  pub to_stored : R → ℕ → Result J Bytes
  -- `serde_json::from_slice` to a `RawStoredRecord`: the text of the record and its checksum
  pub from_stored : Bytes → Result J (Bytes × ℕ)
  -- `serde_json::from_str`
  pub from_text : Bytes → Result J R
  -- `crc32fast::hash`
  pub hash : Bytes → ℕ

module _ {I J R : Type 0} (codec : Codec J R) where
  read_text : ℕ → Bytes × ℕ → Result (JournalError I J) R
  read_text number (text, checksum) =
      if codec.hash text == checksum
      then (elim (codec.from_text text) [ err e ↦ err (json e) | ok r ↦ ok r ])
      else err (corrupt number)

  -- One line of `load`.
  unfoldable pub read_line : ℕ → Bytes → Result (JournalError I J) R
  unfolding read_text
  read_line number line = elim (codec.from_stored line) [
    | err e ↦ err (json e)
    | ok stored ↦ read_text number stored
  ]

  unfoldable pub load_lines : ℕ → List Bytes → Result (JournalError I J) (List R)
  load_lines number [] = ok []
  load_lines number (line ∷ lines) =
      let rest = load_lines (suc number) lines in
      elim (read_line number line) [
        | err e ↦ err e
        | ok r ↦ elim rest [ err e ↦ err e | ok rs ↦ ok (r ∷ rs) ]
      ]

  -- `load`: a final torn line is ignored.
  unfoldable pub load : Bytes → Result (JournalError I J) (List R)
  load file = load_lines 1 (split_lines file).0

  -- `write_record`: the file with one more line.
  unfoldable pub write_record : Bytes → R → Result (JournalError I J) Bytes
  write_record file r = elim (codec.to_vec r) [
    | err e ↦ err (json e)
    | ok payload ↦ elim (codec.to_stored r (codec.hash payload)) [
      | err e ↦ err (json e)
      | ok line ↦ ok (file ++ (line ++ newline ∷ []))
    ]
  ]

  -- `append`: the writer cuts a torn tail off before it writes.
  unfoldable pub append : Bytes → R → Option (Result (JournalError I J) Bytes)
  unfolding write_record
  append file r = elim (truncate_torn_tail file) [
    | none ↦ none
    | some kept ↦ some (write_record kept r)
  ]

  -- The loop of `compact`, into an empty file.
  unfoldable pub write_all : Bytes → List R → Result (JournalError I J) Bytes
  unfolding write_record
  write_all file [] = ok file
  write_all file (r ∷ rs) = elim (write_record file r) [
    | err e ↦ err e
    | ok longer ↦ write_all longer rs
  ]

  unfoldable pub compact : List R → Result (JournalError I J) Bytes
  unfolding write_all
  compact rs = write_all [] rs
