-- ===== src/Tests/Journal.antt =====
-- src/resident/journal.rs with records that are digits, a checksum that is the length of the text,
-- and a stored line that is the digit and as many ones as the checksum says.
use turtletap.Prelude.{
  ℕ, zero, suc, ◌+◌, ◌-◌, ◌≡◌, refl, subst, ok, err, Result, some, [], ◌∷◌, ◌++◌, arith, length, ap,
}
use turtletap.Framing.{Bytes}
use turtletap.Journal.{
  Codec, newline, load, append, compact, write_all, write_record, read_line, load_lines,
  split_lines, truncate_torn_tail, scan_back, last_byte, rposition,
}
use turtletap.Journal.TornTail.{complete, truncate_torn_tail-complete}
use turtletap.Journal.Lines.{NoNewline}
use turtletap.Journal.Records.{IsFaithful, load-append, load-compact}

abbrev ones : ℕ → Bytes
ones zero = []
ones (suc n) = b'1' ∷ ones n

abbrev from_stored : Bytes → Result ℕ (Bytes × ℕ)
from_stored [] = err 0
from_stored (b ∷ bs) = ok (b ∷ [], length bs)

abbrev from_text : Bytes → Result ℕ ℕ
from_text (b ∷ []) = ok (b - b'0')
from_text bytes = err 0

abbrev digits : Codec ℕ ℕ
digits = record {
  to_vec = λ n. ok ((b'0' + n) ∷ []);
  to_stored = λ n sum. ok ((b'0' + n) ∷ ones sum);
  from_stored = from_stored;
  from_text = from_text;
  hash = λ bytes. length bytes;
}

ones-NoNewline : (n : ℕ) → NoNewline (ones n)
ones-NoNewline zero = tt
ones-NoNewline (suc n) = (refl, ones-NoNewline n)

length-ones : (n : ℕ) → length (ones n) ≡ n
length-ones zero = refl
length-ones (suc n) = ap suc (length-ones n)

digits-IsFaithful : IsFaithful digits
digits-IsFaithful = record {
  one_line = λ r n line h.
      let e : (b'0' + r) ∷ ones n ≡ line = cc h in
      subst NoNewline e (ground arith, ones-NoNewline n);
  stored = λ r n line payload h k. ground (arith, length-ones n);
  text = λ r payload h. ground arith;
}

abbrev three : Bytes
three = b'3' ∷ b'1' ∷ newline ∷ []

-- One whole record, and one that a crash cut short.
abbrev torn_file : Bytes
torn_file = three ++ b'4' ∷ []

ignores_a_torn_final_record : load {I = ℕ} digits torn_file ≡ ok (3 ∷ [])
unfolding load load_lines split_lines read_line
ignores_a_torn_final_record = refl

truncate_torn_tail-complete_example : truncate_torn_tail torn_file ≡ some (complete torn_file)
truncate_torn_tail-complete_example = truncate_torn_tail-complete torn_file

load-append_example : load {I = ℕ} digits (three ++ b'5' ∷ b'1' ∷ newline ∷ []) ≡ ok (3 ∷ 5 ∷ [])
unfolding load load_lines split_lines read_line append write_record truncate_torn_tail scan_back
    last_byte rposition
load-append_example =
    load-append ℕ digits digits-IsFaithful torn_file (three ++ b'5' ∷ b'1' ∷ newline ∷ []) 5
      (3 ∷ []) refl refl

load-compact_example : load {I = ℕ} digits (three ++ b'5' ∷ b'1' ∷ newline ∷ []) ≡ ok (3 ∷ 5 ∷ [])
unfolding compact write_all write_record
load-compact_example =
    load-compact ℕ digits digits-IsFaithful (three ++ b'5' ∷ b'1' ∷ newline ∷ []) (3 ∷ 5 ∷ []) refl
