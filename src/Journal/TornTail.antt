-- ===== src/Journal/TornTail.antt =====
-- src/resident/journal.rs: `truncate_torn_tail` keeps the complete lines.
use turtletap.Prelude.{
  ℕ, zero, suc, ◌+◌, ◌-◌, ◌≤◌, ◌<◌, ◌≡◌, refl, ap, subst, dec_lt, sym, ◌∙◌, Option, none, some, [],
  ◌∷◌, ◌++◌, arith, ◌==◌, if◌then◌else◌, length, take, drop, take-append-drop, Option-cases, inl,
  inr,
}
use native.Mathlib.Nat.{zero-add}
use turtletap.Framing.{Bytes}
use turtletap.Journal.{newline, rposition, scan_bytes, scan_back, last_byte, truncate_torn_tail}

abbrev keep_first : Bytes → Option ℕ → Bytes
keep_first file none = []
keep_first file (some i) = take (suc i) file

-- The file up to its last newline, that one included.
unfoldable pub complete : Bytes → Bytes
complete [] = []
complete (b ∷ bs) = elim (complete bs) [
  | [] ↦ if b == newline then b ∷ [] else []
  | c ∷ cs ↦ b ∷ c ∷ cs
]

abbrev or_before : Option ℕ → ℕ → Option ℕ → Option ℕ
or_before before n (some i) = some (n + i)
or_before before n none = before

-- The last newline of two pieces is in the second, or if it has none, in the first.
rposition-append :
    (xs ys : Bytes) → rposition (xs ++ ys) ≡ or_before (rposition xs) (length xs) (rposition ys)
unfolding rposition
rposition-append [] ys = ground arith
rposition-append (x ∷ xs) ys = ground (arith, rposition-append xs ys)

complete-keep_first : (file : Bytes) → complete file ≡ keep_first file (rposition file)
unfolding complete rposition
complete-keep_first [] = refl
complete-keep_first (b ∷ bs) = ground (arith, complete-keep_first bs)

length-take_le : (n : ℕ) (xs : Bytes) → n ≤ length xs → length (take n xs) ≡ n
length-take_le zero xs h = refl
length-take_le (suc n) [] h = absurd (omega arith)
length-take_le (suc n) (x ∷ xs) h = ap suc (length-take_le n xs (omega arith))

drop-nil : (n : ℕ) → drop {A = ℕ} n [] ≡ []
drop-nil zero = refl
drop-nil (suc n) = refl

drop-length : (xs : Bytes) → drop (length xs) xs ≡ []
drop-length [] = refl
drop-length (x ∷ xs) = drop-length xs

drop-drop : (n m : ℕ) (xs : Bytes) → drop m (drop n xs) ≡ drop (n + m) xs
drop-drop zero m xs = rw zero-add
drop-drop (suc n) m [] = drop-nil m ∙ sym (drop-nil (suc n + m))
drop-drop (suc n) m (x ∷ xs) =
    let e : suc n + m ≡ suc (n + m) = omega arith in rw e (drop-drop n m xs)

-- Where no newline stands behind `stop`, the last one behind `start` is in the block between.
rposition-blocks :
    (file : Bytes) (start stop : ℕ)
    → start ≤ stop
    → rposition (drop stop file) ≡ none
    → rposition (drop start file) ≡ rposition (take (stop - start) (drop start file))
rposition-blocks file start stop h clean =
    let tail = drop start file in
    let meet : start + (stop - start) ≡ stop = omega arith in
    let rest = drop-drop start (stop - start) file ∙ ap (λ n. drop n file) meet in
    let cut = rposition-append (take (stop - start) tail) (drop (stop - start) tail) in
    sym (ap rposition (take-append-drop (stop - start) tail))
    ∙ cut
    ∙ ap (or_before (rposition (take (stop - start) tail)) (length (take (stop - start) tail)))
        (ap rposition rest ∙ clean)

rposition-drop :
    (file : Bytes) (start i : ℕ)
    → start ≤ length file
    → rposition (drop start file) ≡ some i
    → rposition file ≡ some (start + i)
rposition-drop file start i h e =
    let cut = rposition-append (take start file) (drop start file) in
    let len = length-take_le start file h in
    sym (ap rposition (take-append-drop start file)) ∙ cut ∙ ground (arith, e, len)

-- Enough fuel, and nothing behind `stop`: the scan leaves the complete lines.
scan_back-complete :
    (fuel : ℕ) (file : Bytes) (stop : ℕ)
    → stop < fuel
    → stop ≤ length file
    → rposition (drop stop file) ≡ none
    → scan_back fuel file stop ≡ some (complete file)
unfolding scan_back
scan_back-complete zero file stop h k clean = absurd (omega arith)
scan_back-complete (suc fuel) file stop h k clean = elim (dec_lt 0 stop) [
  | no done ↦
      let e : stop ≡ 0 = omega arith in
      let bare : rposition file ≡ none = subst (λ n. rposition (drop n file) ≡ none) e clean in
      ground (arith, complete-keep_first file, bare)
  | yes more ↦
      let start = stop - scan_bytes in
      let block = rposition-blocks file start stop (omega arith) clean in
      elim (Option-cases (rposition (take (stop - start) (drop start file)))) [
        | inl none_here ↦
            let next =
              scan_back-complete fuel file start (omega arith) (omega arith) (block ∙ none_here) in
            ground (arith, next, none_here)
        | inr (i, found) ↦
            let whole = rposition-drop file start i (omega arith) (block ∙ found) in
            let e : start + i + 1 ≡ suc (start + i) = omega arith in
            let kept : complete file ≡ take (suc (start + i)) file =
              complete-keep_first file ∙ ap (keep_first file) whole in
            ground (arith, found, kept, ap (λ n. take n file) e)
      ]
]

last_byte-rposition : (file : Bytes) → last_byte file ≡ some newline → complete file ≡ file
unfolding last_byte complete
last_byte-rposition [] h = cc
last_byte-rposition (b ∷ []) h = ground arith
last_byte-rposition (b ∷ c ∷ bs) h = ground (arith, last_byte-rposition (c ∷ bs) h)

last_byte-some : (b : ℕ) (bs : Bytes) → (l : ℕ) × (last_byte (b ∷ bs) ≡ some l)
unfolding last_byte
last_byte-some b [] = (b, refl)
last_byte-some b (c ∷ bs) = last_byte-some c bs

-- `truncate_torn_tail` always ends, and leaves the file up to and with its last newline, however many blocks
-- the scan has to read.
pub truncate_torn_tail-complete : (file : Bytes) → truncate_torn_tail file ≡ some (complete file)
unfolding truncate_torn_tail
truncate_torn_tail-complete [] = unfold complete last_byte in refl
truncate_torn_tail-complete (b ∷ bs) =
    let none_behind : rposition (drop (length (b ∷ bs)) (b ∷ bs)) ≡ none =
      ap rposition (drop-length bs) ∙ (unfold rposition in refl) in
    let last = last_byte-some b bs in
    ground (
      arith,
      last,
      last_byte-rposition (b ∷ bs),
      scan_back-complete (suc (length (b ∷ bs))) (b ∷ bs) (length (b ∷ bs)) (omega arith)
          (omega arith) none_behind,
    )
