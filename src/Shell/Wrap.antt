-- ===== src/Shell/Wrap.antt =====
-- src/shell.rs: `wrap_index`, the step to the next and to the previous screen.
use native.Mathlib.Nat.{mod-lt, mod-eq_of_lt, mod_self, suc-mod}
use turtletap.Prelude.{
  ℕ, suc, ◌+◌, ◌-◌, ◌%◌, ◌^◌, ◌<◌, ◌≡◌, ◌↔◌, ◌⊎◌, inl, inr, sym, ◌∙◌, ap, arith, ◌==◌,
  if◌then◌else◌,
}
use turtletap.Shell.Focus.{pos, negsuc, wrap_index}

less_or_last : (r m : ℕ) → r < m → (suc r < m) ⊎ (suc r ≡ m)
less_or_last r m h = omega arith

last_iff : (n m : ℕ) → 0 < m → (n % m ≡ m - 1) ↔ (suc n % m ≡ 0)
last_iff n m h =
    let r = n % m in
    (
      λ last. let whole : suc r ≡ m = omega arith in suc-mod n m ∙ ap (◌% m) whole ∙ mod_self m,
      λ none_left. elim (less_or_last r m (mod-lt n h)) [
        | inl less ↦
            let stays : suc r % m ≡ suc r = mod-eq_of_lt less in
            let gone : suc r % m ≡ 0 = sym (suc-mod n m) ∙ none_left in absurd (omega arith)
        | inr whole ↦ omega arith
      ],
    )

-- The guard for a shell without screens.
guarded : (i len : ℕ) → 0 < len → (if len == 0 then 0 else i) ≡ i
guarded i len h = ground arith

next_of : (i len : ℕ) → i < len → (i + 1) % len ≡ (if i + 1 == len then 0 else i + 1)
next_of i len h = elim (less_or_last i len h) [
  | inl less ↦
      let stays : (i + 1) % len ≡ i + 1 = mod-eq_of_lt (omega arith) in stays ∙ ground arith
  | inr whole ↦
      let here : i + 1 ≡ len = omega arith in ap (◌% len) here ∙ mod_self len ∙ ground arith
]

wrap_index-next :
    (i len : ℕ)
    → i < len
    → len < 2 ^ 64
    → wrap_index i (pos 1) len ≡ (if i + 1 == len then 0 else i + 1)
unfolding wrap_index
wrap_index-next i len h small =
    let word : (i + 1) % 2 ^ 64 ≡ i + 1 = omega arith in
    guarded ((i + 1) % 2 ^ 64 % len) len (omega arith) ∙ ap (◌% len) word ∙ next_of i len h

wrap_index-previous :
    (i len : ℕ) → suc i < len → len < 2 ^ 64 → wrap_index (suc i) (negsuc 0) len ≡ i
unfolding wrap_index
wrap_index-previous i len h small =
    let word : (suc i + (2 ^ 64 - 1)) % 2 ^ 64 ≡ i = omega arith in
    guarded ((suc i + (2 ^ 64 - 1)) % 2 ^ 64 % len) len (omega arith)
    ∙ ap (◌% len) word
    ∙ mod-eq_of_lt (omega arith)

-- The next screen is the one behind, and the first behind the last; the previous one of a screen
-- that is not the first is the one before. From the first screen it is the last one just where
-- the number of screens divides 2 ^ 64: with three, for one, it is the first again.
pub wrap_index_lem :
    (i len : ℕ)
    → i < len
    → len < 2 ^ 64
    → (wrap_index i (pos 1) len ≡ (if i + 1 == len then 0 else i + 1))
      × (suc i < len → wrap_index (suc i) (negsuc 0) len ≡ i)
      × ((wrap_index 0 (negsuc 0) len ≡ len - 1) ↔ (2 ^ 64 % len ≡ 0))
unfolding wrap_index
wrap_index_lem i len h small =
    let first = guarded ((2 ^ 64 - 1) % len) len (omega arith) in
    (
      wrap_index-next i len h small,
      λ less. wrap_index-previous i len less small,
      rw first (last_iff (2 ^ 64 - 1) len (omega arith)),
    )
