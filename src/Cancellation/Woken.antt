-- ===== src/Cancellation/Woken.antt =====
-- src/resident/application.rs: no wake-up of `EffectCancellation` is lost.
use turtletap.Prelude.{ℕ, true, false, ◌≡◌, ◌≢◌, refl, arith, Bool-cases, inl, inr}
use turtletap.Cancellation.{
  Threads, idle, swapped, through, Guard, free, holding, storing, swap_cancelled, take_waker,
  load_again, store_waker, Move, swaps, takes, locks, loads, stores, Runs, at_start, moves,
}

-- Before the take, the waker that is stored is that of the last wait; behind it, that waker was woken
-- and no thread is about to store another.
record Wakes (t : Threads) : Type 0 where
  unset : t.state.cancelled ≡ false → t.canceller ≡ idle
  before : t.canceller ≢ through → t.state.waker ≡ t.waiting
  after : t.canceller ≡ through → t.woken ≡ t.waiting
  quiet : t.canceller ≡ through → (w : ℕ) → t.guard ≢ storing w

swap_cancelled-Wakes : (t : Threads) → Wakes t → Wakes (swap_cancelled t)
unfolding swap_cancelled
swap_cancelled-Wakes t h = elim (Bool-cases t.state.cancelled) [
  | inl set ↦
      rw set
        (record { unset = λ e. ground arith; before = h.before; after = h.after; quiet = h.quiet })
  | inr unset ↦ rw unset (record {
    unset = λ e. ground arith;
    before = λ e. h.before (λ k. ground (arith, h.unset unset));
    after = λ e. ground arith;
    quiet = λ e w k. ground arith;
  })
]

Move-Wakes : (t u : Threads) → Wakes t → Move t u → Wakes u
unfolding take_waker load_again store_waker
Move-Wakes t u h swaps = swap_cancelled-Wakes t h
Move-Wakes t u h (takes now alone) = record {
  unset = λ e. ground (arith, h.unset e);
  before = λ e. absurd (e refl);
  after = λ e. h.before (λ k. ground arith);
  quiet = λ e w k. ground arith;
}
Move-Wakes t u h (locks w alone) = record {
  unset = h.unset;
  before = h.before;
  after = h.after;
  quiet = λ e v k. ground arith;
}
Move-Wakes t u h (loads w mine) = record {
  unset = h.unset;
  before = h.before;
  after = h.after;
  quiet = λ e v k. ground (arith, h.unset);
}
Move-Wakes t u h (stores w mine) = record {
  unset = h.unset;
  before = λ e. refl;
  after = λ e. absurd (h.quiet e w mine);
  quiet = λ e v k. ground arith;
}

Runs-Wakes : (t : Threads) → Runs t → Wakes t
Runs-Wakes t at_start = record {
  unset = λ e. refl;
  before = λ e. refl;
  after = λ e. ground arith;
  quiet = λ e w k. ground arith;
}
Runs-Wakes u (moves {t} r m) = Move-Wakes t u (Runs-Wakes t r) m

-- After any interleaving of polls and calls of `cancel`: once the cancellation is through, the waker
-- of the last poll that answered `Pending` was woken, and if there was none, nothing was.
pub Runs-woken : (t : Threads) → Runs t → t.canceller ≡ through → t.woken ≡ t.waiting
Runs-woken t r h = (Runs-Wakes t r).after h

-- The states that the threads may come to from a state on.
pub data Leads (t : Threads) : Threads → Type 0 where
  here : Leads t t
  next : {u v : Threads} → Leads t u → Move u v → Leads t v

Runs-Leads : {t u : Threads} → Runs t → Leads t u → Runs u
Runs-Leads r here = r
Runs-Leads r (next l m) = moves (Runs-Leads r l) m

-- From a state in which the flag is set and the waker not taken yet, the threads can come to one in
-- which the cancellation is through, the mutex is free, and the waker of the last poll that answered
-- `Pending` was woken: whoever holds the mutex can give it back.
pub Runs-through :
    (t : Threads)
    → Runs t
    → t.canceller ≡ swapped
    → (u : Threads) × Leads t u × (u.canceller ≡ through) × (u.guard ≡ free) × (u.woken ≡ u.waiting)
unfolding take_waker load_again store_waker
Runs-through t r h = finish t.guard refl
  where
    woken : (u : Threads) → Leads t u → u.canceller ≡ through → u.woken ≡ u.waiting
    woken u l done = Runs-woken u (Runs-Leads r l) done

    finish :
        (g : Guard)
        → t.guard ≡ g
        → (u : Threads) × Leads t u
          × (u.canceller ≡ through)
          × (u.guard ≡ free)
          × (u.woken ≡ u.waiting)
    finish free alone =
        let l = next here (takes h alone) in
        (take_waker t, l, refl, alone, woken (take_waker t) l refl)
    finish (storing w) mine =
        let u = store_waker w t in
        let l = next (next here (stores w mine)) (takes h refl) in
        (take_waker u, l, refl, refl, woken (take_waker u) l refl)
    finish (holding w) mine =
        let u = load_again w t in
        let set : t.state.cancelled ≡ true = ground (arith, (Runs-Wakes t r).unset) in
        let given : u.guard ≡ free = rw set refl in
        let l = next (next here (loads w mine)) (takes h given) in
        (take_waker u, l, refl, given, woken (take_waker u) l refl)
