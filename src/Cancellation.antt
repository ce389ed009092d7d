-- ===== src/Cancellation.antt =====
-- src/resident/application.rs: `EffectCancellation` between threads. A step is one access to the
-- shared flag or one critical section's end; the steps of threads interleave freely. A waker is a
-- number. The first load of `poll`, which can only answer `Ready`, changes nothing and is left out.
pub mod Woken
use turtletap.Prelude.{ℕ, Bool, true, false, ◌≡◌, Option, none, some, if◌then◌else◌}

-- How far the call of `cancel` is that swaps the flag from `false`; the others do nothing.
pub data Canceller : Type 0 where
  idle swapped through : Canceller

-- Who holds the mutex of the waker: a `poll` that is about to load the flag again, or one that
-- loaded `false` and is about to store its waker.
pub data Guard : Type 0 where
  free : Guard
  holding storing : ℕ → Guard

pub record CancellationState : Type 0 where
  pub cancelled : Bool
  pub waker : Option ℕ

-- The state, and what the threads have done to it: the waker of the last `poll` that answered
-- `Pending`, and the one that `cancel` woke.
pub record Threads : Type 0 where
  pub state : CancellationState
  pub guard : Guard
  pub canceller : Canceller
  pub waiting : Option ℕ
  pub woken : Option ℕ

-- `EffectCancellation::new`
abbrev pub fresh : Threads
fresh = record {
  state = record { cancelled = false; waker = none };
  guard = free;
  canceller = idle;
  waiting = none;
  woken = none;
}

-- `self.state.cancelled.swap(true, Ordering::AcqRel)`; only a swap from `false` goes on.
unfoldable pub swap_cancelled : Threads → Threads
swap_cancelled t =
    if t.state.cancelled
    then t
    else record t { state = record t.state { cancelled = true }; canceller = swapped }

-- `lock().take()` and `waker.wake()`
unfoldable pub take_waker : Threads → Threads
take_waker t = record t {
  state = record t.state { waker = none };
  canceller = through;
  woken = t.state.waker;
}

-- The load of `poll` behind the lock: `Ready`, or on to the store.
unfoldable pub load_again : ℕ → Threads → Threads
load_again w t = record t { guard = if t.state.cancelled then free else storing w }

-- `waker.clone_from(...)`, `Poll::Pending` and the end of the critical section.
unfoldable pub store_waker : ℕ → Threads → Threads
store_waker w t = record t {
  state = record t.state { waker = some w };
  guard = free;
  waiting = some w;
}

pub data Move (t : Threads) : Threads → Type 0 where
  swaps : Move t (swap_cancelled t)
  takes : t.canceller ≡ swapped → t.guard ≡ free → Move t (take_waker t)
  locks : (w : ℕ) → t.guard ≡ free → Move t (record t { guard = holding w })
  loads : (w : ℕ) → t.guard ≡ holding w → Move t (load_again w t)
  stores : (w : ℕ) → t.guard ≡ storing w → Move t (store_waker w t)

pub data Runs : Threads → Type 0 where
  at_start : Runs fresh
  moves : {t u : Threads} → Runs t → Move t u → Runs u
