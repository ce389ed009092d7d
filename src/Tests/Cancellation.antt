-- ===== src/Tests/Cancellation.antt =====
-- src/resident/application.rs: a cancellation while a second waiter polls.
use turtletap.Prelude.{◌≡◌, refl, some}
use turtletap.Cancellation.{
  Threads, through, fresh, swap_cancelled, take_waker, load_again, store_waker, Runs, at_start,
  moves, swaps, takes, locks, loads, stores, holding, free,
}
use turtletap.Cancellation.Woken.{Leads, Runs-woken, Runs-through}

-- The poll of 7 has answered `Pending`, and the poll of 8 holds the mutex when the flag is set.
abbrev seen : Threads
seen = store_waker 7 (load_again 7 (record fresh { guard = holding 7 }))

abbrev raised : Threads
raised = swap_cancelled (record seen { guard = holding 8 })

abbrev cancelled_at_last : Threads
cancelled_at_last = take_waker (load_again 8 raised)

seen-Runs : Runs seen
unfolding load_again store_waker
seen-Runs = moves (moves (moves at_start (locks 7 refl)) (loads 7 refl)) (stores 7 refl)

raised-Runs : Runs raised
unfolding load_again store_waker swap_cancelled
raised-Runs = moves (moves seen-Runs (locks 8 refl)) swaps

Runs-woken_example : cancelled_at_last.woken ≡ some 7
unfolding load_again store_waker swap_cancelled take_waker
Runs-woken_example =
    Runs-woken cancelled_at_last (moves (moves raised-Runs (loads 8 refl)) (takes refl refl)) refl

Runs-through_example :
    (u : Threads) × Leads raised u
    × (u.canceller ≡ through)
    × (u.guard ≡ free)
    × (u.woken ≡ u.waiting)
unfolding load_again store_waker swap_cancelled
Runs-through_example = Runs-through raised raised-Runs refl

-- There is one place for a waker: of two waiters that both answered `Pending`, only the later is
-- woken.
the_later_waiter_is_woken :
    (take_waker
      (swap_cancelled (store_waker 8 (load_again 8 (record seen { guard = holding 8 }))))).woken
    ≡ some 8
unfolding load_again store_waker swap_cancelled take_waker
the_later_waiter_is_woken = refl
