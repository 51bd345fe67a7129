-- ===== src/Monitor/Tests.antt =====
-- Runs of locks and condition variables in the state of Thread.Tests: thread 2 runs, thread 5 waits.
use course_cs439_operating_s.Base.{
  ◌≡◌, refl, true, false, [], ◌∷◌, some, arith, ◌==◌, if◌then◌else◌,
}
use course_cs439_operating_s.Thread.{Tid, Kernel, is_thread}
use course_cs439_operating_s.Thread.Tests.{busy, busy-WellFormed}
use course_cs439_operating_s.Donation.{donate, recall}
use course_cs439_operating_s.Synch.{Lock, sema_init, sema_wait, sema_down, lock_init}
use course_cs439_operating_s.Monitor.{
  lock_acquire, lock_go_on, lock_taken, lock_retry, lock_release, Waiter, Condition, cond_signal,
}
use course_cs439_operating_s.Monitor.Attempts.{OnSome}
use course_cs439_operating_s.Monitor.Exclusion.{here, next, acquires, IsRefused, Reach-IsRefused}
use course_cs439_operating_s.Monitor.Acquire.{lock_acquire-release}
use course_cs439_operating_s.Monitor.Signal.{Signalled, cond_signal_lem}

abbrev held : Lock
held = record { holder = 2; semaphore = record { value = 0; waiters = [] } }

abbrev recalled : Kernel
recalled = record busy { threads = recall busy.threads 2 }

taken_by_2 : lock_acquire 1 9 busy lock_init ≡ some (recalled, held, true)
unfolding lock_acquire lock_go_on lock_taken lock_init sema_init sema_down sema_wait donate
taken_by_2 = refl

-- Thread 2 holds lock 7 too, and thread 5 gives its priority for it.
abbrev donated : Kernel
donated = record busy {
  threads = λ t.
      if t == 2
      then record (busy.threads 2) { priority = 45; donors = record { thread = 5; lock = 7 } ∷ [] }
      else busy.threads t;
}

lock_acquire-release_example :
    (k' : Kernel) × (l : Lock) × (lock_acquire 1 9 donated lock_init ≡ some (k', l, true))
    × (l.holder ≡ 2)
    × (lock_release 1 9 k' l ≡ some (k', lock_init, false))
    × (k' ≡ record donated { threads = recall donated.threads 2 })
lock_acquire-release_example =
    lock_acquire-release 1 9 donated (λ e. absurd (omega (arith, e)))
      ((λ e. absurd (omega (arith, e))), tt)

Reach-IsRefused_example :
    OnSome (IsRefused held) (lock_acquire 1 9 busy held)
    × OnSome (IsRefused held) (lock_retry busy held)
Reach-IsRefused_example =
    Reach-IsRefused {l = held} 1 9 busy (next here (acquires 1 9 busy taken_by_2))
      (λ e. absurd (omega (arith, e)))

abbrev waiter : Tid → Waiter
waiter t = record { thread = t; semaphore = record { value = 0; waiters = t ∷ [] } }

abbrev awaited : Condition
awaited = record { waiters = waiter 5 ∷ waiter 6 ∷ [] }

cond_signal_lem_example :
    (k' : Kernel) × (c' : Condition) × (w : Waiter) × (cond_signal busy awaited held
      ≡ some (k', c', some w))
    × Signalled busy awaited k' c' w
unfolding is_thread
cond_signal_lem_example =
    cond_signal_lem busy awaited held busy-WellFormed refl (λ e. absurd cc)
      (
        (refl, (refl, refl, λ e. absurd (omega arith))),
        ((refl, (refl, refl, λ e. absurd (omega arith))), tt),
      )
