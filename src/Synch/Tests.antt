-- ===== src/Synch/Tests.antt =====
-- Runs of the semaphores in the state of Thread.Tests, where the blocked threads 5 and 6 wait.
use course_cs439_operating_s.Base.{
  ℕ, ◌≡◌, refl, ◌⊎◌, true, Option, none, some, List, [], ◌∷◌, arith, All,
}
use course_cs439_operating_s.Thread.{
  Tid, blocked, Kernel, thread_unblock, insert_unblocked, is_thread, set_status,
}
use course_cs439_operating_s.Thread.Ready.{Absent}
use course_cs439_operating_s.Thread.Sched.{WellFormed}
use course_cs439_operating_s.Thread.Tests.{busy, busy-WellFormed}
use course_cs439_operating_s.Synch.{
  Semaphore, sema_init, sema_try_down, is_higher, highest_waiter, list_remove, sema_up, lock_init,
  lock_try_acquire,
}
use course_cs439_operating_s.Synch.Up.{Waiting, Woken, sema_up_lem}
use course_cs439_operating_s.Synch.Down.{Down, sema_down_lem, sema_up-unlisted}

abbrev contended : Semaphore
contended = record { value = 0; waiters = 5 ∷ 6 ∷ [] }

abbrev waits_in : Option (Kernel × Semaphore) → Option (ℕ × List Tid × List Tid)
waits_in none = none
waits_in (some (k, s)) = some (s.value, s.waiters, k.ready_list)

first_waiter_woken : waits_in (sema_up busy contended) ≡ some (1, 6 ∷ [], 3 ∷ 4 ∷ 5 ∷ [])
unfolding sema_up highest_waiter is_higher list_remove thread_unblock insert_unblocked is_thread
    set_status
first_waiter_woken = refl

both_wait : All (Waiting busy) (5 ∷ 6 ∷ [])
unfolding is_thread
both_wait = ((refl, refl, λ e. absurd (omega arith)), ((refl, refl, λ e. absurd (omega arith)), tt))

sema_up_lem_example :
    (k' : Kernel) × (s' : Semaphore) × (sema_up busy contended ≡ some (k', s'))
    × WellFormed k'
    × (((contended.waiters ≡ []) × (k' ≡ busy) × (s' ≡ record { value = 1; waiters = [] }))
        ⊎ Woken busy contended k' s')
sema_up_lem_example = sema_up_lem busy contended busy-WellFormed both_wait

sema_down_lem_example : Down busy contended
sema_down_lem_example = sema_down_lem busy contended busy-WellFormed

sema_up-unlisted_example :
    (k' : Kernel) × (s' : Semaphore) × (sema_up busy contended ≡ some (k', s'))
    × ((k'.threads 7).status ≡ blocked)
    × Absent 7 s'.waiters
sema_up-unlisted_example =
    sema_up-unlisted busy contended 7 busy-WellFormed refl (λ e. absurd (omega arith))
      (refl, (refl, tt)) both_wait

lock_taken_once :
    lock_try_acquire busy lock_init
    ≡ some (record { holder = 2; semaphore = record { value = 0; waiters = [] } }, true)
unfolding lock_try_acquire lock_init sema_init sema_try_down
lock_taken_once = refl
