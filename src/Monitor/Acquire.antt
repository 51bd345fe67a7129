-- ===== src/Monitor/Acquire.antt =====
-- lock_acquire and lock_release of pintos/src/threads/synch.c in full, for a lock that is free and for one
-- that is held.
use mathlib.Core.Path.{fun_ext, subst}
use native.Mathlib.Decide.{dec_lt}
use course_cs439_operating_s.Base.{
  ℕ, zero, suc, ◌+◌, ◌<◌, ◌≤◌, ◌≡◌, ◌≢◌, refl, sym, ap, ◌∙◌, inl, inr, true, false, some, List, [],
  ◌∷◌, ◌++◌, arith, ltb, ◌==◌, ==_refl, All, Bool-cases, length,
}
use course_cs439_operating_s.Thread.{Tid, null, blocked, Threads, Kernel, Donation, update}
use course_cs439_operating_s.Thread.Sched.{WellFormed}
use course_cs439_operating_s.Thread.Switch.{Switched, stopped}
use course_cs439_operating_s.Donation.{donate, recall, drop_donors, drop_loop}
use course_cs439_operating_s.Donation.Seek.{Other}
use course_cs439_operating_s.Donation.Release.{round-Other, round_done}
use course_cs439_operating_s.Synch.{
  Semaphore, Lock, sema_init, sema_wait, sema_down, sema_up, highest_waiter, lock_init,
}
use course_cs439_operating_s.Synch.Down.{sema_down_lem}
use course_cs439_operating_s.Monitor.{lock_taken, lock_go_on, lock_acquire, lock_release}

-- The kernel and the lock after a thread took a new lock.
abbrev took : Kernel → Kernel
took k = record k { threads = recall k.threads k.current }

abbrev taken : Kernel → Lock
taken k = record { holder = k.current; semaphore = record { value = 0; waiters = [] } }

acquire_free :
    (fuel lock : ℕ) (k : Kernel)
    → (null == k.current) ≡ false
    → lock_acquire fuel lock k lock_init ≡ some (took k, taken k, true)
unfolding lock_acquire lock_init sema_init sema_down sema_wait lock_go_on lock_taken donate
acquire_free fuel lock k ne = rw ne refl

-- No donor gives its priority for the lock.
abbrev pub NoneOver : List Donation → ℕ → Type 0
NoneOver ds lock = All (λ d. d.lock ≢ lock) ds

NoneOver-Other :
    (ds : List Donation) (lock k : ℕ) → NoneOver ds lock → k < length ds → Other ds lock k
NoneOver-Other [] lock k none_over h = absurd (omega (arith, h))
NoneOver-Other (d ∷ ds) lock zero none_over h = let ne = none_over.0 in ground (arith, ne)
NoneOver-Other (d ∷ ds) lock (suc k) none_over h =
    NoneOver-Other ds lock k none_over.1 (omega (arith, h))

sweep_nothing :
    (rounds : ℕ) (ds : List Donation) (lock i n : ℕ)
    → ((k : ℕ) → k < n → Other ds lock k)
    → i ≤ n
    → n ≤ i + rounds
    → drop_loop rounds ds lock i n ≡ (n, ds)
unfolding drop_loop
sweep_nothing zero ds lock i n others lo hi = ap {A = ℕ} (λ m. (m, ds)) (omega (arith, lo, hi))
sweep_nothing (suc rounds) ds lock i n others lo hi = elim (dec_lt i n) [
  | yes lt ↦
      round-Other rounds ds lock i n lt (others i lt)
      ∙ sweep_nothing rounds ds lock (suc i) n others lt (omega (arith, hi))
  | no ge ↦
      round_done rounds ds lock i n (omega (arith, ge))
      ∙ ap {A = ℕ} (λ m. (m, ds)) (omega (arith, ge, lo))
]

update_same : (ts : Threads) (t : Tid) → update ts t (ts t) ≡ ts
unfolding update
update_same ts t = fun_ext (λ u. ground arith)

-- A thread without a donor over the lock drops none.
no_sweep :
    (fuel : ℕ) (ts : Threads) (t lock : ℕ)
    → NoneOver (ts t).donors lock
    → drop_donors fuel ts t lock ≡ some (ts, false)
unfolding drop_donors
no_sweep fuel ts t lock none_over =
    let n = length (ts t).donors in
    let swept =
      sweep_nothing n (ts t).donors lock 0 n
        (λ k h. NoneOver-Other (ts t).donors lock k none_over h) (omega arith) (omega arith) in
    let all_left : ltb n n ≡ false = ground arith in
    elim (Bool-cases (ltb (ts t).native_priority (ts t).priority)) [
      | inr low ↦ rw low refl
      | inl high ↦ rw (high, swept, all_left) (ap (λ s. some (s, false)) (update_same ts t))
    ]

recall_donors : (ts : Threads) (t : Tid) → (recall ts t t).donors ≡ (ts t).donors
unfolding recall update
recall_donors ts t = ground arith

release_taken :
    (fuel lock : ℕ) (k : Kernel)
    → NoneOver (k.threads k.current).donors lock
    → lock_release fuel lock (took k) (taken k) ≡ some (took k, lock_init, false)
unfolding lock_release lock_init sema_init sema_up highest_waiter
release_taken fuel lock k none_over =
    rw
      (
        ==_refl k.current,
        no_sweep fuel (took k).threads k.current lock
            (subst (λ ds. NoneOver ds lock) (sym (recall_donors k.threads k.current)) none_over),
      )
      refl

-- If the running thread is not NULL and none of its donors gives its priority for the lock, lock_acquire of a new
-- lock gets it without sleeping, and releasing the lock gives the new lock back: the threads but for the
-- donee of that thread, which is cleared, are as they were, donations over other locks included.
pub lock_acquire-release :
    (fuel lock : ℕ) (k : Kernel)
    → k.current ≢ null
    → NoneOver (k.threads k.current).donors lock
    → (k' : Kernel) × (l : Lock) × (lock_acquire fuel lock k lock_init ≡ some (k', l, true))
      × (l.holder ≡ k.current)
      × (lock_release fuel lock k' l ≡ some (k', lock_init, false))
      × (k' ≡ record k { threads = recall k.threads k.current })
lock_acquire-release fuel lock k ne none_over = (
  took k,
  taken k,
  acquire_free fuel lock k (ground (arith, ne)),
  refl,
  release_taken fuel lock k none_over,
  refl,
)

blocks :
    (fuel lock : ℕ) (k k' : Kernel) (l : Lock) (ts : Threads) (s : Semaphore)
    → (l.holder == k.current) ≡ false
    → donate fuel k.threads k.current l.holder lock ≡ some ts
    → sema_down (record k { threads = ts }) l.semaphore ≡ some (k', s, false)
    → lock_acquire fuel lock k l ≡ some (k', record { holder = l.holder; semaphore = s }, false)
unfolding lock_acquire lock_go_on
blocks fuel lock k k' l ts s ne d e = rw (ne, d, e) refl

-- lock_acquire of a lock that another thread holds, with the semaphore at 0, sleeps: if the donation succeeds and
-- the scheduler's invariant holds after it, the thread stands behind the other waiters and is blocked, the
-- holder keeps the lock, the invariant holds again and the thread that runs has the highest priority of
-- those that are ready.
pub lock_acquire-held :
    (fuel lock : ℕ) (k : Kernel) (l : Lock) (ts : Threads)
    → l.holder ≢ k.current
    → l.semaphore.value ≡ 0
    → donate fuel k.threads k.current l.holder lock ≡ some ts
    → WellFormed (record k { threads = ts })
    → (k' : Kernel) × (l' : Lock) × (lock_acquire fuel lock k l ≡ some (k', l', false))
      × (l'.holder ≡ l.holder)
      × (l'.semaphore.waiters ≡ l.semaphore.waiters ++ k.current ∷ [])
      × Switched (stopped (record k { threads = ts }) blocked) k'
lock_acquire-held fuel lock k l ts ne e d w =
    elim (sema_down_lem (record k { threads = ts }) l.semaphore w) [
      | inl (v, positive, r) ↦ absurd (omega (arith, e, positive))
      | inr (empty, (k', r, sw)) ↦ (
        k',
        record {
          holder = l.holder;
          semaphore = record l.semaphore { waiters = l.semaphore.waiters ++ k.current ∷ [] };
        },
        blocks fuel lock k k' l ts _ (ground (arith, ne)) d r,
        refl,
        refl,
        sw,
      )
    ]
