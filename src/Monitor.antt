-- ===== src/Monitor.antt =====
-- Locks with priority donation and condition variables: lock_acquire, lock_release and the functions
-- cond_ of pintos/src/threads/synch.c. A lock is known by the address `lock`. `none` is a failed
-- ASSERT, or a chain of donations that is longer than `fuel`. A call that sleeps is cut at the switch:
-- the Boolean of lock_acquire and lock_retry tells whether the lock was taken, that of lock_release
-- whether its own thread_yield is left for the time when the thread runs again.
pub mod Attempts
pub mod Exclusion
pub mod Acquire
pub mod Signal
mod Tests
use course_cs439_operating_s.Base.{
  ℕ, zero, suc, Bool, true, false, ◌&&◌, not, Option, none, some, List, [], ◌∷◌, ◌++◌, ltb, ◌==◌,
  if◌then◌else◌, length, ◌>>=◌, ◌>>◌, assert,
}
use course_cs439_operating_s.Thread.{Tid, null, Threads, Kernel, thread_yield}
use course_cs439_operating_s.Donation.{donate, recall, drop_donors}
use course_cs439_operating_s.Synch.{
  Semaphore, Lock, sema_init, sema_wait, sema_down, sema_up, list_remove,
}

pub lock_held_by_current_thread : Kernel → Lock → Bool
lock_held_by_current_thread k l = l.holder == k.current

-- The end of lock_acquire, with the semaphore taken.
pub lock_taken : Kernel → Semaphore → Kernel × Lock
lock_taken k s = (
  record k { threads = recall k.threads k.current },
  record { holder = k.current; semaphore = s },
)

-- lock_acquire goes on after its semaphore: to its end, or to sleep.
pub lock_go_on : Tid → Option (Kernel × Semaphore × Bool) → Option (Kernel × Lock × Bool)
lock_go_on holder none = none
lock_go_on holder (some (k, s, true)) = let (k', l) = lock_taken k s in some (k', l, true)
lock_go_on holder (some (k, s, false)) = some (k, record { holder = holder; semaphore = s }, false)

pub lock_acquire : (fuel lock : ℕ) → Kernel → Lock → Option (Kernel × Lock × Bool)
unfolding lock_held_by_current_thread
lock_acquire fuel lock k l = do
  assert (not (lock_held_by_current_thread k l))
  ts ← donate fuel k.threads k.current l.holder lock
  lock_go_on l.holder (sema_down (record k { threads = ts }) l.semaphore)

-- A thread that slept in lock_acquire runs again.
pub lock_retry : Kernel → Lock → Option (Kernel × Lock × Bool)
lock_retry k l = lock_go_on l.holder (sema_wait k l.semaphore)

pub lock_release : (fuel lock : ℕ) → Kernel → Lock → Option (Kernel × Lock × Bool)
unfolding lock_held_by_current_thread
lock_release fuel lock k l = do
  assert (lock_held_by_current_thread k l)
  (ts, has_waiter) ← drop_donors fuel k.threads k.current lock
  (k', s) ← sema_up (record k { threads = ts }) l.semaphore
  let l' : Lock = record { holder = null; semaphore = s }
  if has_waiter && (k'.current == k.current)
      then (do k'' ← thread_yield k'; some (k'', l', false))
      else some (k', l', has_waiter)

-- struct semaphore_elem. It stands on the stack of the thread that waits, so no two are of one thread.
pub record Waiter : Type 0 where
  pub thread : Tid
  pub semaphore : Semaphore

pub record Condition : Type 0 where
  pub waiters : List Waiter

pub cond_init : Condition
cond_init = record { waiters = [] }

-- cond_wait up to the end of lock_release; then the thread waits in sema_down for its semaphore, and in
-- lock_acquire.
pub cond_wait :
    (fuel lock : ℕ) → Kernel → Condition → Lock → Option (Kernel × Condition × Lock × Bool)
unfolding sema_init lock_held_by_current_thread
cond_wait fuel lock k c l = do
  assert (lock_held_by_current_thread k l)
  let waiter : Waiter = record { thread = k.current; semaphore = sema_init 0 }
  (k', l', owed) ← lock_release fuel lock k l
  some (k', record { waiters = c.waiters ++ waiter ∷ [] }, l', owed)

-- The search of cond_signal, with the waiter of the highest priority so far, none while that is
-- PRI_MIN - 1.
pub highest_signal : Threads → Option Waiter → List Waiter → Option Waiter
highest_signal ts highest [] = highest
highest_signal ts none (w ∷ ws) = highest_signal ts (some w) ws
highest_signal ts (some h) (w ∷ ws) =
    highest_signal ts (some (if ltb (ts h.thread).priority (ts w.thread).priority then w else h)) ws

pub remove_waiter : Tid → List Waiter → List Waiter
remove_waiter t [] = []
remove_waiter t (w ∷ ws) = if w.thread == t then ws else w ∷ remove_waiter t ws

-- The waiter that is signalled comes back with its semaphore raised.
pub cond_signal : Kernel → Condition → Lock → Option (Kernel × Condition × Option Waiter)
unfolding lock_held_by_current_thread
cond_signal k c l = do
  assert (lock_held_by_current_thread k l)
  elim (highest_signal k.threads none c.waiters) [
    | none ↦ some (k, c, none)
    | some w ↦ do
      (k', s) ← sema_up k w.semaphore
      some (
        k',
        record { waiters = remove_waiter w.thread c.waiters },
        some (record w { semaphore = s }),
      )
  ]

-- The loop of cond_broadcast, up to a switch: a round for each waiter, and those that were signalled.
pub broadcast_loop :
    (rounds : ℕ) → Kernel → Condition → Lock → Option (Kernel × Condition × List Waiter)
broadcast_loop zero k c l = some (k, c, [])
broadcast_loop (suc rounds) k c l = do
  (k1, c1, signalled) ← cond_signal k c l
  elim signalled [
    | none ↦ some (k1, c1, [])
    | some w ↦ elim (k1.current == k.current) [
      | false ↦ some (k1, c1, w ∷ [])
      | true ↦ do (k2, c2, ws) ← broadcast_loop rounds k1 c1 l; some (k2, c2, w ∷ ws)
    ]
  ]

pub cond_broadcast : Kernel → Condition → Lock → Option (Kernel × Condition × List Waiter)
cond_broadcast k c l = broadcast_loop (length c.waiters) k c l
