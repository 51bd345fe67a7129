-- ===== src/Synch.antt =====
-- Semaphores and locks: pintos/src/threads/synch.c. `none` as a result is a failed ASSERT. A call that
-- sleeps is cut at the switch: `sema_down` is the part before it, `sema_wait` a round of the loop that goes
-- on when the thread runs again. Turning interrupts off makes each part run alone.
pub mod Waiters
pub mod Up
pub mod Down
mod Tests
use course_cs439_operating_s.Base.{
  ℕ, zero, suc, ◌-◌, Bool, true, false, ◌&&◌, not, Option, none, some, List, [], ◌∷◌, ◌++◌, ltb,
  leb, ◌==◌, if◌then◌else◌,
}
use course_cs439_operating_s.Thread.{
  Tid, null, Threads, Kernel, thread_unblock, thread_block, thread_yield,
}

pub record Semaphore : Type 0 where
  pub value : ℕ
  pub waiters : List Tid

pub record Lock : Type 0 where
  pub holder : Tid
  pub semaphore : Semaphore

unfoldable pub sema_init : ℕ → Semaphore
sema_init value = record { value = value; waiters = [] }

-- A round of the loop in sema_down: the Boolean is false if the thread went to sleep.
unfoldable pub sema_wait : Kernel → Semaphore → Option (Kernel × Semaphore × Bool)
sema_wait k s = elim s.value [
  | zero ↦ elim (thread_block k) [ none ↦ none | some k' ↦ some (k', s, false) ]
  | suc v ↦ some (k, record s { value = v }, true)
]

-- sema_down up to the first switch.
unfoldable pub sema_down : Kernel → Semaphore → Option (Kernel × Semaphore × Bool)
sema_down k s =
    sema_wait k (if s.value == 0 then record s { waiters = s.waiters ++ k.current ∷ [] } else s)

unfoldable pub sema_try_down : Semaphore → Semaphore × Bool
sema_try_down s = elim s.value [ zero ↦ (s, false) | suc v ↦ (record s { value = v }, true) ]

-- `waiter->priority > highestPriority`, where the latter is -1 as long as no waiter was chosen.
unfoldable pub is_higher : Threads → Tid → Option Tid → Bool
is_higher ts waiter none = true
is_higher ts waiter (some t) = ltb (ts t).priority (ts waiter).priority

-- The search of sema_up, with the waiter that has the highest priority so far.
unfoldable pub highest_waiter : Threads → Option Tid → List Tid → Option Tid
highest_waiter ts highest [] = highest
highest_waiter ts highest (w ∷ ws) =
    highest_waiter ts (if is_higher ts w highest then some w else highest) ws

-- list_remove of the element that is `t`.
unfoldable pub list_remove : Tid → List Tid → List Tid
list_remove t [] = []
list_remove t (u ∷ us) = if u == t then us else u ∷ list_remove t us

unfoldable pub sema_up : Kernel → Semaphore → Option (Kernel × Semaphore)
sema_up k s = elim (highest_waiter k.threads none s.waiters) [
  | none ↦ some (k, record s { value = suc s.value })
  | some w ↦ elim (thread_unblock k w) [
    | none ↦ none
    | some k' ↦
        let s' : Semaphore = record { value = suc s.value; waiters = list_remove w s.waiters } in
        if leb (k'.threads k'.current).priority (k.threads w).priority
        then elim (thread_yield k') [ none ↦ none | some k'' ↦ some (k'', s') ]
        else some (k', s')
  ]
]

unfoldable pub lock_init : Lock
unfolding sema_init
lock_init = record { holder = null; semaphore = sema_init 1 }

unfoldable pub lock_try_acquire : Kernel → Lock → Option (Lock × Bool)
lock_try_acquire k l =
    if l.holder == k.current
    then none
    else let (s, success) = sema_try_down l.semaphore in
      some (record { holder = if success then k.current else l.holder; semaphore = s }, success)
