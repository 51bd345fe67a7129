-- ===== src/Timer.antt =====
-- The timer: pintos/src/devices/timer.c, and thread_tick of pintos/src/threads/thread.c that it calls. A
-- sleeper is an element of sleep_queue; `remove_flag` is 1 once its thread was woken. `none` is a
-- failed ASSERT or a write through the NULL that malloc returned. timer_sleep runs to the switch in
-- thread_block with no interrupt before it; the element it frees is dropped.
pub mod Queue
pub mod Woken
pub mod Wake
pub mod Insert
pub mod Sleep
pub mod Tick
mod Tests
use course_cs439_operating_s.Base.{
  ℕ, suc, ◌+◌, Bool, true, false, not, Option, none, some, List, [], ◌∷◌, leb, ◌==◌, if◌then◌else◌,
  ◌>>=◌, ◌>>◌, assert,
}
use course_cs439_operating_s.Base.Int.{ℤ, pos, ◌+ℤ◌, ltb_ℤ}
use course_cs439_operating_s.Thread.{Tid, Kernel, thread_block, thread_unblock}
use course_cs439_operating_s.Mlfqs.{Mlfqs, tick_mlfqs}

abbrev pub time_slice : ℕ
time_slice = 4

pub record Sleeper : Type 0 where
  pub wake_ticks : ℤ
  pub thread : Tid
  pub remove_flag : Bool

-- Sleepers that were woken are taken off; the new one goes in front of the first that wakes later.
pub insert_sleeper : Sleeper → List Sleeper → List Sleeper
insert_sleeper new [] = new ∷ []
insert_sleeper new (s ∷ rest) =
    let further = insert_sleeper new rest in
    if s.remove_flag
    then further
    else if ltb_ℤ new.wake_ticks s.wake_ticks
    then new ∷ s ∷ rest
    else s ∷ further

-- `has_memory` tells whether malloc succeeds; `now` is what timer_ticks returns.
pub timer_sleep :
    (has_memory : Bool) (now : ℕ) → Kernel → List Sleeper → ℤ → Option (Kernel × List Sleeper)
timer_sleep has_memory now k queue ticks = do
  assert has_memory
  let new : Sleeper = record {
    wake_ticks = pos now +ℤ ticks;
    thread = k.current;
    remove_flag = false;
  }
  k' ← thread_block k
  some (k', insert_sleeper new queue)

-- The loop of timer_wake.
pub wake_loop : (now : ℕ) → Kernel → List Sleeper → Option (Kernel × List Sleeper)
wake_loop now k [] = some (k, [])
wake_loop now k (s ∷ rest) = elim (ltb_ℤ (pos now) s.wake_ticks) [
  | true ↦ some (k, s ∷ rest)
  | false ↦ do
    k' ← if s.remove_flag then some k else thread_unblock k s.thread
    (k'', rest') ← wake_loop now k' rest
    some (k'', record s { remove_flag = true } ∷ rest')
]

pub timer_wake : (now : ℕ) → Kernel → List Sleeper → Option (Kernel × List Sleeper)
timer_wake now k queue = wake_loop now k queue

-- What the timer interrupt works on. The counters of statistics stand for idle_ticks, kernel_ticks
-- and user_ticks; `user` tells which threads have a page directory.
pub record Clock : Type 0 where
  pub ticks : ℕ
  pub kernel : Kernel
  pub mlfqs : Mlfqs
  pub queue : List Sleeper
  pub user : Tid → Bool
  pub idle_ticks : ℕ
  pub kernel_ticks : ℕ
  pub user_ticks : ℕ
  -- Set by intr_yield_on_return.
  pub yield_on_return : Bool

pub count_tick : Clock → Clock
count_tick c =
    if c.kernel.current == c.kernel.idle_thread
    then record c { idle_ticks = suc c.idle_ticks }
    else if c.user c.kernel.current
    then record c { user_ticks = suc c.user_ticks }
    else record c { kernel_ticks = suc c.kernel_ticks }

pub thread_tick : (thread_mlfqs : Bool) (fuel : ℕ) → Clock → Option Clock
thread_tick thread_mlfqs fuel c0 = do
  let c = count_tick c0
  (k1, m) ←
      if thread_mlfqs then tick_mlfqs fuel c.ticks c.kernel c.mlfqs else some (c.kernel, c.mlfqs)
  let k2 = record k1 { thread_ticks = suc k1.thread_ticks }
  (k3, queue) ← timer_wake c.ticks k2 c.queue
  some (record c {
    kernel = k3;
    mlfqs = m;
    queue = queue;
    yield_on_return = if leb time_slice k2.thread_ticks then true else c.yield_on_return;
  })

pub timer_interrupt : (thread_mlfqs : Bool) (fuel : ℕ) → Clock → Option Clock
timer_interrupt thread_mlfqs fuel c =
    thread_tick thread_mlfqs fuel (record c { ticks = suc c.ticks })
