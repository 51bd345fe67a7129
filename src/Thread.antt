-- ===== src/Thread.antt =====
-- struct thread of pintos/src/threads/thread.h and the scheduler of pintos/src/threads/thread.c.
-- A thread is the address of its page, a number, and so is a lock; 0 is NULL. `none` as a result is
-- a failed ASSERT. Turning interrupts off and on is left out: each function runs to its end or to the switch
-- to another thread, and the asserts about the interrupt level and context with it.
pub mod Ready
pub mod Sched
pub mod Switch
pub mod Ops
pub mod Tests
use course_cs439_operating_s.Base.{
  ℕ, suc, ◌-◌, ◌+◌, Bool, true, false, ◌&&◌, not, Option, none, some, List, [], ◌∷◌, ltb, leb, ◌==◌,
  if◌then◌else◌, ◌>>=◌,
}

abbrev pub Tid : Type 0
Tid = ℕ

abbrev pub null : ℕ
null = 0

abbrev pub pri_min : ℕ
pri_min = 0

abbrev pub pri_default : ℕ
pri_default = 31

abbrev pub pri_max : ℕ
pri_max = 63

abbrev pub pri_depth : ℕ
pri_depth = 8

abbrev pub thread_magic : ℕ
thread_magic = 0xcd6a_bf4b

pub data Status : Type 0 where
  running ready blocked dying : Status

-- struct priority_lock: a donation, by `thread` over `lock`.
pub record Donation : Type 0 where
  pub thread : Tid
  pub lock : ℕ

-- The fields that scheduling uses; `donors` is the array up to `numDonors`.
pub record Thread : Type 0 where
  pub status : Status
  pub native_priority : ℕ
  pub priority : ℕ
  pub donors : List Donation
  pub donee : Donation
  pub magic : ℕ

abbrev pub Threads : Type 0
Threads = Tid → Thread

unfoldable pub update : Threads → Tid → Thread → Threads
update ts t th u = if t == u then th else ts u

pub record Kernel : Type 0 where
  pub threads : Threads
  pub ready_list : List Tid
  pub ready_threads : ℕ
  pub thread_ticks : ℕ
  pub current : Tid
  pub idle_thread : Tid
  pub initial_thread : Tid
  -- Pages handed to palloc_free_page.
  pub freed : List Tid

unfoldable pub is_thread : Threads → Tid → Bool
is_thread ts t = not (t == null) && (ts t).magic == thread_magic

abbrev pub is_blocked : Status → Bool
is_blocked blocked = true
is_blocked _ = false

abbrev pub is_running : Status → Bool
is_running running = true
is_running _ = false

abbrev pub is_dying : Status → Bool
is_dying dying = true
is_dying _ = false

unfoldable pub set_status : Threads → Tid → Status → Threads
unfolding update
set_status ts t s = update ts t (record (ts t) { status = s })

-- The loop of thread_unblock: in front of the first thread of no higher priority, else at the end.
unfoldable pub insert_unblocked : (Tid → ℕ) → Tid → List Tid → List Tid
insert_unblocked priority t [] = t ∷ []
insert_unblocked priority t (tp ∷ rest) =
    if leb (priority tp) (priority t) then t ∷ tp ∷ rest else tp ∷ insert_unblocked priority t rest

-- The loop of thread_yield: in front of the first thread of lower priority, else at the end.
pub insert_yielded : (Tid → ℕ) → Tid → List Tid → List Tid
insert_yielded priority t [] = t ∷ []
insert_yielded priority t (tp ∷ rest) =
    if ltb (priority tp) (priority t) then t ∷ tp ∷ rest else tp ∷ insert_yielded priority t rest

abbrev pub priority_of : Threads → Tid → ℕ
priority_of ts t = (ts t).priority

unfoldable pub thread_unblock : Kernel → Tid → Option Kernel
thread_unblock k t =
    if is_thread k.threads t && is_blocked (k.threads t).status
    then some (record k {
      ready_list = insert_unblocked (priority_of k.threads) t k.ready_list;
      ready_threads = suc k.ready_threads;
      threads = set_status k.threads t ready;
    })
    else none

-- The thread to run, and the ready list and its count without it.
pub next_thread_to_run : Tid → List Tid → ℕ → Tid × List Tid × ℕ
next_thread_to_run idle [] n = (idle, [], n)
next_thread_to_run idle (t ∷ rest) n = (t, rest, n - 1)

-- After the switch from `prev`, NULL if the same thread goes on.
pub thread_schedule_tail : Tid → Kernel → Kernel
thread_schedule_tail prev k =
    let k' = record k { threads = set_status k.threads k.current running; thread_ticks = 0 } in
    if not (prev == null) && is_dying (k'.threads prev).status && not (prev == k.initial_thread)
    then record k' { freed = prev ∷ k.freed }
    else k'

pub schedule : Kernel → Option Kernel
schedule k =
    let (next, rest, n) = next_thread_to_run k.idle_thread k.ready_list k.ready_threads in
    if not (is_running (k.threads k.current).status) && is_thread k.threads next
    then some (
        thread_schedule_tail (if k.current == next then null else k.current)
          (record k { ready_list = rest; ready_threads = n; current = next }))
    else none

pub thread_current : Kernel → Option Tid
thread_current k =
    if is_thread k.threads k.current && is_running (k.threads k.current).status
    then some k.current
    else none

pub thread_block : Kernel → Option Kernel
thread_block k = do
  current ← thread_current k
  schedule (record k { threads = set_status k.threads current blocked })

-- thread_yield puts the running thread back, unless it is the idle thread.
pub thread_yield : Kernel → Option Kernel
thread_yield k = do
  current ← thread_current k
  let idle = current == k.idle_thread
  schedule (record k {
    ready_list =
        if idle then k.ready_list else insert_yielded (priority_of k.threads) current k.ready_list;
    ready_threads = if idle then k.ready_threads else suc k.ready_threads;
    threads = set_status k.threads current ready;
  })

-- The end of thread_exit, after process_exit.
pub thread_exit : Kernel → Option Kernel
thread_exit k = do
  current ← thread_current k
  schedule (record k { threads = set_status k.threads current dying })
