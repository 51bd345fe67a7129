-- ===== src/Thread/Tests.antt =====
-- Runs of the scheduler with an idle thread 1 and threads 2, 3 and 4.
use course_cs439_operating_s.Base.{
  ℕ, ◌≡◌, refl, Option, some, none, List, [], ◌∷◌, arith, ◌==◌, if◌then◌else◌,
}
use course_cs439_operating_s.Thread.{
  Tid, null, thread_magic, Status, running, ready, blocked, Thread, Kernel, set_status, is_thread,
  insert_unblocked, insert_yielded, thread_unblock, next_thread_to_run, thread_schedule_tail,
  schedule, thread_current, thread_block, thread_yield, thread_exit,
}
use course_cs439_operating_s.Thread.Sched.{WellFormed}
use course_cs439_operating_s.Thread.Switch.{Switched, stopped}
use course_cs439_operating_s.Thread.Ops.{
  here, next, yields, Reach-WellFormed, thread_block_lem, thread_yield_lem, yielded,
}

abbrev pub plain : Status → ℕ → Thread
plain s p = record {
  status = s;
  native_priority = p;
  priority = p;
  donors = [];
  donee = record { thread = null; lock = null };
  magic = thread_magic;
}

-- Thread 2 runs, 3 and 4 are ready; all have priority 31 but 3, which has 40.
abbrev pub busy : Kernel
busy = record {
  threads = λ t.
      if t == 2
      then plain running 31
      else if t == 3
      then plain ready 40
      else if t == 4
      then plain ready 31
      else plain blocked 0;
  ready_list = 3 ∷ 4 ∷ [];
  ready_threads = 2;
  thread_ticks = 3;
  current = 2;
  idle_thread = 1;
  initial_thread = 2;
  freed = [];
}

only_2 : (t : Tid) → (busy.threads t).status ≡ running → t ≡ 2
only_2 t h = ground arith

pub busy-WellFormed : WellFormed busy
unfolding is_thread
busy-WellFormed = record {
  queue = record {
    waiting = (refl, (refl, tt));
    valid = (refl, (refl, tt));
    no_idle = (refl, (refl, tt));
    distinct = ((refl, tt), (tt, tt));
    counted = refl;
    ordered = omega arith;
  };
  idle_valid = refl;
  current_valid = refl;
  runs = refl;
  only = only_2;
}

runs : ℕ
unfolding thread_current thread_block thread_yield thread_exit thread_unblock schedule
    next_thread_to_run thread_schedule_tail insert_yielded insert_unblocked is_thread set_status
runs = 0

abbrev shown : Option Kernel → Option (Tid × List Tid × ℕ)
shown none = none
shown (some k) = some (k.current, k.ready_list, k.ready_threads)

yield_to_highest : shown (thread_yield busy) ≡ some (3, 4 ∷ 2 ∷ [], 2)
unfolding runs
yield_to_highest = refl

block_to_highest : shown (thread_block busy) ≡ some (3, 4 ∷ [], 1)
unfolding runs
block_to_highest = refl

thread_block_lem_example :
    (k' : Kernel) × (thread_block busy ≡ some k') × Switched (stopped busy blocked) k'
thread_block_lem_example = thread_block_lem busy busy-WellFormed

thread_yield_lem_example :
    (k' : Kernel) × (thread_yield busy ≡ some k') × Switched (yielded busy) k'
thread_yield_lem_example = thread_yield_lem busy busy-WellFormed

abbrev after_yield : Kernel
after_yield = elim (thread_yield busy) [ none ↦ busy | some k ↦ k ]

Reach-WellFormed_example : WellFormed after_yield
unfolding runs
Reach-WellFormed_example =
    Reach-WellFormed {k = busy} {k' = after_yield} (next here (yields refl)) busy-WellFormed
