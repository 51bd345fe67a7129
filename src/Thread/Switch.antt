-- ===== src/Thread/Switch.antt =====
-- `schedule` and the switch to the next thread.

use course_cs439_operating_s.Base.{
  ℕ, ◌-◌, ◌≡◌, refl, ap, sym, ◌∙◌, ◌≢◌, ◌⊎◌, inl, inr, true, false, some, List, [], ◌∷◌, arith,
  ◌==◌, if◌then◌else◌, Bool-cases, ==_refl,
}
use course_cs439_operating_s.Thread.{
  Tid, null, Status, running, Threads, Kernel, is_thread, is_running, update, set_status,
  priority_of, next_thread_to_run, thread_schedule_tail, schedule,
}
use course_cs439_operating_s.Thread.Ready.{AtMost, Absent}
use course_cs439_operating_s.Thread.Sched.{
  IsQueue, WellFormed, set_status-priority, set_status_self, set_status_ne, set_status-is_thread,
  set_status-is_thread_fun, IsQueue-set_status, Absent-of_status,
}

-- The state in which `schedule` is called: the thread that ran has stopped.
pub record CanSwitch (k : Kernel) : Type 0 where
  pub queue : IsQueue k.threads k.idle_thread k.ready_list k.ready_threads
  pub idle_valid : is_thread k.threads k.idle_thread ≡ true
  pub stopped : (t : Tid) → (k.threads t).status ≢ running

-- What a switch does: the head of the ready list runs, the idle thread if there is none.
pub record Switched (k k' : Kernel) : Type 0 where
  pub well_formed : WellFormed k'
  pub highest : AtMost (priority_of k.threads) (priority_of k.threads k'.current) k'.ready_list
  pub head :
      ((k.ready_list ≡ []) × (k'.current ≡ k.idle_thread) × (k'.ready_list ≡ []))
      ⊎ (k.ready_list ≡ k'.current ∷ k'.ready_list)
  pub new_slice : k'.thread_ticks ≡ 0
  pub priorities : priority_of k'.threads ≡ priority_of k.threads
  pub others : (t : Tid) → (t == k'.current) ≡ false → (k'.threads t).status ≡ (k.threads t).status
  pub valid : (t : Tid) → is_thread k'.threads t ≡ is_thread k.threads t
  pub idle : k'.idle_thread ≡ k.idle_thread

module _ (prev : Tid) (k : Kernel) where
  tail-threads : (thread_schedule_tail prev k).threads ≡ set_status k.threads k.current running
  unfolding thread_schedule_tail
  tail-threads = ground arith

  tail-ready : (thread_schedule_tail prev k).ready_list ≡ k.ready_list
  unfolding thread_schedule_tail
  tail-ready = ground arith

  tail-count : (thread_schedule_tail prev k).ready_threads ≡ k.ready_threads
  unfolding thread_schedule_tail
  tail-count = ground arith

  tail-current : (thread_schedule_tail prev k).current ≡ k.current
  unfolding thread_schedule_tail
  tail-current = ground arith

  tail-idle : (thread_schedule_tail prev k).idle_thread ≡ k.idle_thread
  unfolding thread_schedule_tail
  tail-idle = ground arith

  tail-ticks : (thread_schedule_tail prev k).thread_ticks ≡ 0
  unfolding thread_schedule_tail
  tail-ticks = ground arith

  tail-only :
      ((t : Tid) → (k.threads t).status ≢ running)
      → (t : Tid) → (set_status k.threads k.current running t).status ≡ running
      → t ≡ k.current
  unfolding set_status update
  tail-only stopped t h = ground (arith, stopped t)

  tail-WellFormed :
      CanSwitch k
      → Absent k.current k.ready_list
      → is_thread k.threads k.current ≡ true
      → WellFormed (thread_schedule_tail prev k)
  tail-WellFormed c a v = record {
    current_valid =
        rw (tail-threads, tail-current, set_status-is_thread_fun k.threads k.current running) v;
    queue =
        rw (tail-threads, tail-ready, tail-count, tail-idle)
          (IsQueue-set_status k.threads k.current running a c.queue);
    idle_valid =
        rw (tail-threads, tail-idle, set_status-is_thread_fun k.threads k.current running)
          c.idle_valid;
    runs = rw (tail-threads, tail-current) (set_status_self k.threads k.current running);
    only = rw (tail-threads, tail-current) (tail-only c.stopped);
  }

IsQueue-tail :
    {ts : Threads} {idle t : Tid} {l : List Tid} {n : ℕ}
    → IsQueue ts idle (t ∷ l) n
    → IsQueue ts idle l (n - 1)
IsQueue-tail q = record {
  waiting = q.waiting.1;
  valid = q.valid.1;
  no_idle = q.no_idle.1;
  distinct = q.distinct.1;
  counted = omega (arith, q.counted);
  ordered = q.ordered.1;
}

-- What next_thread_to_run picks from the ready list `l`.
record Picked (ts : Threads) (idle : Tid) (l : List Tid) (p : Tid × List Tid × ℕ) : Type 0 where
  queue : IsQueue ts idle p.1 p.2
  valid : is_thread ts p.0 ≡ true
  absent : Absent p.0 p.1
  highest : AtMost (priority_of ts) (ts p.0).priority p.1
  head : ((l ≡ []) × (p.0 ≡ idle) × (p.1 ≡ [])) ⊎ (l ≡ p.0 ∷ p.1)

next_thread_to_run-Picked :
    {ts : Threads} {idle : Tid} (l : List Tid) {n : ℕ}
    → IsQueue ts idle l n
    → is_thread ts idle ≡ true
    → Picked ts idle l (next_thread_to_run idle l n)
unfolding next_thread_to_run
next_thread_to_run-Picked [] q v = record {
  queue = q;
  valid = v;
  absent = tt;
  highest = tt;
  head = inl (refl, refl, refl);
}
next_thread_to_run-Picked (t ∷ l) q v = record {
  queue = IsQueue-tail q;
  valid = q.valid.0;
  absent = q.distinct.0;
  highest = q.ordered.0;
  head = inr refl;
}

abbrev picked : Kernel → Tid × List Tid × ℕ
picked k = next_thread_to_run k.idle_thread k.ready_list k.ready_threads

abbrev chosen : Kernel → Kernel
chosen k = record k {
  ready_list = (picked k).1;
  ready_threads = (picked k).2;
  current = (picked k).0;
}

not_running : (s : Status) → s ≢ running → is_running s ≡ false
not_running s h = ground arith

schedule_eq :
    (k : Kernel)
    → (k.threads k.current).status ≢ running
    → is_thread k.threads (picked k).0 ≡ true
    → schedule k
      ≡ some
          (thread_schedule_tail (if k.current == (picked k).0 then null else k.current) (chosen k))
unfolding schedule
schedule_eq k h v = rw (not_running (k.threads k.current).status h, v)

-- From such a state `schedule` succeeds, and runs a thread of the highest priority.
pub schedule-Switched :
    (k : Kernel) → CanSwitch k → (k' : Kernel) × (schedule k ≡ some k') × Switched k k'
schedule-Switched k c =
    let p = next_thread_to_run-Picked k.ready_list c.queue c.idle_valid in
    let prev = if k.current == (picked k).0 then null else k.current in
    (
      thread_schedule_tail prev (chosen k),
      schedule_eq k (c.stopped k.current) p.valid,
      record {
        well_formed =
            tail-WellFormed prev (chosen k)
              (record { queue = p.queue; idle_valid = c.idle_valid; stopped = c.stopped }) p.absent
              p.valid;
        highest = rw (tail-ready prev (chosen k), tail-current prev (chosen k)) p.highest;
        head = rw (tail-ready prev (chosen k), tail-current prev (chosen k)) p.head;
        new_slice = tail-ticks prev (chosen k);
        priorities =
            ap priority_of (tail-threads prev (chosen k))
            ∙ set_status-priority k.threads (picked k).0 running;
        others =
            rw (tail-current prev (chosen k), tail-threads prev (chosen k))
              (set_status_ne k.threads (picked k).0 running);
        valid = λ t.
            rw (tail-threads prev (chosen k))
              (set_status-is_thread k.threads (picked k).0 running t);
        idle = tail-idle prev (chosen k);
      },
    )

abbrev pub stopped : Kernel → Status → Kernel
stopped k s = record k { threads = set_status k.threads k.current s }

-- The running thread is not in the ready list.
pub current-Absent : {k : Kernel} → WellFormed k → Absent k.current k.ready_list
current-Absent {k} w =
    Absent-of_status k.threads k.current k.ready_list (ground (arith, w.runs)) w.queue.waiting

nobody_runs :
    {k : Kernel} (s : Status)
    → WellFormed k
    → s ≢ running
    → (t : Tid) → (set_status k.threads k.current s t).status ≢ running
nobody_runs {k} s w h t r = elim (Bool-cases (t == k.current)) [
  | inl same ↦
      let e : t ≡ k.current = ground arith in
      h (
        sym (set_status_self k.threads k.current s)
        ∙ ap (λ u. (set_status k.threads k.current s u).status) (sym e)
        ∙ r)
  | inr other ↦
      cc
        (other, w.only t (sym (set_status_ne k.threads k.current s t other) ∙ r), ==_refl k.current)
]

pub stopped-CanSwitch :
    {k : Kernel} (s : Status) → WellFormed k → s ≢ running → CanSwitch (stopped k s)
stopped-CanSwitch {k} s w h = record {
  queue = IsQueue-set_status k.threads k.current s (current-Absent w) w.queue;
  idle_valid = rw (set_status-is_thread_fun k.threads k.current s) w.idle_valid;
  stopped = nobody_runs s w h;
}
