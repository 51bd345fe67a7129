-- ===== src/Thread/Ops.antt =====
-- thread_block, thread_yield, thread_exit and thread_unblock keep the scheduler's invariant, and the
-- thread that runs after a switch has the highest priority.
use course_cs439_operating_s.Base.{
  ℕ, suc, ◌≡◌, refl, sym, ◌∙◌, ◌≢◌, inl, inr, true, false, Option, some, List, arith, ◌==◌,
  if◌then◌else◌, Bool-cases,
}
use mathlib.Core.Path.{subst}
use course_cs439_operating_s.Thread.{
  Tid, running, ready, blocked, dying, Threads, Kernel, is_thread, update, set_status, priority_of,
  insert_unblocked, insert_yielded, thread_unblock, thread_current, thread_block, thread_yield,
  thread_exit,
}
use course_cs439_operating_s.Thread.Ready.{
  Descending, Absent, Inserted, insert_unblocked-Inserted, insert_yielded-Inserted,
  insert_unblocked-Descending, insert_yielded-Descending,
}
use course_cs439_operating_s.Thread.Sched.{
  IsQueue, WellFormed, set_status-priority, set_status_self, set_status_ne,
  set_status-is_thread_fun, IsQueue-set_status, Absent-of_status,
}
use course_cs439_operating_s.Thread.Switch.{
  CanSwitch, Switched, schedule-Switched, stopped, current-Absent, stopped-CanSwitch,
}

-- The ASSERTs of thread_current.
thread_current_lem : (k : Kernel) → WellFormed k → thread_current k ≡ some k.current
unfolding thread_current
thread_current_lem k w = rw (w.current_valid, w.runs) refl

-- From a state that satisfies the invariant thread_block succeeds: the invariant holds again, the
-- thread that runs has the highest priority of those that are ready, or is the idle thread if none
-- is, and the thread that called it is blocked unless it is the one that runs.
pub thread_block_lem :
    (k : Kernel)
    → WellFormed k
    → (k' : Kernel) × (thread_block k ≡ some k') × Switched (stopped k blocked) k'
unfolding thread_block
thread_block_lem k w =
    rw (thread_current_lem k w)
      (schedule-Switched (stopped k blocked) (stopped-CanSwitch blocked w (λ e. cc)))

-- From a state that satisfies the invariant the end of thread_exit succeeds: the invariant holds again,
-- the thread that runs has the highest priority of those that are ready, or is the idle thread if
-- none is, and the thread that called it is dying unless it is the one that runs.
pub thread_exit_lem :
    (k : Kernel)
    → WellFormed k
    → (k' : Kernel) × (thread_exit k ≡ some k') × Switched (stopped k dying) k'
unfolding thread_exit
thread_exit_lem k w =
    rw (thread_current_lem k w)
      (schedule-Switched (stopped k dying) (stopped-CanSwitch dying w (λ e. cc)))

-- A queue with one more thread, whichever insertion was used.
IsQueue-Inserted :
    {ts : Threads} {idle : Tid} {l out : List Tid} {n : ℕ} (t : Tid)
    → IsQueue ts idle l n
    → Inserted t l out
    → (ts t).status ≡ ready
    → is_thread ts t ≡ true
    → (t == idle) ≡ false
    → Absent t l
    → Descending (priority_of ts) out
    → IsQueue ts idle out (suc n)
IsQueue-Inserted {ts} {idle} t q i s v ne a d = record {
  waiting = i.all (λ u. (ts u).status ≡ ready) s q.waiting;
  valid = i.all (λ u. is_thread ts u ≡ true) v q.valid;
  no_idle = i.all (λ u. (u == idle) ≡ false) ne q.no_idle;
  distinct = i.distinct a q.distinct;
  counted = omega (arith, i.counted, q.counted);
  ordered = d;
}

-- The state in which thread_yield calls `schedule`.
abbrev pub yielded : Kernel → Kernel
yielded k =
    let idle = k.current == k.idle_thread in
    record k {
      ready_list =
          if idle
          then k.ready_list
          else insert_yielded (priority_of k.threads) k.current k.ready_list;
      ready_threads = if idle then k.ready_threads else suc k.ready_threads;
      threads = set_status k.threads k.current ready;
    }

pub yielded-IsQueue :
    (k : Kernel)
    → WellFormed k
    → IsQueue (yielded k).threads k.idle_thread (yielded k).ready_list (yielded k).ready_threads
yielded-IsQueue k w =
    let q = IsQueue-set_status k.threads k.current ready (current-Absent w) w.queue in
    elim (Bool-cases (k.current == k.idle_thread)) [
      | inl idle ↦ rw idle q
      | inr busy ↦ rw busy (
          IsQueue-Inserted k.current q
            (insert_yielded-Inserted (priority_of k.threads) k.current k.ready_list)
            (set_status_self k.threads k.current ready)
            (rw (set_status-is_thread_fun k.threads k.current ready) w.current_valid) busy
            (current-Absent w)
            (rw (set_status-priority k.threads k.current ready) (
              insert_yielded-Descending (priority_of k.threads) k.current k.ready_list
                w.queue.ordered)))
    ]

yielded-CanSwitch : (k : Kernel) → WellFormed k → CanSwitch (yielded k)
yielded-CanSwitch k w =
    let c = stopped-CanSwitch {k = k} ready w (λ e. cc) in
    record { queue = yielded-IsQueue k w; idle_valid = c.idle_valid; stopped = c.stopped }

-- From a state that satisfies the invariant thread_yield succeeds: the running thread is put back among
-- those that are ready, unless it is the idle thread, then the one of the highest priority runs, or
-- the idle thread if none is ready, and the invariant holds again.
pub thread_yield_lem :
    (k : Kernel)
    → WellFormed k
    → (k' : Kernel) × (thread_yield k ≡ some k') × Switched (yielded k) k'
unfolding thread_yield
thread_yield_lem k w =
    rw (thread_current_lem k w) (schedule-Switched (yielded k) (yielded-CanSwitch k w))

abbrev pub unblocked : Kernel → Tid → Kernel
unblocked k t = record k {
  ready_list = insert_unblocked (priority_of k.threads) t k.ready_list;
  ready_threads = suc k.ready_threads;
  threads = set_status k.threads t ready;
}

unblocked-only :
    (k : Kernel) (t : Tid)
    → WellFormed k
    → (u : Tid) → (set_status k.threads t ready u).status ≡ running
    → u ≡ k.current
unfolding set_status update
unblocked-only k t w u r = ground (arith, w.only u)

awake-ne :
    (ts : Threads) (c t : Tid)
    → (ts c).status ≡ running
    → (ts t).status ≡ blocked
    → (c == t) ≡ false
awake-ne ts c t r b = ground arith

-- In a state that satisfies the invariant thread_unblock of a blocked thread other than the idle thread
-- succeeds, keeps the invariant and lets the same thread run.
pub thread_unblock_lem :
    (k : Kernel) (t : Tid)
    → WellFormed k
    → is_thread k.threads t ≡ true
    → (k.threads t).status ≡ blocked
    → t ≢ k.idle_thread
    → (thread_unblock k t ≡ some (unblocked k t)) × WellFormed (unblocked k t)
unfolding thread_unblock
thread_unblock_lem k t w v b ne =
    let a = Absent-of_status k.threads t k.ready_list (ground (arith, b)) w.queue.waiting in
    let q = IsQueue-set_status k.threads t ready a w.queue in
    let awake : (k.current == t) ≡ false = awake-ne k.threads k.current t w.runs b in
    (
      rw (v, b),
      record {
        queue =
            IsQueue-Inserted t q (insert_unblocked-Inserted (priority_of k.threads) t k.ready_list)
              (set_status_self k.threads t ready)
              (rw (set_status-is_thread_fun k.threads t ready) v) (ground arith) a
              (rw (set_status-priority k.threads t ready) (
                insert_unblocked-Descending (priority_of k.threads) t k.ready_list
                  w.queue.ordered));
        idle_valid = rw (set_status-is_thread_fun k.threads t ready) w.idle_valid;
        current_valid = rw (set_status-is_thread_fun k.threads t ready) w.current_valid;
        runs = set_status_ne k.threads t ready k.current awake ∙ w.runs;
        only = unblocked-only k t w;
      },
    )

-- A step of the system: the running thread blocks, yields or exits, or a blocked thread other than
-- the idle thread is made ready.
pub data Step (k k' : Kernel) : Type 0 where
  blocks : thread_block k ≡ some k' → Step k k'
  yields : thread_yield k ≡ some k' → Step k k'
  exits : thread_exit k ≡ some k' → Step k k'
  unblocks :
      (t : Tid)
      → is_thread k.threads t ≡ true
      → (k.threads t).status ≡ blocked
      → t ≢ k.idle_thread
      → thread_unblock k t ≡ some k'
      → Step k k'

pub data Reach (k : Kernel) : Kernel → Type 0 where
  here : Reach k k
  next : {k' k'' : Kernel} → Reach k k' → Step k' k'' → Reach k k''

some_inj : {a b : Kernel} → some a ≡ some b → a ≡ b
some_inj h = cc

result-WellFormed :
    {r : Option Kernel} {k' : Kernel}
    → ((x : Kernel) × (r ≡ some x) × WellFormed x)
    → r ≡ some k'
    → WellFormed k'
result-WellFormed (x, e, w) h = subst WellFormed (some_inj (sym e ∙ h)) w

Step-WellFormed : {k k' : Kernel} → Step k k' → WellFormed k → WellFormed k'
Step-WellFormed {k} (blocks e) w =
    let (x, r, s) = thread_block_lem k w in result-WellFormed (x, r, s.well_formed) e
Step-WellFormed {k} (yields e) w =
    let (x, r, s) = thread_yield_lem k w in result-WellFormed (x, r, s.well_formed) e
Step-WellFormed {k} (exits e) w =
    let (x, r, s) = thread_exit_lem k w in result-WellFormed (x, r, s.well_formed) e
Step-WellFormed {k} (unblocks t v b ne e) w =
    let (r, w') = thread_unblock_lem k t w v b ne in result-WellFormed (unblocked k t, r, w') e

-- After any sequence of blocking, yielding, exiting and unblocking from a state that satisfies the
-- invariant, one thread runs, the ready list holds threads that are ready, each once and in order of
-- priority, and its length is counted.
pub Reach-WellFormed : {k k' : Kernel} → Reach k k' → WellFormed k → WellFormed k'
Reach-WellFormed here w = w
Reach-WellFormed (next r s) w = Step-WellFormed s (Reach-WellFormed r w)
