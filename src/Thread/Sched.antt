-- ===== src/Thread/Sched.antt =====
-- The scheduler's invariant: one thread runs, the ready list holds threads that are ready, each
-- once, in order, and its length is counted.
use mathlib.Core.Path.{fun_ext}
use course_cs439_operating_s.Base.{
  ℕ, ◌≡◌, ◌∙◌, ◌≢◌, true, false, List, [], ◌∷◌, arith, ◌==◌, length, All,
}
use course_cs439_operating_s.Thread.{
  Tid, Status, running, ready, Threads, Kernel, is_thread, update, set_status, priority_of,
}
use course_cs439_operating_s.Thread.Ready.{Descending, Absent, Distinct}

-- The ready list `l` with its count `n`.
pub record IsQueue (ts : Threads) (idle : Tid) (l : List Tid) (n : ℕ) : Type 0 where
  pub waiting : All (λ t. (ts t).status ≡ ready) l
  pub valid : All (λ t. is_thread ts t ≡ true) l
  pub no_idle : Absent idle l
  pub distinct : Distinct l
  pub counted : n ≡ length l
  pub ordered : Descending (priority_of ts) l

pub record WellFormed (k : Kernel) : Type 0 where
  pub queue : IsQueue k.threads k.idle_thread k.ready_list k.ready_threads
  pub idle_valid : is_thread k.threads k.idle_thread ≡ true
  pub current_valid : is_thread k.threads k.current ≡ true
  pub runs : (k.threads k.current).status ≡ running
  pub only : (t : Tid) → (k.threads t).status ≡ running → t ≡ k.current

module _ (ts : Threads) (t : Tid) (s : Status) where
  pub set_status-priority : priority_of (set_status ts t s) ≡ priority_of ts
  unfolding set_status update
  set_status-priority = fun_ext (λ u. ground arith)

  pub set_status-is_thread : (u : Tid) → is_thread (set_status ts t s) u ≡ is_thread ts u
  unfolding set_status update is_thread
  set_status-is_thread u = ground arith

  pub set_status_self : (set_status ts t s t).status ≡ s
  unfolding set_status update
  set_status_self = ground arith

  pub set_status_ne : (u : Tid) → (u == t) ≡ false → (set_status ts t s u).status ≡ (ts u).status
  unfolding set_status update
  set_status_ne u h = ground arith

  pub set_status-is_thread_fun : is_thread (set_status ts t s) ≡ is_thread ts
  set_status-is_thread_fun = fun_ext set_status-is_thread

  pub waiting-set_status :
      (l : List Tid)
      → Absent t l
      → All (λ u. (ts u).status ≡ ready) l
      → All (λ u. (set_status ts t s u).status ≡ ready) l
  waiting-set_status [] a h = tt
  waiting-set_status (u ∷ l) a h = (set_status_ne u a.0 ∙ h.0, waiting-set_status l a.1 h.1)

  -- A thread outside the ready list may change its status.
  pub IsQueue-set_status :
      {idle : Tid} {l : List Tid} {n : ℕ}
      → Absent t l
      → IsQueue ts idle l n
      → IsQueue (set_status ts t s) idle l n
  IsQueue-set_status {l} a q = record {
    waiting = waiting-set_status l a q.waiting;
    valid = rw set_status-is_thread_fun q.valid;
    no_idle = q.no_idle;
    distinct = q.distinct;
    counted = q.counted;
    ordered = rw set_status-priority q.ordered;
  }

-- A thread that is not ready is not in the ready list.
pub Absent-of_status :
    (ts : Threads) (t : Tid) (l : List Tid)
    → (ts t).status ≢ ready
    → All (λ u. (ts u).status ≡ ready) l
    → Absent t l
Absent-of_status ts t [] h a = tt
Absent-of_status ts t (u ∷ l) h a = (ground arith, Absent-of_status ts t l h a.1)
