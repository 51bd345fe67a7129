-- ===== src/Mlfqs/Own.antt =====
-- A change of the running thread alone, in its priorities: what thread_set_priority of
-- pintos/src/threads/thread.c does before it yields.
use mathlib.Core.Path.{subst}
use course_cs439_operating_s.Base.{
  ℕ, suc, ◌≤◌, ◌≡◌, refl, sym, ap, ◌∙◌, inl, inr, true, false, not, ◌&&◌, some, List, [], ◌∷◌,
  arith, ◌==◌, Bool-cases, ==_iff, All,
}
use course_cs439_operating_s.Thread.{
  Tid, null, running, ready, Thread, Threads, Donation, Kernel, is_thread, thread_magic, update,
  priority_of,
}
use course_cs439_operating_s.Thread.Ready.{AtMost, Descending, Absent}
use course_cs439_operating_s.Thread.Sched.{IsQueue, WellFormed}
use course_cs439_operating_s.Thread.Switch.{current-Absent}
use course_cs439_operating_s.Donation.{active_priority, update_active_priority}
use course_cs439_operating_s.Donation.Update.{Highest, active_priority-Highest}
use course_cs439_operating_s.Donation.Chain.{
  raised, update_last, raised-Repriced, is_thread-Repriced,
}
use course_cs439_operating_s.Mlfqs.{set_native}

-- Only the thread `t` is changed.
abbrev Elsewhere : Tid → Threads → Threads → Type 0
Elsewhere t ts ts' = (u : Tid) → (u == t) ≡ false → ts' u ≡ ts u

module _ (t : Tid) (ts ts' : Threads) (same : Elsewhere t ts ts') where
  All-elsewhere :
      (P : Tid → Thread → Type 0) (l : List Tid)
      → Absent t l
      → All (λ u. P u (ts u)) l
      → All (λ u. P u (ts' u)) l
  All-elsewhere P [] a h = tt
  All-elsewhere P (u ∷ l) a h = (rw (same u a.0) h.0, All-elsewhere P l a.1 h.1)

  Descending-elsewhere :
      (l : List Tid) → Absent t l → Descending (priority_of ts) l → Descending (priority_of ts') l
  Descending-elsewhere [] a d = tt
  Descending-elsewhere (u ∷ l) a d = (
    subst (λ (th : Thread). AtMost (priority_of ts') th.priority l) (sym (same u a.0))
        (All-elsewhere (λ v th. th.priority ≤ (ts u).priority) l a.1 d.0),
    Descending-elsewhere l a.1 d.1,
  )

  is_thread-elsewhere : (u : Tid) → (u == t) ≡ false → is_thread ts' u ≡ is_thread ts u
  unfolding is_thread
  is_thread-elsewhere u h = rw (same u h) refl

  IsQueue-elsewhere :
      {idle : Tid} {l : List Tid} {n : ℕ} → Absent t l → IsQueue ts idle l n → IsQueue ts' idle l n
  unfolding is_thread
  IsQueue-elsewhere {l = l} a q = record {
    waiting = All-elsewhere (λ u th. th.status ≡ ready) l a q.waiting;
    valid =
        All-elsewhere (λ u th. (not (u == null) && th.magic == thread_magic) ≡ true) l a q.valid;
    no_idle = q.no_idle;
    distinct = q.distinct;
    counted = q.counted;
    ordered = Descending-elsewhere l a q.ordered;
  }

-- The running thread may change in all but its status and its mark of validity.
pub WellFormed-Elsewhere :
    (k : Kernel) (ts' : Threads)
    → WellFormed k
    → Elsewhere k.current k.threads ts'
    → (ts' k.current).status ≡ running
    → is_thread ts' k.current ≡ true
    → WellFormed (record k { threads = ts' })
WellFormed-Elsewhere k ts' w same runs valid = record {
  queue = IsQueue-elsewhere k.current k.threads ts' same (current-Absent w) w.queue;
  idle_valid = elim (Bool-cases (k.idle_thread == k.current)) [
    | inl e ↦ rw ((==_iff k.idle_thread k.current).0 e) valid
    | inr e ↦ is_thread-elsewhere k.current k.threads ts' same k.idle_thread e ∙ w.idle_valid
  ];
  current_valid = valid;
  runs = runs;
  only = λ u h. elim (Bool-cases (u == k.current)) [
    | inl e ↦ (==_iff u k.current).0 e
    | inr e ↦ w.only u (sym (ap (λ (th : Thread). th.status) (same u e)) ∙ h)
  ];
}

-- The threads after the priority of `t` was set, if no donation passes it on.
abbrev pub priority_set : Threads → Tid → ℕ → Threads
priority_set ts t p = raised (set_native ts t p) t

module _ (ts : Threads) (t : Tid) (p : ℕ) where
  pub set-Elsewhere : Elsewhere t ts (priority_set ts t p)
  unfolding set_native update raised
  set-Elsewhere u h = ground arith

  native-is_thread : (u : Tid) → is_thread (set_native ts t p) u ≡ is_thread ts u
  unfolding set_native update is_thread
  native-is_thread u = ground arith

  pub set-is_thread : (u : Tid) → is_thread (priority_set ts t p) u ≡ is_thread ts u
  set-is_thread u =
      is_thread-Repriced (set_native ts t p) _ (raised-Repriced (set_native ts t p) t) u
      ∙ native-is_thread u

  native-donee : (set_native ts t p t).donee ≡ (ts t).donee
  unfolding set_native update
  native-donee = ground arith

  pub set-status : (priority_set ts t p t).status ≡ (ts t).status
  unfolding set_native update raised
  set-status = ground arith

  pub set-priority : (priority_set ts t p t).priority ≡ active_priority (set_native ts t p) t
  unfolding set_native update raised
  set-priority = ground arith

  native-priority : (u : Tid) → (set_native ts t p u).priority ≡ (ts u).priority
  unfolding set_native update
  native-priority u = ground arith

  native_self :
      ((set_native ts t p t).native_priority ≡ p) × ((set_native ts t p t).donors ≡ (ts t).donors)
  unfolding set_native update
  native_self = (ground arith, ground arith)

  -- The donors are as they were before.
  pub set-active : Highest ts p (ts t).donors (active_priority (set_native ts t p) t)
  set-active =
      let h : Highest (set_native ts t p) p (ts t).donors (active_priority (set_native ts t p) t) =
        subst2 native_self.0 native_self.1 (active_priority-Highest (set_native ts t p) t) in
      record {
        above_low = h.above_low;
        above = λ i d e v.
            omega (arith, native-priority d.thread, h.above i d e (native-is_thread d.thread ∙ v));
        reached = elim h.reached [
          | inl low ↦ inl low
          | inr o ↦ inr (record {
            index = o.index;
            entry = o.entry;
            listed = o.listed;
            valid = sym (native-is_thread o.entry.thread) ∙ o.valid;
            gives = sym (native-priority o.entry.thread) ∙ o.gives;
          })
        ];
      }
    where
      subst2 :
          {low : ℕ} {ds : List Donation}
          → (set_native ts t p t).native_priority ≡ low
          → (set_native ts t p t).donors ≡ ds
          → Highest
              (set_native ts t p)
              (set_native ts t p t).native_priority
              (set_native ts t p t).donors
              (active_priority (set_native ts t p) t)
          → Highest (set_native ts t p) low ds (active_priority (set_native ts t p) t)
      subst2 {low} {ds} a b h =
          subst
            (λ (l : List Donation).
              Highest (set_native ts t p) low l (active_priority (set_native ts t p) t))
            b
            (subst
              (λ (n : ℕ).
                Highest (set_native ts t p) n (set_native ts t p t).donors
                  (active_priority (set_native ts t p) t))
              a h)

  pub update_alone :
      (fuel : ℕ)
      → is_thread ts t ≡ true
      → is_thread ts (ts t).donee.thread ≡ false
      → update_active_priority (suc fuel) (set_native ts t p) t ≡ some (priority_set ts t p)
  update_alone fuel v alone =
      update_last fuel (set_native ts t p) t (native-is_thread t ∙ v)
        (set-is_thread _ ∙ rw native-donee alone)
