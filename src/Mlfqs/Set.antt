-- ===== src/Mlfqs/Set.antt =====
-- thread_set_priority in pintos/src/threads/thread.c keeps the scheduler's invariant, and no thread that
-- is ready has a higher priority than the one that runs after it.
use mathlib.Core.Path.{subst}
use course_cs439_operating_s.Base.{
  ℕ, suc, ◌≤◌, ◌≡◌, refl, sym, ap, ◌∙◌, inl, inr, false, some, List, [], ◌∷◌, arith, ltb, ◌==◌,
  Bool-cases,
}
use course_cs439_operating_s.Base.Int.{ℤ, pos, negsuc, ◌≤ℤ◌}
use course_cs439_operating_s.Thread.{Tid, ready, Thread, Threads, Kernel, is_thread, priority_of}
use course_cs439_operating_s.Thread.Ready.{AtMost, AtMost-mono, Descending}
use course_cs439_operating_s.Thread.Sched.{WellFormed, set_status-priority}
use course_cs439_operating_s.Thread.Switch.{Switched}
use course_cs439_operating_s.Thread.Ops.{yielded, thread_yield_lem}
use course_cs439_operating_s.Donation.{active_priority}
use course_cs439_operating_s.Donation.Update.{Highest}
use course_cs439_operating_s.Mlfqs.{clamp_priority, set_native, head_priority, thread_set_priority}
use course_cs439_operating_s.Mlfqs.Own.{
  WellFormed-Elsewhere, priority_set, set-Elsewhere, set-is_thread, set-status, set-priority,
  set-active, update_alone,
}

-- The state with the priorities of `ts`: the invariant holds, no thread that is ready has a priority above
-- that of the thread that runs.
record Left (ts : Threads) (k' : Kernel) : Type 0 where
  well_formed : WellFormed k'
  highest : AtMost (priority_of k'.threads) (priority_of k'.threads k'.current) k'.ready_list
  priorities : priority_of k'.threads ≡ priority_of ts

set_priority_head :
    (ts : Threads) (stray p : ℕ) (l : List Tid)
    → ltb p (head_priority ts stray l) ≡ false
    → Descending (priority_of ts) l
    → AtMost (priority_of ts) p l
unfolding head_priority
set_priority_head ts stray p [] e d = tt
set_priority_head ts stray p (h ∷ l) e d =
    let le : (ts h).priority ≤ p = ground arith in
    (le, AtMost-mono (priority_of ts) (ts h).priority p l le d.0)

yield-Left : (k k' : Kernel) → Switched (yielded k) k' → Left k.threads k'
yield-Left k k' s =
    let same : priority_of k'.threads ≡ priority_of k.threads =
      s.priorities ∙ set_status-priority k.threads k.current ready in
    record {
      well_formed = s.well_formed;
      highest =
          subst (λ (f : Tid → ℕ). AtMost f (f k'.current) k'.ready_list) (sym s.priorities)
            s.highest;
      priorities = same;
    }

-- What thread_set_priority leaves, for a native priority `p`: the active priority of the thread is the largest of
-- `p` and those of its donors that are threads, no other active priority changes, the invariant holds
-- and no thread that is ready has a priority above that of the thread that runs.
pub record Settled (k : Kernel) (p : ℕ) (k' : Kernel) : Type 0 where
  pub well_formed : WellFormed k'
  pub highest : AtMost (priority_of k'.threads) (priority_of k'.threads k'.current) k'.ready_list
  pub active : Highest k.threads p (k.threads k.current).donors (priority_of k'.threads k.current)
  pub others :
      (u : Tid) → (u == k.current) ≡ false → priority_of k'.threads u ≡ priority_of k.threads u

Left-Settled :
    (k k' : Kernel) (p : ℕ) → Left (priority_set k.threads k.current p) k' → Settled k p k'
Left-Settled k k' p l =
    let t = k.current in
    let here : priority_of k'.threads t ≡ active_priority (set_native k.threads t p) t =
      ap (λ (f : Tid → ℕ). f t) l.priorities ∙ set-priority k.threads t p in
    record {
      well_formed = l.well_formed;
      highest = l.highest;
      active =
          subst (Highest k.threads p (k.threads t).donors) (sym here) (set-active k.threads t p);
      others = λ u h.
          ap (λ (f : Tid → ℕ). f u) l.priorities
          ∙ ap (λ (th : Thread). th.priority) (set-Elsewhere k.threads t p u h);
    }

-- `p` is the number brought within 0 and 63.
abbrev pub IsClamped : ℤ → ℕ → Type 0
IsClamped n p =
    (n ≤ℤ pos 0 → p ≡ 0) × (pos 0 ≤ℤ n → n ≤ℤ pos 63 → pos p ≡ n) × (pos 63 ≤ℤ n → p ≡ 63)

clamp_priority-IsClamped : (n : ℤ) → IsClamped n (clamp_priority n)
unfolding clamp_priority
clamp_priority-IsClamped (pos n) =
    ((λ a. ground (arith, a)), (λ a b. ap pos (ground (arith, a, b))), λ a. ground (arith, a))
clamp_priority-IsClamped (negsuc n) =
    ((λ a. ground (arith, a)), (λ a b. absurd (omega (arith, a))), λ a. absurd (omega (arith, a)))

set_priority-Left :
    (fuel stray : ℕ) (k : Kernel) (new_priority : ℤ)
    → WellFormed k
    → is_thread k.threads (k.threads k.current).donee.thread ≡ false
    → (k' : Kernel) × (thread_set_priority (suc fuel) stray k new_priority ≡ some k')
      × Left (priority_set k.threads k.current (clamp_priority new_priority)) k'
unfolding thread_set_priority
set_priority-Left fuel stray k new_priority w alone =
    let p = clamp_priority new_priority in
    let ts = priority_set k.threads k.current p in
    let k1 : Kernel = record k { threads = ts } in
    let e = update_alone k.threads k.current p fuel w.current_valid alone in
    let w1 : WellFormed k1 =
      WellFormed-Elsewhere k ts w (set-Elsewhere k.threads k.current p)
        (set-status k.threads k.current p ∙ w.runs)
        (set-is_thread k.threads k.current p k.current ∙ w.current_valid) in
    elim (Bool-cases (ltb (ts k.current).priority (head_priority ts stray k.ready_list))) [
      | inl low ↦ let (k', y, s) = thread_yield_lem k1 w1 in (k', rw (e, low) y, yield-Left k1 k' s)
      | inr high ↦ (
        k1,
        rw (e, high) refl,
        record {
          well_formed = w1;
          highest =
              set_priority_head ts stray (ts k.current).priority k.ready_list high w1.queue.ordered;
          priorities = refl;
        },
      )
    ]

-- If the running thread has donated to no thread, thread_set_priority succeeds: for the new priority brought within 0
-- and 63, the thread's active priority becomes the largest of it and those of its donors that are threads,
-- no other active priority changes, the scheduler's invariant holds again and no thread that is ready
-- has a higher priority than the thread that runs then.
pub thread_set_priority-Settled :
    (fuel stray : ℕ) (k : Kernel) (new_priority : ℤ)
    → WellFormed k
    → is_thread k.threads (k.threads k.current).donee.thread ≡ false
    → (k' : Kernel) × (p : ℕ) × (thread_set_priority (suc fuel) stray k new_priority ≡ some k')
      × IsClamped new_priority p
      × Settled k p k'
thread_set_priority-Settled fuel stray k new_priority w alone =
    let (k', e, l) = set_priority-Left fuel stray k new_priority w alone in
    let p = clamp_priority new_priority in
    (k', p, e, clamp_priority-IsClamped new_priority, Left-Settled k k' p l)
