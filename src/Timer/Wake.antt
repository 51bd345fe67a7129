-- ===== src/Timer/Wake.antt =====
-- timer_wake in pintos/src/devices/timer.c wakes the sleepers that are due, no others.
use course_cs439_operating_s.Base.{
  ℕ, ◌≡◌, refl, ap, ◌∙◌, inl, inr, true, false, some, List, [], ◌∷◌, arith, ◌==◌, All, Bool-cases,
  ◌>>=◌,
}
use course_cs439_operating_s.Base.Int.{pos, ltb_ℤ}
use course_cs439_operating_s.Thread.{Tid, ready, Thread, Kernel, thread_unblock}
use course_cs439_operating_s.Thread.Sched.{WellFormed, set_status-is_thread, set_status_self}
use course_cs439_operating_s.Thread.Ops.{unblocked, thread_unblock_lem}
use course_cs439_operating_s.Timer.{Sleeper, wake_loop, timer_wake}
use course_cs439_operating_s.Timer.Queue.{
  IsFree, IsSleepQueue, woken, all_woken, all_woken_early, All-Waits-free,
}
use course_cs439_operating_s.Timer.Woken.{
  IsLeft, Woken, early-IsReady, IsFree-IsLeft, unblocked_elsewhere, tail-IsSleepQueue,
  sleeping-Waits, sleeping-IsFree, ne_of_test, join-IsSleepQueue, join-queue,
}

module _ (now : ℕ) (s : Sleeper) (rest : List Sleeper)
    (late : ltb_ℤ (pos now) s.wake_ticks ≡ false) where
  -- A sleeper that was woken before is left alone.
  flagged-Woken :
      (k k' : Kernel) (q' : List Sleeper)
      → s.remove_flag ≡ true
      → IsSleepQueue k (s ∷ rest)
      → Woken now k rest k' q'
      → Woken now k (s ∷ rest) k' (record s { remove_flag = true } ∷ q')
  flagged-Woken k k' q' flag i w = record {
    well_formed = w.well_formed;
    sleepers = join-IsSleepQueue now s rest late k' q' i.sorted.0 w.queue w.sleepers;
    queue = join-queue now s rest late q' w.queue;
    ready = (inl flag, w.ready);
    others = λ u h. w.others u h.1;
    valid = w.valid;
    current = w.current;
    idle = w.idle;
  }

  -- The thread of a sleeper that is due is made ready.
  sleeping-Woken :
      (k k' : Kernel) (q' : List Sleeper)
      → s.remove_flag ≡ false
      → IsSleepQueue k (s ∷ rest)
      → All (IsFree s.thread) rest
      → Woken now (unblocked k s.thread) rest k' q'
      → Woken now k (s ∷ rest) k' (record s { remove_flag = true } ∷ q')
  sleeping-Woken k k' q' flag i free w = record {
    well_formed = w.well_formed;
    sleepers = join-IsSleepQueue now s rest late k' q' i.sorted.0 w.queue w.sleepers;
    queue = join-queue now s rest late q' w.queue;
    ready = (
      inr (
          inr (
            ap (λ (th : Thread). th.status)
              (w.others s.thread (IsFree-IsLeft now s.thread rest free))
            ∙ set_status_self k.threads s.thread ready)),
      w.ready,
    );
    others = λ u h. w.others u h.1 ∙ unblocked_elsewhere k s.thread u (other_thread u h.0);
    valid = λ u. w.valid u ∙ set_status-is_thread k.threads s.thread ready u;
    current = w.current;
    idle = w.idle;
  }
    where
      other_thread : (u : Tid) → IsLeft now u s → (u == s.thread) ≡ false
      other_thread u (inl e) = cc
      other_thread u (inr (inl e)) = cc
      other_thread u (inr (inr e)) = ground arith

  wake_step_flagged :
      (k : Kernel)
      → s.remove_flag ≡ true
      → wake_loop now k (s ∷ rest) ≡ (do
        (k'', rest') ← wake_loop now k rest
        some (k'', record s { remove_flag = true } ∷ rest'))
  unfolding wake_loop
  wake_step_flagged k flag = rw (wake_loop, late, flag) refl

  wake_step_sleeping :
      (k k1 : Kernel)
      → s.remove_flag ≡ false
      → thread_unblock k s.thread ≡ some k1
      → wake_loop now k (s ∷ rest) ≡ (do
        (k'', rest') ← wake_loop now k1 rest
        some (k'', record s { remove_flag = true } ∷ rest'))
  unfolding wake_loop
  wake_step_sleeping k k1 flag e = rw (wake_loop, late, flag, e) refl

-- If the first sleeper is not due, none is.
early-Woken :
    (now : ℕ) (k : Kernel) (s : Sleeper) (rest : List Sleeper)
    → ltb_ℤ (pos now) s.wake_ticks ≡ true
    → WellFormed k
    → IsSleepQueue k (s ∷ rest)
    → (wake_loop now k (s ∷ rest) ≡ some (k, s ∷ rest)) × Woken now k (s ∷ rest) k (s ∷ rest)
unfolding wake_loop all_woken woken
early-Woken now k s rest early w i = (
  rw (wake_loop, early) refl,
  record {
    well_formed = w;
    sleepers = i;
    queue = rw (early, all_woken_early now s rest early i.sorted.0) refl;
    ready = (inr (inl early), early-IsReady now k s.wake_ticks rest early i.sorted.0);
    others = λ u h. refl;
    valid = λ u. refl;
    current = refl;
    idle = refl;
  },
)

pub wake_loop-Woken :
    (now : ℕ) (k : Kernel) (q : List Sleeper)
    → WellFormed k
    → IsSleepQueue k q
    → (k' : Kernel) × (q' : List Sleeper) × (wake_loop now k q ≡ some (k', q'))
      × Woken now k q k' q'
unfolding wake_loop all_woken
wake_loop-Woken now k [] w i = (
  k,
  [],
  refl,
  record {
    well_formed = w;
    sleepers = i;
    queue = refl;
    ready = tt;
    others = λ u h. refl;
    valid = λ u. refl;
    current = refl;
    idle = refl;
  },
)
wake_loop-Woken now k (s ∷ rest) w i = elim (Bool-cases (ltb_ℤ (pos now) s.wake_ticks)) [
  | inl early ↦ let (e, r) = early-Woken now k s rest early w i in (k, s ∷ rest, e, r)
  | inr late ↦ elim (Bool-cases s.remove_flag) [
    | inl flag ↦
        let (k', q', e, r) = wake_loop-Woken now k rest w (tail-IsSleepQueue k s rest i) in
        (
          k',
          record s { remove_flag = true } ∷ q',
          wake_step_flagged now s rest late k flag ∙ rw e refl,
          flagged-Woken now s rest late k k' q' flag i r,
        )
    | inr awake ↦
        let (v, b, ne) = sleeping-Waits k s awake i.waits.0 in
        let (u, w1) = thread_unblock_lem k s.thread w v b (ne_of_test s.thread k.idle_thread ne) in
        let free = sleeping-IsFree s rest awake i.apart.0 in
        let i1 : IsSleepQueue (unblocked k s.thread) rest = record {
          sorted = i.sorted.1;
          waits =
              All-Waits-free k (unblocked k s.thread) s.thread rest (unblocked_elsewhere k s.thread)
                (set_status-is_thread k.threads s.thread ready) refl free i.waits.1;
          apart = i.apart.1;
        } in
        let (k', q', e, r) = wake_loop-Woken now (unblocked k s.thread) rest w1 i1 in
        (
          k',
          record s { remove_flag = true } ∷ q',
          wake_step_sleeping now s rest late k (unblocked k s.thread) awake u ∙ rw e refl,
          sleeping-Woken now s rest late k k' q' awake i free r,
        )
  ]
]

-- From a state that satisfies the scheduler's invariant, with a queue in order whose sleepers are blocked threads,
-- timer_wake succeeds: the thread of each sleeper that is due is ready, the sleeper is marked, all other threads and
-- sleepers are as they were, and both invariants hold again.
pub timer_wake-Woken :
    (now : ℕ) (k : Kernel) (q : List Sleeper)
    → WellFormed k
    → IsSleepQueue k q
    → (k' : Kernel) × (q' : List Sleeper) × (timer_wake now k q ≡ some (k', q'))
      × Woken now k q k' q'
unfolding timer_wake
timer_wake-Woken now k q w i = wake_loop-Woken now k q w i
