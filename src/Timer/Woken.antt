-- ===== src/Timer/Woken.antt =====
-- What timer_wake in pintos/src/devices/timer.c does to the threads and to the queue.
use course_cs439_operating_s.Base.{
  ℕ, ◌≡◌, refl, ◌≢◌, ◌⊎◌, inl, inr, true, false, List, [], ◌∷◌, arith, ◌==◌, All,
}
use course_cs439_operating_s.Base.Int.{ℤ, pos, ◌≤ℤ◌, ltb_ℤ}
use course_cs439_operating_s.Thread.{Tid, ready, blocked, Kernel, is_thread, update, set_status}
use course_cs439_operating_s.Thread.Sched.{WellFormed}
use course_cs439_operating_s.Thread.Ops.{unblocked}
use course_cs439_operating_s.Timer.{Sleeper}
use course_cs439_operating_s.Timer.Queue.{
  Waits, IsFree, IsSleepQueue, woken, all_woken, All-all_woken,
}

-- A sleeper that timer_wake at time `now` leaves alone, or of another thread than `u`.
abbrev pub IsLeft : ℕ → Tid → Sleeper → Type 0
IsLeft now u s =
    (s.remove_flag ≡ true) ⊎ (ltb_ℤ (pos now) s.wake_ticks ≡ true) ⊎ ((s.thread == u) ≡ false)

-- If the sleeper was due, its thread is ready.
abbrev pub IsReady : ℕ → Kernel → Sleeper → Type 0
IsReady now k s =
    (s.remove_flag ≡ true)
    ⊎ (ltb_ℤ (pos now) s.wake_ticks ≡ true)
    ⊎ ((k.threads s.thread).status ≡ ready)

-- What timer_wake at time `now` does.
pub record Woken (now : ℕ) (k : Kernel) (q : List Sleeper) (k' : Kernel) (q' : List Sleeper)
    : Type 0 where
  pub well_formed : WellFormed k'
  pub sleepers : IsSleepQueue k' q'
  pub queue : q' ≡ all_woken now q
  pub ready : All (IsReady now k') q
  pub others : (u : Tid) → All (IsLeft now u) q → k'.threads u ≡ k.threads u
  pub valid : (u : Tid) → is_thread k'.threads u ≡ is_thread k.threads u
  pub current : k'.current ≡ k.current
  pub idle : k'.idle_thread ≡ k.idle_thread

pub early-IsReady :
    (now : ℕ) (k : Kernel) (a : ℤ) (q : List Sleeper)
    → ltb_ℤ (pos now) a ≡ true
    → All (λ u. a ≤ℤ u.wake_ticks) q
    → All (IsReady now k) q
early-IsReady now k a [] e h = tt
early-IsReady now k a (u ∷ q) e h = (inr (inl (ground (arith, h.0))), early-IsReady now k a q e h.1)

-- Free sleepers are left alone.
pub IsFree-IsLeft : (now : ℕ) (u : Tid) (q : List Sleeper) → All (IsFree u) q → All (IsLeft now u) q
IsFree-IsLeft now u [] h = tt
IsFree-IsLeft now u (s ∷ q) (inl e, h) = (inl e, IsFree-IsLeft now u q h)
IsFree-IsLeft now u (s ∷ q) (inr e, h) = (inr (inr e), IsFree-IsLeft now u q h)

pub unblocked_elsewhere :
    (k : Kernel) (t u : Tid) → (u == t) ≡ false → (unblocked k t).threads u ≡ k.threads u
unfolding set_status update
unblocked_elsewhere k t u h = ground arith

pub tail-IsSleepQueue :
    (k : Kernel) (s : Sleeper) (rest : List Sleeper)
    → IsSleepQueue k (s ∷ rest)
    → IsSleepQueue k rest
tail-IsSleepQueue k s rest i = record { sorted = i.sorted.1; waits = i.waits.1; apart = i.apart.1 }

pub sleeping-Waits :
    (k : Kernel) (s : Sleeper)
    → s.remove_flag ≡ false
    → Waits k s
    → (is_thread k.threads s.thread ≡ true)
      × ((k.threads s.thread).status ≡ blocked)
      × ((s.thread == k.idle_thread) ≡ false)
sleeping-Waits k s e (inl f) = cc
sleeping-Waits k s e (inr w) = w

pub sleeping-IsFree :
    (s : Sleeper) (rest : List Sleeper)
    → s.remove_flag ≡ false
    → (s.remove_flag ≡ true) ⊎ All (IsFree s.thread) rest
    → All (IsFree s.thread) rest
sleeping-IsFree s rest e (inl f) = absurd (cc)
sleeping-IsFree s rest e (inr h) = h

pub ne_of_test : (a b : ℕ) → (a == b) ≡ false → a ≢ b
ne_of_test a b h = ground arith

late-woken :
    (now : ℕ) (s : Sleeper)
    → ltb_ℤ (pos now) s.wake_ticks ≡ false
    → woken now s ≡ record s { remove_flag = true }
unfolding woken
late-woken now s e = rw e refl

module _ (now : ℕ) (s : Sleeper) (rest : List Sleeper)
    (late : ltb_ℤ (pos now) s.wake_ticks ≡ false) where
  -- The rest of the queue was served from the state `k`, in which the first sleeper's thread is awake.
  pub join-IsSleepQueue :
      (k' : Kernel) (q' : List Sleeper)
      → All (λ u. s.wake_ticks ≤ℤ u.wake_ticks) rest
      → q' ≡ all_woken now rest
      → IsSleepQueue k' q'
      → IsSleepQueue k' (record s { remove_flag = true } ∷ q')
  join-IsSleepQueue k' q' first e w = record {
    sorted = (rw e (All-all_woken now s.wake_ticks rest first), w.sorted);
    waits = (inl refl, w.waits);
    apart = (inl refl, w.apart);
  }

  pub join-queue :
      (q' : List Sleeper)
      → q' ≡ all_woken now rest
      → record s { remove_flag = true } ∷ q' ≡ all_woken now (s ∷ rest)
  unfolding all_woken
  join-queue q' e = rw (late-woken now s late, e) refl
