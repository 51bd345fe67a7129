-- ===== src/Timer/Queue.antt =====
-- The queue of sleeping threads in pintos/src/devices/timer.c: in order of the time to wake up, and of
-- those that were not woken each is a thread of its own that is blocked.
use course_cs439_operating_s.Base.{
  ℕ, ◌≡◌, refl, ap, ◌∙◌, ◌⊎◌, inl, inr, true, false, List, [], ◌∷◌, arith, ◌==◌, if◌then◌else◌, All,
}
use course_cs439_operating_s.Base.Int.{ℤ, pos, ◌≤ℤ◌, ltb_ℤ}
use course_cs439_operating_s.Thread.{Tid, blocked, Thread, Kernel, is_thread}
use course_cs439_operating_s.Timer.{Sleeper}

abbrev pub IsSorted : List Sleeper → Type 0
IsSorted [] = Unit {0}
IsSorted (s ∷ rest) = All (λ u. s.wake_ticks ≤ℤ u.wake_ticks) rest × IsSorted rest

-- A sleeper that was woken, or a blocked thread other than the idle thread.
abbrev pub Waits : Kernel → Sleeper → Type 0
Waits k s =
    (s.remove_flag ≡ true)
    ⊎ (is_thread k.threads s.thread ≡ true)
      × ((k.threads s.thread).status ≡ blocked)
      × ((s.thread == k.idle_thread) ≡ false)

-- A sleeper that was woken, or of another thread than `t`.
abbrev pub IsFree : Tid → Sleeper → Type 0
IsFree t s = (s.remove_flag ≡ true) ⊎ ((s.thread == t) ≡ false)

abbrev pub IsApart : List Sleeper → Type 0
IsApart [] = Unit {0}
IsApart (s ∷ rest) = ((s.remove_flag ≡ true) ⊎ All (IsFree s.thread) rest) × IsApart rest

pub record IsSleepQueue (k : Kernel) (queue : List Sleeper) : Type 0 where
  pub sorted : IsSorted queue
  pub waits : All (Waits k) queue
  pub apart : IsApart queue

-- A sleeper after timer_wake at time `now`.
unfoldable pub woken : ℕ → Sleeper → Sleeper
woken now s = if ltb_ℤ (pos now) s.wake_ticks then s else record s { remove_flag = true }

unfoldable pub all_woken : ℕ → List Sleeper → List Sleeper
all_woken now [] = []
all_woken now (s ∷ rest) = woken now s ∷ all_woken now rest

-- Nobody is due behind a sleeper that is not.
pub all_woken_early :
    (now : ℕ) (s : Sleeper) (rest : List Sleeper)
    → ltb_ℤ (pos now) s.wake_ticks ≡ true
    → All (λ u. s.wake_ticks ≤ℤ u.wake_ticks) rest
    → all_woken now rest ≡ rest
unfolding all_woken woken
all_woken_early now s [] e h = refl
all_woken_early now s (u ∷ rest) e h =
    let later : ltb_ℤ (pos now) u.wake_ticks ≡ true = ground (arith, h.0) in
    rw (later, all_woken_early now s rest e h.1) refl

pub woken-wake_ticks : (now : ℕ) (s : Sleeper) → (woken now s).wake_ticks ≡ s.wake_ticks
unfolding woken
woken-wake_ticks now s = ground arith

pub All-all_woken :
    (now : ℕ) (a : ℤ) (q : List Sleeper)
    → All (λ u. a ≤ℤ u.wake_ticks) q
    → All (λ u. a ≤ℤ u.wake_ticks) (all_woken now q)
unfolding all_woken
All-all_woken now a [] h = tt
All-all_woken now a (u ∷ q) h = (rw (woken-wake_ticks now u) h.0, All-all_woken now a q h.1)

-- The state of the others is kept when only the thread `t` changes.
pub Waits-free :
    (k k' : Kernel) (t : Tid) (s : Sleeper)
    → ((u : Tid) → (u == t) ≡ false → k'.threads u ≡ k.threads u)
    → ((u : Tid) → is_thread k'.threads u ≡ is_thread k.threads u)
    → k'.idle_thread ≡ k.idle_thread
    → IsFree t s
    → Waits k s
    → Waits k' s
Waits-free k k' t s same valid idle free (inl e) = inl e
Waits-free k k' t s same valid idle (inl e) (inr w) = inl e
Waits-free k k' t s same valid idle (inr ne) (inr (v, b, i)) =
    inr (valid s.thread ∙ v, ap (λ (th : Thread). th.status) (same s.thread ne) ∙ b, rw idle i)

pub All-Waits-free :
    (k k' : Kernel) (t : Tid) (q : List Sleeper)
    → ((u : Tid) → (u == t) ≡ false → k'.threads u ≡ k.threads u)
    → ((u : Tid) → is_thread k'.threads u ≡ is_thread k.threads u)
    → k'.idle_thread ≡ k.idle_thread
    → All (IsFree t) q
    → All (Waits k) q
    → All (Waits k') q
All-Waits-free k k' t [] same valid idle free w = tt
All-Waits-free k k' t (s ∷ q) same valid idle free w = (
  Waits-free k k' t s same valid idle free.0 w.0,
  All-Waits-free k k' t q same valid idle free.1 w.1,
)
