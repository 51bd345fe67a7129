-- ===== src/Timer/Tick.antt =====
-- Timer interrupts in pintos/src/devices/timer.c, one after another, without the multi-level feedback queue
-- scheduler.
use mathlib.Core.Path.{subst}
use course_cs439_operating_s.Base.{
  ℕ, zero, suc, ◌+◌, ◌≡◌, refl, ap, ◌∙◌, ◌⊎◌, inl, inr, true, false, Option, some, List, [], ◌∷◌,
  arith, leb, ◌==◌, if◌then◌else◌, All, get_elem?, ◌>>=◌,
}
use course_cs439_operating_s.Base.Int.{pos, ◌≤ℤ◌, ltb_ℤ}
use course_cs439_operating_s.Thread.{Tid, ready, blocked, Thread, Kernel}
use course_cs439_operating_s.Thread.Sched.{WellFormed}
use course_cs439_operating_s.Timer.{
  Sleeper, Clock, time_slice, count_tick, timer_wake, thread_tick, timer_interrupt,
}
use course_cs439_operating_s.Timer.Queue.{Waits, IsSleepQueue, woken, all_woken}
use course_cs439_operating_s.Timer.Woken.{IsLeft, IsReady, Woken}
use course_cs439_operating_s.Timer.Wake.{timer_wake-Woken}

-- The kernel in which thread_tick calls timer_wake.
abbrev pub counted : Kernel → Kernel
counted k = record k { thread_ticks = suc k.thread_ticks }

counted-WellFormed : (k : Kernel) → WellFormed k → WellFormed (counted k)
counted-WellFormed k w = record {
  queue = w.queue;
  idle_valid = w.idle_valid;
  current_valid = w.current_valid;
  runs = w.runs;
  only = w.only;
}

counted-IsSleepQueue :
    (k : Kernel) (q : List Sleeper) → IsSleepQueue k q → IsSleepQueue (counted k) q
counted-IsSleepQueue k q i = record { sorted = i.sorted; waits = i.waits; apart = i.apart }

count_tick-kernel : (c : Clock) → (count_tick c).kernel ≡ c.kernel
unfolding count_tick
count_tick-kernel c = ground arith

count_tick-ticks : (c : Clock) → (count_tick c).ticks ≡ c.ticks
unfolding count_tick
count_tick-ticks c = ground arith

count_tick-queue : (c : Clock) → (count_tick c).queue ≡ c.queue
unfolding count_tick
count_tick-queue c = ground arith

-- A timer interrupt succeeds and does what timer_wake does at the next tick.
pub timer_interrupt-Woken :
    (fuel : ℕ) (c : Clock)
    → WellFormed c.kernel
    → IsSleepQueue c.kernel c.queue
    → (c' : Clock) × (timer_interrupt false fuel c ≡ some c')
      × (c'.ticks ≡ suc c.ticks)
      × Woken (suc c.ticks) (counted c.kernel) c.queue c'.kernel c'.queue
unfolding timer_interrupt thread_tick
timer_interrupt-Woken fuel c w i =
    let c1 : Clock = record c { ticks = suc c.ticks } in
    let (k', q', e, r) =
      timer_wake-Woken (suc c.ticks) (counted c.kernel) c.queue (counted-WellFormed c.kernel w)
        (counted-IsSleepQueue c.kernel c.queue i) in
    let cc = count_tick c1 in
    let e' : timer_wake cc.ticks (counted cc.kernel) cc.queue ≡ some (k', q') =
      rw (count_tick-ticks c1, count_tick-kernel c1, count_tick-queue c1) e in
    let c' : Clock = record cc {
      kernel = k';
      mlfqs = cc.mlfqs;
      queue = q';
      yield_on_return =
          if leb time_slice (suc cc.kernel.thread_ticks) then true else cc.yield_on_return;
    } in
    (c', rw e' refl, count_tick-ticks c1, r)

-- `n` timer interrupts, with thread_mlfqs false.
pub interrupts : (fuel n : ℕ) → Clock → Option Clock
interrupts fuel zero c = some c
interrupts fuel (suc n) c = do c' ← timer_interrupt false fuel c; interrupts fuel n c'

asleep_other :
    (ts : Tid → Thread) (t u : Tid)
    → (ts t).status ≡ blocked
    → (ts u).status ≡ ready
    → (t == u) ≡ false
asleep_other ts t u b r = ground arith

some_sleeper : {a b : Sleeper} → some a ≡ some b → a ≡ b
some_sleeper e = cc

ready-IsLeft :
    (now : ℕ) (k : Kernel) (t : Tid) (q : List Sleeper)
    → (k.threads t).status ≡ ready
    → All (Waits k) q
    → All (IsLeft now t) q
ready-IsLeft now k t [] r w = tt
ready-IsLeft now k t (s ∷ q) r (inl e, w) = (inl e, ready-IsLeft now k t q r w)
ready-IsLeft now k t (s ∷ q) r (inr (v, b, ne), w) =
    (inr (inr (asleep_other k.threads s.thread t b r)), ready-IsLeft now k t q r w)

-- A thread that is ready stays so.
interrupts-ready :
    (fuel n : ℕ) (c : Clock) (t : Tid)
    → WellFormed c.kernel
    → IsSleepQueue c.kernel c.queue
    → (c.kernel.threads t).status ≡ ready
    → (c' : Clock) × (interrupts fuel n c ≡ some c') × ((c'.kernel.threads t).status ≡ ready)
unfolding interrupts
interrupts-ready fuel zero c t w i r = (c, refl, r)
interrupts-ready fuel (suc n) c t w i r =
    let (c1, e1, ticks, wk) = timer_interrupt-Woken fuel c w i in
    let same = wk.others t (
      ready-IsLeft (suc c.ticks) (counted c.kernel) t c.queue r
        (counted-IsSleepQueue c.kernel c.queue i).waits) in
    let (c2, e2, r2) =
      interrupts-ready fuel n c1 t wk.well_formed wk.sleepers
        (ap (λ (th : Thread). th.status) same ∙ r) in
    (c2, rw e1 e2, r2)

IsReady-elem :
    (now : ℕ) (k : Kernel) (q : List Sleeper) (j : ℕ) {s : Sleeper}
    → All (IsReady now k) q
    → get_elem? q j ≡ some s
    → IsReady now k s
IsReady-elem now k [] j h e = absurd (cc)
IsReady-elem now k (u ∷ q) zero h e = subst (IsReady now k) (some_sleeper e) h.0
IsReady-elem now k (u ∷ q) (suc j) h e = IsReady-elem now k q j h.1 e

get_elem?-all_woken :
    (now : ℕ) (q : List Sleeper) (j : ℕ) {s : Sleeper}
    → get_elem? q j ≡ some s
    → get_elem? (all_woken now q) j ≡ some (woken now s)
unfolding all_woken
get_elem?-all_woken now [] j e = absurd (cc)
get_elem?-all_woken now (u ∷ q) zero e = ap (λ x. some (woken now x)) (some_sleeper e)
get_elem?-all_woken now (u ∷ q) (suc j) e = get_elem?-all_woken now q j e

early-woken : (now : ℕ) (s : Sleeper) → ltb_ℤ (pos now) s.wake_ticks ≡ true → woken now s ≡ s
unfolding woken
early-woken now s e = rw e refl

due_cases :
    (now : ℕ) (k : Kernel) (s : Sleeper)
    → s.remove_flag ≡ false
    → IsReady now k s
    → (ltb_ℤ (pos now) s.wake_ticks ≡ true) ⊎ ((k.threads s.thread).status ≡ ready)
due_cases now k s e (inl f) = absurd (cc)
due_cases now k s e (inr h) = h

not_early :
    (now : ℕ) (s : Sleeper) → ltb_ℤ (pos now) s.wake_ticks ≡ true → s.wake_ticks ≤ℤ pos now → ⊥
not_early now s e h = ground arith

-- Without the multi-level feedback queue scheduler (thread_mlfqs is false), from a state that satisfies the scheduler's
-- invariant, with a queue in order whose sleepers are blocked threads, one or more timer interrupts with
-- nothing between them succeed, and a thread that sleeps is ready after them if its time to wake up is
-- at most the tick that they reach.
pub interrupts_wake :
    (fuel n : ℕ) (c : Clock) (j : ℕ) {s : Sleeper}
    → WellFormed c.kernel
    → IsSleepQueue c.kernel c.queue
    → get_elem? c.queue j ≡ some s
    → s.remove_flag ≡ false
    → s.wake_ticks ≤ℤ pos (c.ticks + suc n)
    → (c' : Clock) × (interrupts fuel (suc n) c ≡ some c')
      × ((c'.kernel.threads s.thread).status ≡ ready)
unfolding interrupts
interrupts_wake fuel zero c j {s} w i e awake due =
    let (c1, e1, ticks, wk) = timer_interrupt-Woken fuel c w i in
    let r = IsReady-elem (suc c.ticks) c1.kernel c.queue j wk.ready e in
    elim (due_cases (suc c.ticks) c1.kernel s awake r) [
      | inr r ↦ (c1, rw e1 refl, r)
      | inl early ↦ absurd (not_early (suc c.ticks) s early (omega (arith, due)))
    ]
interrupts_wake fuel (suc n) c j {s} w i e awake due =
    let (c1, e1, ticks, wk) = timer_interrupt-Woken fuel c w i in
    let r = IsReady-elem (suc c.ticks) c1.kernel c.queue j wk.ready e in
    elim (due_cases (suc c.ticks) c1.kernel s awake r) [
      | inr r ↦
          let (c2, e2, r2) =
            interrupts-ready fuel (suc n) c1 s.thread wk.well_formed wk.sleepers r in
          (c2, rw e1 e2, r2)
      | inl early ↦
          let listed : get_elem? c1.queue j ≡ some s = rw wk.queue (
            get_elem?-all_woken (suc c.ticks) c.queue j e
            ∙ ap some (early-woken (suc c.ticks) s early)) in
          let (c2, e2, r2) =
            interrupts_wake fuel n c1 j wk.well_formed wk.sleepers listed awake
              (rw ticks (omega (arith, due))) in
          (c2, rw e1 e2, r2)
    ]
