-- ===== src/Timer/Tests.antt =====
-- Runs of the timer in the state of Thread.Tests, where thread 2 runs and threads 5 and 6 sleep.
use course_cs439_operating_s.Base.{
  ℕ, ◌≡◌, refl, inl, inr, Bool, true, false, Option, some, none, List, [], ◌∷◌, ◌++◌, arith,
}
use course_cs439_operating_s.Base.Int.{pos}
use course_cs439_operating_s.Thread.{
  Tid, ready, blocked, Kernel, is_thread, thread_unblock, insert_unblocked, set_status,
}
use course_cs439_operating_s.Thread.Switch.{Switched, stopped}
use course_cs439_operating_s.Thread.Tests.{busy, busy-WellFormed}
use course_cs439_operating_s.Timer.{
  Sleeper, Clock, insert_sleeper, timer_sleep, wake_loop, timer_wake,
}
use course_cs439_operating_s.Timer.Queue.{IsSleepQueue}
use course_cs439_operating_s.Timer.Insert.{asleep}
use course_cs439_operating_s.Timer.Woken.{Woken}
use course_cs439_operating_s.Timer.Wake.{timer_wake-Woken}
use course_cs439_operating_s.Timer.Sleep.{new_sleeper, timer_sleep-IsSleepQueue}
use course_cs439_operating_s.Timer.Tick.{interrupts, interrupts_wake}

abbrev sleeper : ℕ → Tid → Bool → Sleeper
sleeper ticks t flag = record { wake_ticks = pos ticks; thread = t; remove_flag = flag }

-- Thread 5 was woken before, for the first of its two sleeps.
abbrev queue : List Sleeper
queue = sleeper 8 5 true ∷ sleeper 10 5 false ∷ sleeper 12 6 false ∷ []

queue-IsSleepQueue : IsSleepQueue busy queue
unfolding is_thread
queue-IsSleepQueue = record {
  sorted = omega arith;
  waits = (inl refl, (inr (refl, refl, refl), (inr (refl, refl, refl), tt)));
  apart = (inl refl, (inr (inr refl, tt), (inr tt, tt)));
}

abbrev shown : Option (Kernel × List Sleeper) → List Tid × List Sleeper
shown none = ([], [])
shown (some (k, q)) = (k.ready_list, q)

wake_at_ten :
    shown (timer_wake 10 busy queue)
    ≡ (3 ∷ 4 ∷ 5 ∷ [], sleeper 8 5 true ∷ sleeper 10 5 true ∷ sleeper 12 6 false ∷ [])
unfolding timer_wake wake_loop thread_unblock insert_unblocked set_status is_thread
wake_at_ten = refl

-- A negative time to sleep ends at the next tick.
insert_in_order :
    insert_sleeper (sleeper 10 2 false) queue
    ≡ sleeper 10 5 false ∷ sleeper 10 2 false ∷ sleeper 12 6 false ∷ []
unfolding insert_sleeper
insert_in_order = refl

abbrev clock : Clock
clock = record {
  ticks = 9;
  kernel = busy;
  mlfqs = record { nice = λ t. pos 0; recent_cpu = λ t. pos 0; load_avg = pos 0; all_list = [] };
  queue = queue;
  user = λ t. false;
  idle_ticks = 0;
  kernel_ticks = 0;
  user_ticks = 0;
  yield_on_return = false;
}

timer_wake-Woken_example :
    (k' : Kernel) × (q' : List Sleeper) × (timer_wake 10 busy queue ≡ some (k', q'))
    × Woken 10 busy queue k' q'
timer_wake-Woken_example = timer_wake-Woken 10 busy queue busy-WellFormed queue-IsSleepQueue

timer_sleep-IsSleepQueue_example :
    (k' : Kernel) × (q' : List Sleeper) × (timer_sleep true 9 busy queue (pos 2) ≡ some (k', q'))
    × Switched (stopped busy blocked) k'
    × IsSleepQueue k' q'
    × ((front : List Sleeper) × (back : List Sleeper) × (queue ≡ front ++ back)
        × (q' ≡ asleep front ++ new_sleeper busy 9 (pos 2) ∷ back))
timer_sleep-IsSleepQueue_example =
    timer_sleep-IsSleepQueue 9 busy queue (pos 2) busy-WellFormed queue-IsSleepQueue refl

interrupts_wake_example :
    (c' : Clock) × (interrupts 0 3 clock ≡ some c') × ((c'.kernel.threads 6).status ≡ ready)
interrupts_wake_example =
    interrupts_wake 0 2 clock 2 busy-WellFormed queue-IsSleepQueue refl refl (omega arith)
