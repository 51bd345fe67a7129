-- ===== src/Mlfqs/Tests.antt =====
-- Runs of the priorities that change, in the state of Thread.Tests where thread 2 runs with priority 31 and
-- thread 3 is ready with priority 40.
use course_cs439_operating_s.Base.{
  ℕ, ◌≤◌, ◌≡◌, refl, Option, some, none, List, [], ◌∷◌, arith, ◌==◌, if◌then◌else◌,
}
use course_cs439_operating_s.Base.Int.{ℤ, pos, negsuc, ◌+ℤ◌, ◌-ℤ◌, ◌*ℤ◌, quotient, to_int}
use course_cs439_operating_s.FixedPoint.{float, round, add_f, sub_f, mul_f, add_i, mul_i, div_i}
use course_cs439_operating_s.FixedPoint.Round.{IsNearest}
use course_cs439_operating_s.Thread.{Kernel, is_thread, update}
use course_cs439_operating_s.Thread.Tests.{busy, busy-WellFormed}
use course_cs439_operating_s.Donation.{active_priority, highest_donated, update_active_priority}
use course_cs439_operating_s.Mlfqs.{
  Mlfqs, clamp_priority, mlfqs_priority, set_native, thread_set_priority, next_load_avg,
  priority_loop, tick_mlfqs,
}
use course_cs439_operating_s.Mlfqs.Priority.{exact_priority, mlfqs_priority-IsNearest}
use course_cs439_operating_s.Mlfqs.Set.{Settled, IsClamped, thread_set_priority-Settled}

-- 63 - 10 / 4 - 5 * 2 is 50.5.
priority_rounded : mlfqs_priority (pos 40960) (pos 5) ≡ some (pos 51)
unfolding mlfqs_priority float round add_f sub_f mul_i div_i ◌+ℤ◌ ◌-ℤ◌ ◌*ℤ◌ quotient to_int
priority_rounded = refl

-- With two threads that could run the load average goes from 0 to 2 / 60, rounded down.
load_of_two : next_load_avg (pos 0) 2 ≡ some (pos 136)
unfolding next_load_avg float add_f mul_f mul_i div_i ◌+ℤ◌ ◌*ℤ◌ quotient to_int
load_of_two = refl

abbrev before : Mlfqs
before = record {
  nice = λ t. if t == 3 then pos 10 else pos 0;
  recent_cpu = λ t. pos 0;
  load_avg = pos 4096;
  all_list = 2 ∷ 3 ∷ [];
}

abbrev natives : Option (Kernel × Mlfqs) → List ℕ
natives none = []
natives (some (k, m)) = (k.threads 2).native_priority ∷ (k.threads 3).native_priority ∷ []

-- The tick counts for thread 2, and thread 3 is nice.
fourth_tick : natives (tick_mlfqs 1 4 busy before) ≡ 63 ∷ 43 ∷ []
unfolding tick_mlfqs priority_loop mlfqs_priority clamp_priority set_native update
    update_active_priority active_priority highest_donated is_thread float round add_f sub_f add_i
    mul_i div_i ◌+ℤ◌ ◌-ℤ◌ ◌*ℤ◌ quotient to_int
fourth_tick = refl

mlfqs_priority-IsNearest_example :
    (r : ℤ) × (mlfqs_priority (pos 40960) (negsuc 4) ≡ some r)
    × IsNearest (exact_priority (pos 40960) (negsuc 4)) r
    × (clamp_priority r ≤ 63)
mlfqs_priority-IsNearest_example =
    mlfqs_priority-IsNearest (pos 40960) (negsuc 4) (omega arith, omega arith) (omega arith)
      (omega arith)

thread_set_priority-Settled_example :
    (k' : Kernel) × (p : ℕ) × (thread_set_priority 1 0 busy (pos 35) ≡ some k')
    × IsClamped (pos 35) p
    × Settled busy p k'
unfolding is_thread
thread_set_priority-Settled_example =
    thread_set_priority-Settled 0 0 busy (pos 35) busy-WellFormed refl
