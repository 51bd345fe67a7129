-- ===== src/Mlfqs.antt =====
-- Priorities that change: thread_set_priority, thread_set_nice and the part of thread_tick for the
-- multi-level feedback queue scheduler, in pintos/src/threads/thread.c. `none` is a failed ASSERT, a division
-- by 0, or a chain of donations that is longer than `fuel`. `stray` is the number that stands where
-- the priority of the first thread that is ready would be, if none is ready.
pub mod Priority
pub mod Own
pub mod Set
mod Tests
use course_cs439_operating_s.Base.{
  ℕ, suc, ◌%◌, Bool, Option, none, some, List, [], ◌∷◌, ltb, ◌==◌, if◌then◌else◌, ◌>>=◌,
}
use course_cs439_operating_s.Base.Int.{ℤ, pos, negsuc, pos_part, ltb_ℤ}
use course_cs439_operating_s.FixedPoint.{
  float, round, add_f, sub_f, mul_f, div_f, add_i, mul_i, div_i,
}
use course_cs439_operating_s.Thread.{Tid, pri_min, pri_max, Threads, Kernel, update, thread_yield}
use course_cs439_operating_s.Donation.{update_active_priority}

-- The fields of struct thread and the variables that only this scheduler uses.
pub record Mlfqs : Type 0 where
  pub nice : Tid → ℤ
  pub recent_cpu : Tid → ℤ
  pub load_avg : ℤ
  pub all_list : List Tid

abbrev pub timer_freq : ℕ
timer_freq = 100

abbrev put : (Tid → ℤ) → Tid → ℤ → Tid → ℤ
put f t v u = if u == t then v else f u

pub clamp_priority : ℤ → ℕ
clamp_priority p =
    if ltb_ℤ p (pos pri_min) then pri_min else if ltb_ℤ (pos pri_max) p then pri_max else pos_part p

pub clamp_nice : ℤ → ℤ
clamp_nice nice =
    if ltb_ℤ nice (negsuc 19) then negsuc 19 else if ltb_ℤ (pos 20) nice then pos 20 else nice

-- PRI_MAX - recent_cpu / 4 - nice * 2, rounded.
pub mlfqs_priority : (recent_cpu nice : ℤ) → Option ℤ
mlfqs_priority recent_cpu nice = do
  quarter ← div_i recent_cpu (pos 4)
  round (sub_f (float (pos pri_max)) (add_f quarter (mul_i (float nice) (pos 2))))

pub set_native : Threads → Tid → ℕ → Threads
set_native ts t p = update ts t (record (ts t) { native_priority = p })

-- The priority of the first thread that is ready.
pub head_priority : Threads → (stray : ℕ) → List Tid → ℕ
head_priority ts stray [] = stray
head_priority ts stray (head ∷ rest) = (ts head).priority

pub thread_set_priority : (fuel stray : ℕ) → Kernel → ℤ → Option Kernel
thread_set_priority fuel stray k new_priority = do
  ts ←
      update_active_priority fuel (set_native k.threads k.current (clamp_priority new_priority))
        k.current
  let k' = record k { threads = ts }
  if ltb (ts k.current).priority (head_priority ts stray k.ready_list)
      then thread_yield k'
      else some k'

pub thread_set_nice : (fuel stray : ℕ) → Kernel → Mlfqs → ℤ → Option (Kernel × Mlfqs)
thread_set_nice fuel stray k m nice = do
  let nices = put m.nice k.current (clamp_nice nice)
  priority ← mlfqs_priority (m.recent_cpu k.current) (nices k.current)
  k' ← thread_set_priority fuel stray k priority
  some (k', record m { nice = nices })

pub frac59 : Option ℤ
frac59 = div_i (float (pos 59)) (pos 60)

pub frac01 : Option ℤ
frac01 = div_i (float (pos 1)) (pos 60)

pub next_load_avg : (load_avg : ℤ) (ready : ℕ) → Option ℤ
unfolding frac59 frac01
next_load_avg load_avg ready = do
  f59 ← frac59
  f01 ← frac01
  old ← mul_f f59 load_avg
  some (add_f old (mul_i f01 (pos ready)))

pub next_recent_cpu : (load_avg recent_cpu nice : ℤ) → Option ℤ
next_recent_cpu load_avg recent_cpu nice = do
  decay ← div_f (mul_i load_avg (pos 2)) (add_i (mul_i load_avg (pos 2)) (pos 1))
  old ← mul_f decay recent_cpu
  some (add_i old nice)

-- The loops of thread_tick over all_list.
pub cpu_loop : (load_avg : ℤ) (nice recent_cpu : Tid → ℤ) → List Tid → Option (Tid → ℤ)
cpu_loop load_avg nice recent_cpu [] = some recent_cpu
cpu_loop load_avg nice recent_cpu (tp ∷ rest) = do
  cpu ← next_recent_cpu load_avg (recent_cpu tp) (nice tp)
  cpu_loop load_avg nice (put recent_cpu tp cpu) rest

pub priority_loop : (fuel : ℕ) (nice recent_cpu : Tid → ℤ) → Threads → List Tid → Option Threads
priority_loop fuel nice recent_cpu ts [] = some ts
priority_loop fuel nice recent_cpu ts (tp ∷ rest) = do
  p ← mlfqs_priority (recent_cpu tp) (nice tp)
  ts' ← update_active_priority fuel (set_native ts tp (clamp_priority p)) tp
  priority_loop fuel nice recent_cpu ts' rest

-- "Every second": the load average and the recent CPU time of all threads.
pub tick_second : Kernel → Mlfqs → Option Mlfqs
tick_second k m = do
  load ←
      next_load_avg m.load_avg
        (if k.current == k.idle_thread then k.ready_threads else suc k.ready_threads)
  cpu ← cpu_loop load m.nice m.recent_cpu m.all_list
  some (record m { load_avg = load; recent_cpu = cpu })

-- The part of thread_tick under thread_mlfqs, at `tick`.
pub tick_mlfqs : (fuel tick : ℕ) → Kernel → Mlfqs → Option (Kernel × Mlfqs)
tick_mlfqs fuel tick k m = do
  m1 ← if tick % timer_freq == 0 then tick_second k m else some m
  let cpu = put m1.recent_cpu k.current (add_i (m1.recent_cpu k.current) (pos 1))
  let m2 = if k.current == k.idle_thread then m1 else record m1 { recent_cpu = cpu }
  ts ←
      if tick % 4 == 0
      then priority_loop fuel m2.nice m2.recent_cpu k.threads m2.all_list
      else some k.threads
  some (record k { threads = ts }, m2)
