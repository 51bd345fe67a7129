-- ===== src/Timer/Sleep.antt =====
-- timer_sleep in pintos/src/devices/timer.c puts the running thread among the sleepers, in order, and
-- another thread runs.
use mathlib.Core.Path.{subst}
use course_cs439_operating_s.Base.{
  ℕ, ◌≡◌, refl, ◌∙◌, ◌≢◌, inl, inr, true, false, some, List, [], ◌∷◌, ◌++◌, arith, ◌==◌, All,
  Bool-cases, ==_iff,
}
use course_cs439_operating_s.Base.Int.{ℤ, pos, ◌+ℤ◌}
use course_cs439_operating_s.Thread.{Tid, Threads, Status, running, ready, blocked, Kernel}
use course_cs439_operating_s.Thread.Sched.{
  WellFormed, set_status-is_thread, set_status_self, set_status_ne,
}
use course_cs439_operating_s.Thread.Switch.{Switched, stopped}
use course_cs439_operating_s.Thread.Ops.{thread_block_lem}
use course_cs439_operating_s.Timer.{Sleeper, insert_sleeper, timer_sleep}
use course_cs439_operating_s.Timer.Queue.{Waits, IsFree, IsSleepQueue}
use course_cs439_operating_s.Timer.Insert.{
  asleep, insert_sleeper-asleep, insert-All, insert-IsSorted, insert-IsApart,
}

blocked_other :
    (ts : Threads) (t u : Tid)
    → (ts t).status ≡ blocked
    → (ts u).status ≡ running
    → (t == u) ≡ false
blocked_other ts t u b r = ground arith

awake-IsFree :
    (k : Kernel) (q : List Sleeper)
    → (k.threads k.current).status ≡ running
    → All (Waits k) q
    → All (IsFree k.current) q
awake-IsFree k [] r w = tt
awake-IsFree k (s ∷ q) r (inl e, w) = (inl e, awake-IsFree k q r w)
awake-IsFree k (s ∷ q) r (inr (v, b, ne), w) =
    (inr (blocked_other k.threads s.thread k.current b r), awake-IsFree k q r w)

status_differ : (x : Status) → x ≡ blocked → x ≢ ready
status_differ x e f = cc

runs_differ : (x : Status) → x ≡ running → x ≢ ready
runs_differ x e f = cc

module _ (k k' : Kernel) (w : WellFormed k) (s : Switched (stopped k blocked) k') where
  -- A thread that was not ready, other than the idle thread, is not the one that runs after the switch.
  current_other :
      (t : Tid)
      → (k.threads t).status ≢ ready
      → (t == k.idle_thread) ≡ false
      → (t == k'.current) ≡ false
  current_other t b ne = elim s.head [ inl (empty, e, rest) ↦ rw e ne | inr e ↦ in_list e ]
    where
      in_list : k.ready_list ≡ k'.current ∷ k'.ready_list → (t == k'.current) ≡ false
      in_list e =
          let waiting : All (λ u. (k.threads u).status ≡ ready) (k'.current ∷ k'.ready_list) =
            subst (All (λ u. (k.threads u).status ≡ ready)) e w.queue.waiting in
          elim (Bool-cases (t == k'.current)) [
            | inl same ↦ absurd (b (rw ((==_iff t k'.current).0 same) waiting.0))
            | inr other ↦ other
          ]

  -- A thread other than the running one and the idle thread sleeps on.
  Waits-switch : (q : List Sleeper) → All (Waits k) q → All (Waits k') q
  Waits-switch [] h = tt
  Waits-switch (u ∷ q) (inl e, h) = (inl e, Waits-switch q h)
  Waits-switch (u ∷ q) (inr (v, b, ne), h) =
      let still : (u.thread == k.current) ≡ false =
        blocked_other k.threads u.thread k.current b w.runs in
      (
        inr (
          s.valid u.thread ∙ set_status-is_thread k.threads k.current blocked u.thread ∙ v,
          s.others u.thread (current_other u.thread (λ r. status_differ _ b r) ne)
              ∙ set_status_ne k.threads k.current blocked u.thread still
              ∙ b,
          rw s.idle ne,
        ),
        Waits-switch q h,
      )

  -- The thread that went to sleep waits.
  current-Waits :
      (new : Sleeper) → new.thread ≡ k.current → (k.current == k.idle_thread) ≡ false → Waits k' new
  current-Waits new e ne = rw e (
      inr (
        s.valid k.current
            ∙ set_status-is_thread k.threads k.current blocked k.current
            ∙ w.current_valid,
        s.others k.current (current_other k.current (λ r. runs_differ _ w.runs r) ne)
            ∙ set_status_self k.threads k.current blocked,
        rw s.idle ne,
      ))

-- The sleeper that timer_sleep makes.
abbrev pub new_sleeper : Kernel → (now : ℕ) (ticks : ℤ) → Sleeper
new_sleeper k now ticks = record {
  wake_ticks = pos now +ℤ ticks;
  thread = k.current;
  remove_flag = false;
}

-- With memory to spare, in a state that satisfies the scheduler's invariant, with a queue in order whose sleepers
-- are blocked threads, timer_sleep of a thread other than the idle thread succeeds: another thread runs, the scheduler's
-- invariant holds again, and the queue, in order again, holds the new sleeper, those in front of it that
-- were not woken and all those behind it.
pub timer_sleep-IsSleepQueue :
    (now : ℕ) (k : Kernel) (q : List Sleeper) (ticks : ℤ)
    → WellFormed k
    → IsSleepQueue k q
    → (k.current == k.idle_thread) ≡ false
    → (k' : Kernel) × (q' : List Sleeper) × (timer_sleep true now k q ticks ≡ some (k', q'))
      × Switched (stopped k blocked) k'
      × IsSleepQueue k' q'
      × ((front : List Sleeper) × (back : List Sleeper) × (q ≡ front ++ back)
          × (q' ≡ asleep front ++ new_sleeper k now ticks ∷ back))
unfolding timer_sleep
timer_sleep-IsSleepQueue now k q ticks w i ne =
    let new = new_sleeper k now ticks in
    let (k', e, s) = thread_block_lem k w in
    (
      k',
      insert_sleeper new q,
      rw e refl,
      s,
      record {
        sorted = insert-IsSorted new q i.sorted;
        waits =
            insert-All new (Waits k') q (current-Waits k k' w s new refl ne)
              (Waits-switch k k' w s q i.waits);
        apart = insert-IsApart new q (awake-IsFree k q w.runs i.waits) i.apart;
      },
      insert_sleeper-asleep new q,
    )
