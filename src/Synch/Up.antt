-- ===== src/Synch/Up.antt =====
-- What sema_up and the loop of sema_down in pintos/src/threads/synch.c do to the threads.
use course_cs439_operating_s.Base.{
  ℕ, suc, ◌≤◌, ◌<◌, ◌≡◌, refl, ap, ◌≢◌, ◌⊎◌, inl, inr, true, false, none, some, List, [], ◌∷◌, ◌++◌,
  arith, leb, Bool-cases, All,
}
use course_cs439_operating_s.Thread.{Tid, blocked, Kernel, is_thread, thread_unblock, thread_yield}
use course_cs439_operating_s.Thread.Sched.{WellFormed, set_status-priority}
use course_cs439_operating_s.Thread.Switch.{Switched}
use course_cs439_operating_s.Thread.Ops.{thread_yield_lem, thread_unblock_lem, yielded, unblocked}
use course_cs439_operating_s.Synch.{Semaphore, highest_waiter, list_remove, sema_up}
use course_cs439_operating_s.Synch.Waiters.{
  First, highest_waiter-First, list_remove-First, All-First,
}

-- A thread that may wait for a semaphore.
abbrev pub Waiting : Kernel → Tid → Type 0
Waiting k t =
    (is_thread k.threads t ≡ true) × ((k.threads t).status ≡ blocked) × (t ≢ k.idle_thread)

-- What sema_up does if there are waiters.
pub record Woken (k : Kernel) (s : Semaphore) (k' : Kernel) (s' : Semaphore) : Type 0 where
  pub woken : Tid
  pub first : First k.threads s.waiters woken
  pub rest : s'.waiters ≡ first.front ++ first.back
  pub value : s'.value ≡ suc s.value
  pub switch :
      (((k.threads woken).priority < (k.threads k.current).priority) × (k' ≡ unblocked k woken))
      ⊎ (((k.threads k.current).priority ≤ (k.threads woken).priority)
          × Switched (yielded (unblocked k woken)) k')

current_priority :
    (k : Kernel) (w : Tid)
    → ((unblocked k w).threads k.current).priority ≡ (k.threads k.current).priority
current_priority k w = ap (λ f. f k.current) (set_status-priority k.threads w _)

-- The two ends of sema_up.
module _ (k : Kernel) (s : Semaphore) (w : Tid) (k' : Kernel)
    (found : highest_waiter k.threads none s.waiters ≡ some w)
    (done : thread_unblock k w ≡ some k') where
  sema_up_stays :
      leb (k'.threads k'.current).priority (k.threads w).priority ≡ false
      → sema_up k s ≡ some (k', record { value = suc s.value; waiters = list_remove w s.waiters })
  unfolding sema_up
  sema_up_stays below = rw (sema_up, found, done, below)

  sema_up_yields :
      (k'' : Kernel)
      → leb (k'.threads k'.current).priority (k.threads w).priority ≡ true
      → thread_yield k' ≡ some k''
      → sema_up k s ≡ some (k'', record { value = suc s.value; waiters = list_remove w s.waiters })
  unfolding sema_up
  sema_up_yields k'' reached next = rw (sema_up, found, done, reached, next)

sema_up-Woken :
    (k : Kernel) (s : Semaphore) (w : Tid)
    → WellFormed k
    → Waiting k w
    → highest_waiter k.threads none s.waiters ≡ some w
    → First k.threads s.waiters w
    → (k' : Kernel) × (s' : Semaphore) × (sema_up k s ≡ some (k', s'))
      × WellFormed k'
      × Woken k s k' s'
sema_up-Woken k s w wf (v, b, ne) found f =
    let (done, wf') = thread_unblock_lem k w wf v b ne in
    let (k'', returns, sw) = thread_yield_lem (unblocked k w) wf' in
    let s' : Semaphore = record { value = suc s.value; waiters = list_remove w s.waiters } in
    elim (Bool-cases (leb ((unblocked k w).threads k.current).priority (k.threads w).priority)) [
      | inl yields ↦
          let up = sema_up_yields k s w (unblocked k w) found done k'' yields returns in
          let low = rw (current_priority k w) at yields in
          (
            k'',
            s',
            up,
            sw.well_formed,
            record {
              woken = w;
              first = f;
              rest = list_remove-First f;
              value = refl;
              switch = inr (ground arith, sw);
            },
          )
      | inr stays ↦
          let up = sema_up_stays k s w (unblocked k w) found done stays in
          let high = rw (current_priority k w) at stays in
          (
            unblocked k w,
            s',
            up,
            wf',
            record {
              woken = w;
              first = f;
              rest = list_remove-First f;
              value = refl;
              switch = inl (ground arith, refl);
            },
          )
    ]

sema_up-alone :
    (k : Kernel) (v : ℕ)
    → sema_up k (record { value = v; waiters = [] })
      ≡ some (k, record { value = suc v; waiters = [] })
unfolding sema_up highest_waiter
sema_up-alone k v = refl

abbrev Result : Kernel → Semaphore → Type 0
Result k s =
    (k' : Kernel) × (s' : Semaphore) × (sema_up k s ≡ some (k', s'))
    × WellFormed k'
    × (((s.waiters ≡ []) × (k' ≡ k) × (s' ≡ record { value = suc s.value; waiters = [] }))
        ⊎ Woken k s k' s')

sema_up-Result :
    (k : Kernel) (v : ℕ) (ws : List Tid)
    → WellFormed k
    → All (Waiting k) ws
    → Result k (record { value = v; waiters = ws })
sema_up-Result k v [] wf a =
    (k, record { value = suc v; waiters = [] }, sema_up-alone k v, wf, inl (refl, refl, refl))
sema_up-Result k v (u ∷ us) wf a =
    let (w, found, f) = highest_waiter-First k.threads u us in
    let (k', s', returns, wf', r) =
      sema_up-Woken k (record { value = v; waiters = u ∷ us }) w wf (All-First (Waiting k) f a)
        found f in
    (k', s', returns, wf', inr r)

-- In a state that satisfies the scheduler's invariant, with waiters that are blocked threads other than
-- the idle thread, sema_up succeeds and the invariant holds after it. Without waiters it raises the
-- value and nothing else. Otherwise it raises the value, takes the first waiter of the highest
-- priority off the list and makes it ready, and yields if that priority is not below that of the
-- running thread.
pub sema_up_lem :
    (k : Kernel) (s : Semaphore)
    → WellFormed k
    → All (Waiting k) s.waiters
    → (k' : Kernel) × (s' : Semaphore) × (sema_up k s ≡ some (k', s'))
      × WellFormed k'
      × (((s.waiters ≡ []) × (k' ≡ k) × (s' ≡ record { value = suc s.value; waiters = [] }))
          ⊎ Woken k s k' s')
sema_up_lem k s wf a = sema_up-Result k s.value s.waiters wf a
