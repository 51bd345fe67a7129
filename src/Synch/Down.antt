-- ===== src/Synch/Down.antt =====
-- The loop of sema_down in pintos/src/threads/synch.c, and the thread that it leaves off the list.
use course_cs439_operating_s.Base.{
  ℕ, zero, suc, ◌≡◌, refl, ◌∙◌, ◌≢◌, ◌⊎◌, inl, inr, true, false, some, List, [], ◌∷◌, ◌++◌, arith,
  ◌==◌, Bool-cases, All,
}
use course_cs439_operating_s.Thread.{Tid, ready, blocked, Kernel, thread_block}
use course_cs439_operating_s.Thread.Ready.{Absent}
use course_cs439_operating_s.Thread.Sched.{WellFormed, set_status_ne}
use course_cs439_operating_s.Thread.Switch.{Switched, stopped}
use course_cs439_operating_s.Thread.Ops.{
  thread_block_lem, thread_unblock_lem, yielded, yielded-IsQueue, unblocked,
}
use course_cs439_operating_s.Synch.{Semaphore, sema_wait, sema_down, sema_up}
use course_cs439_operating_s.Synch.Waiters.{All-First}
use course_cs439_operating_s.Synch.Up.{Waiting, Woken, sema_up_lem}

wait_blocks :
    (k k' : Kernel) (ws : List Tid)
    → thread_block k ≡ some k'
    → sema_wait k (record { value = 0; waiters = ws })
      ≡ some (k', record { value = 0; waiters = ws }, false)
unfolding sema_wait
wait_blocks k k' ws h = rw (sema_wait, h)

-- A round lowers a positive value, or blocks the thread at 0.
abbrev pub Round : Kernel → Semaphore → Type 0
Round k s =
    ((v : ℕ) × (s.value ≡ suc v) × (sema_wait k s ≡ some (k, record s { value = v }, true)))
    ⊎ ((s.value ≡ 0)
        × ((k' : Kernel) × (sema_wait k s ≡ some (k', s, false)) × Switched (stopped k blocked) k'))

Round-of :
    (k : Kernel) (v : ℕ) (ws : List Tid)
    → WellFormed k
    → Round k (record { value = v; waiters = ws })
unfolding sema_wait
Round-of k zero ws wf =
    let (k', h, sw) = thread_block_lem k wf in inr (refl, (k', wait_blocks k k' ws h, sw))
Round-of k (suc v) ws wf = inl (v, refl, refl)

-- In a state that satisfies the scheduler's invariant a round of the loop in sema_down succeeds: a
-- positive value is lowered by one and the thread goes on; at 0 the thread blocks, and the
-- semaphore is left as it is, so the round does not put the thread among the waiters.
pub sema_wait_lem : (k : Kernel) (s : Semaphore) → WellFormed k → Round k s
sema_wait_lem k s wf = Round-of k s.value s.waiters wf

-- sema_down passes a positive value, or goes to sleep in a list of waiters with the thread at its end.
abbrev pub Down : Kernel → Semaphore → Type 0
Down k s =
    ((v : ℕ) × (s.value ≡ suc v) × (sema_down k s ≡ some (k, record s { value = v }, true)))
    ⊎ ((s.value ≡ 0)
        × ((k' : Kernel) × (sema_down k s
              ≡ some (k', record s { waiters = s.waiters ++ k.current ∷ [] }, false))
            × Switched (stopped k blocked) k'))

Down-of :
    (k : Kernel) (v : ℕ) (ws : List Tid)
    → WellFormed k
    → Down k (record { value = v; waiters = ws })
unfolding sema_wait sema_down
Down-of k zero ws wf =
    let (k', h, sw) = thread_block_lem k wf in
    inr (refl, (k', wait_blocks k k' (ws ++ k.current ∷ []) h, sw))
Down-of k (suc v) ws wf =
    let positive : (suc v == 0) ≡ false = ground arith in inl (v, refl, rw (sema_down, positive))

-- In a state that satisfies the scheduler's invariant sema_down lowers a positive value by one and
-- returns; at 0 it puts the running thread at the end of the waiters and blocks it, so that the
-- invariant holds again and the thread that runs has the highest priority of those that are ready.
pub sema_down_lem : (k : Kernel) (s : Semaphore) → WellFormed k → Down k s
sema_down_lem k s wf = Down-of k s.value s.waiters wf

All-without {κ} :
    (P : Tid → Type κ) (front back : List Tid) (w : Tid)
    → All P (front ++ w ∷ back)
    → All P (front ++ back)
All-without P [] back w h = h.1
All-without P (u ∷ us) back w h = (h.0, All-without P us back w h.1)

module _ (k : Kernel) (s : Semaphore) (t : Tid) (wf : WellFormed k)
    (asleep : (k.threads t).status ≡ blocked) (apart : t ≢ k.idle_thread)
    (unlisted : Absent t s.waiters) where
  not_current : (k.current == t) ≡ false
  not_current = ground (arith, wf.runs)

  stays_blocked : (w : Tid) → (w == t) ≡ false → ((unblocked k w).threads t).status ≡ blocked
  stays_blocked w ne = set_status_ne k.threads w ready t (ground arith) ∙ asleep

  not_picked :
      (w : Tid) (k' : Kernel)
      → WellFormed (unblocked k w)
      → (w == t) ≡ false
      → Switched (yielded (unblocked k w)) k'
      → (t == k'.current) ≡ false
  not_picked w k' wf' ne sw =
      let q = yielded-IsQueue (unblocked k w) wf' in
      let still =
        set_status_ne (unblocked k w).threads k.current ready t (ground arith)
        ∙ stays_blocked w ne in
      elim (Bool-cases (t == k'.current)) [
        | inr e ↦ e
        | inl e ↦
            let same : t ≡ k'.current = ground arith in
            elim sw.head [
              | inl (none_ready, idle, _) ↦ absurd (apart (same ∙ idle))
              | inr listed ↦
                  let at_head = (rw listed at q.waiting).0 in absurd (cc (at_head, still, same))
            ]
      ]

  Woken-blocked :
      (k' : Kernel) (s' : Semaphore)
      → All (Waiting k) s.waiters
      → Woken k s k' s'
      → (k'.threads t).status ≡ blocked
  Woken-blocked k' s' a u =
      let (v, b, not_idle) = All-First (Waiting k) u.first a in
      let ne = All-First (λ w. (w == t) ≡ false) u.first unlisted in
      let (_, wf') = thread_unblock_lem k u.woken wf v b not_idle in
      elim u.switch [
        | inl (_, same) ↦ rw same (stays_blocked u.woken ne)
        | inr (_, sw) ↦
            sw.others t (not_picked u.woken k' wf' ne sw)
            ∙ set_status_ne (unblocked k u.woken).threads k.current ready t (ground arith)
            ∙ stays_blocked u.woken ne
      ]

  Woken-Absent : (k' : Kernel) (s' : Semaphore) → Woken k s k' s' → Absent t s'.waiters
  Woken-Absent k' s' u = rw u.rest (
      All-without (λ w. (w == t) ≡ false) u.first.front u.first.back u.woken
        (rw u.first.split at unlisted))

  -- In a state that satisfies the scheduler's invariant, with waiters that are blocked threads other than
  -- the idle thread, sema_up leaves a thread asleep that is blocked, not the idle thread and not among
  -- the waiters: it is still blocked after it, and still not among the waiters.
  pub sema_up-unlisted :
      All (Waiting k) s.waiters
      → (k' : Kernel) × (s' : Semaphore) × (sema_up k s ≡ some (k', s'))
        × ((k'.threads t).status ≡ blocked)
        × Absent t s'.waiters
  sema_up-unlisted a =
      let (k', s', returns, wf', r) = sema_up_lem k s wf a in
      elim r [
        | inl (e, same, after) ↦ (k', s', returns, rw same asleep, rw after tt)
        | inr u ↦ (k', s', returns, Woken-blocked k' s' a u, Woken-Absent k' s' u)
      ]
