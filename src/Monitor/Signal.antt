-- ===== src/Monitor/Signal.antt =====
-- The waiter that cond_signal of pintos/src/threads/synch.c wakes.
use mathlib.Core.Path.{subst}
use course_cs439_operating_s.Base.{
  suc, ◌≤◌, ◌<◌, ◌⊎◌, ◌≡◌, ◌≢◌, refl, sym, ap, ◌∙◌, inl, inr, Bool, true, false, Option, none, some,
  List, [], ◌∷◌, ◌++◌, ltb, ◌==◌, if◌then◌else◌, ==_refl, Bool-cases, All,
}
use course_cs439_operating_s.Thread.{Tid, Threads, Kernel}
use course_cs439_operating_s.Thread.Switch.{Switched}
use course_cs439_operating_s.Thread.Ops.{yielded, unblocked}
use course_cs439_operating_s.Thread.Sched.{WellFormed}
use course_cs439_operating_s.Synch.{
  Semaphore, Lock, is_higher, highest_waiter, list_remove, sema_up,
}
use course_cs439_operating_s.Synch.Waiters.{First, highest_waiter-First, list_remove-First}
use course_cs439_operating_s.Synch.Up.{Waiting, Woken, sema_up_lem}
use course_cs439_operating_s.Monitor.{
  lock_held_by_current_thread, Waiter, Condition, highest_signal, remove_waiter, cond_signal,
}
use course_cs439_operating_s.Monitor.Attempts.{OnSome}

-- The threads that wait.
abbrev pub sleepers : List Waiter → List Tid
sleepers [] = []
sleepers (w ∷ ws) = w.thread ∷ sleepers ws

abbrev sleeper : Option Waiter → Option Tid
sleeper none = none
sleeper (some w) = some w.thread

-- The waiter's thread sleeps in sema_down.
abbrev pub IsAsleep : Kernel → Waiter → Type 0
IsAsleep k w = (w.semaphore ≡ record { value = 0; waiters = w.thread ∷ [] }) × Waiting k w.thread

sleeper-if :
    (b : Bool) (w h : Waiter)
    → sleeper (some (if b then w else h)) ≡ (if b then some w.thread else some h.thread)
sleeper-if true w h = refl
sleeper-if false w h = refl

sleeper-highest_signal :
    (ts : Threads) (highest : Option Waiter) (ws : List Waiter)
    → sleeper (highest_signal ts highest ws) ≡ highest_waiter ts (sleeper highest) (sleepers ws)
unfolding highest_signal highest_waiter is_higher
sleeper-highest_signal ts highest [] = refl
sleeper-highest_signal ts none (w ∷ ws) = sleeper-highest_signal ts (some w) ws
sleeper-highest_signal ts (some h) (w ∷ ws) =
    let above = ltb (ts h.thread).priority (ts w.thread).priority in
    sleeper-highest_signal ts (some (if above then w else h)) ws
    ∙ ap (λ o. highest_waiter ts o (sleepers ws)) (sleeper-if above w h)

sleepers-remove_waiter :
    (t : Tid) (ws : List Waiter) → sleepers (remove_waiter t ws) ≡ list_remove t (sleepers ws)
unfolding remove_waiter list_remove
sleepers-remove_waiter t [] = refl
sleepers-remove_waiter t (w ∷ ws) = elim (Bool-cases (w.thread == t)) [
  | inl same ↦ rw same refl
  | inr apart ↦ rw apart (ap (◌∷◌ w.thread) (sleepers-remove_waiter t ws))
]

highest_signal-All :
    (P : Waiter → Type 0) (ts : Threads) (highest : Option Waiter) (ws : List Waiter)
    → OnSome P highest
    → All P ws
    → OnSome P (highest_signal ts highest ws)
unfolding highest_signal
highest_signal-All P ts highest [] h a = h
highest_signal-All P ts none (w ∷ ws) h a = highest_signal-All P ts (some w) ws a.0 a.1
highest_signal-All P ts (some h) (w ∷ ws) p a =
    elim (Bool-cases (ltb (ts h.thread).priority (ts w.thread).priority)) [
      | inl above ↦ rw above (highest_signal-All P ts (some w) ws a.0 a.1)
      | inr below ↦ rw below (highest_signal-All P ts (some h) ws p a.1)
    ]

named :
    (r : Option Waiter) (t : Tid)
    → sleeper r ≡ some t
    → (w : Waiter) × (r ≡ some w) × (w.thread ≡ t)
named none t e = absurd cc
named (some w) t e = (w, refl, cc)

-- The waiter that the search finds.
highest_signal-First :
    (ts : Threads) (u : Waiter) (us : List Waiter)
    → (w : Waiter) × (highest_signal ts none (u ∷ us) ≡ some w)
      × First ts (sleepers (u ∷ us)) w.thread
highest_signal-First ts u us =
    let (t, found, f) = highest_waiter-First ts u.thread (sleepers us) in
    let (w, r, e) =
      named (highest_signal ts none (u ∷ us)) t (sleeper-highest_signal ts none (u ∷ us) ∙ found) in
    (w, r, subst (First ts (sleepers (u ∷ us))) (sym e) f)

signals :
    (k k' : Kernel) (c : Condition) (l : Lock) (w : Waiter) (s : Semaphore)
    → l.holder ≡ k.current
    → highest_signal k.threads none c.waiters ≡ some w
    → sema_up k w.semaphore ≡ some (k', s)
    → cond_signal k c l
      ≡ some (
        k',
        record { waiters = remove_waiter w.thread c.waiters },
        some (record { thread = w.thread; semaphore = s }),
      )
unfolding cond_signal lock_held_by_current_thread
signals k k' c l w s held found up = rw (held, ==_refl k.current, found, up) refl

alone : {t w : Tid} (front back : List Tid) → t ∷ [] ≡ front ++ w ∷ back → w ≡ t
alone [] back e = cc
alone (u ∷ []) back e = absurd cc
alone (u ∷ v ∷ front) back e = absurd cc

-- What sema_up does for a waiter that is asleep.
wakes :
    (k : Kernel) (w : Waiter)
    → WellFormed k
    → IsAsleep k w
    → (k' : Kernel) × (s' : Semaphore) × (sema_up k w.semaphore ≡ some (k', s'))
      × WellFormed k'
      × (x : Woken k w.semaphore k' s') × (x.woken ≡ w.thread)
wakes k w wf a =
    let (k', s', up, wf', r) =
      sema_up_lem k w.semaphore wf (subst (λ s. All (Waiting k) s.waiters) (sym a.0) (a.1, tt)) in
    elim r [
      | inl (empty, same, rest) ↦ absurd (awake (sym empty ∙ ap (λ s. s.waiters) a.0))
      | inr x ↦ (
        k',
        s',
        up,
        wf',
        x,
        alone x.first.front x.first.back (sym (ap (λ s. s.waiters) a.0) ∙ x.first.split),
      )
    ]
  where
    awake : {t : Tid} → [] ≡ t ∷ [] → ⊥
    awake e = cc

-- A thread became ready, and runs or stands in the ready list by its priority.
abbrev pub Preempts : Kernel → Tid → Kernel → Type 0
Preempts k t k' =
    (((k.threads t).priority < (k.threads k.current).priority) × (k' ≡ unblocked k t))
    ⊎ (((k.threads k.current).priority ≤ (k.threads t).priority)
        × Switched (yielded (unblocked k t)) k')

-- What cond_signal does if there are waiters.
pub record Signalled (k : Kernel) (c : Condition) (k' : Kernel) (c' : Condition) (w : Waiter)
    : Type 0 where
  pub first : First k.threads (sleepers c.waiters) w.thread
  pub rest : sleepers c'.waiters ≡ first.front ++ first.back
  pub raised : w.semaphore.value ≡ 1
  pub well_formed : WellFormed k'
  pub preempts : Preempts k w.thread k'

signal-Signalled :
    (k : Kernel) (c : Condition) (l : Lock) (w : Waiter)
    → WellFormed k
    → l.holder ≡ k.current
    → IsAsleep k w
    → highest_signal k.threads none c.waiters ≡ some w
    → First k.threads (sleepers c.waiters) w.thread
    → (k' : Kernel) × (c' : Condition) × (w' : Waiter) × (cond_signal k c l
        ≡ some (k', c', some w'))
      × Signalled k c k' c' w'
signal-Signalled k c l w wf held a found f =
    let (k', s', up, wf', x, same) = wakes k w wf a in
    (
      k',
      record { waiters = remove_waiter w.thread c.waiters },
      record { thread = w.thread; semaphore = s' },
      signals k k' c l w s' held found up,
      record {
        first = f;
        rest = sleepers-remove_waiter w.thread c.waiters ∙ list_remove-First f;
        raised = x.value ∙ ap (λ s. suc s.value) a.0;
        well_formed = wf';
        preempts = subst (λ t. Preempts k t k') same x.switch;
      },
    )

-- If the thread that runs holds the lock, there are waiters and all of them are asleep in sema_down, cond_signal
-- succeeds: it takes the first of the waiters whose thread has the highest priority off the list,
-- leaving the others in their order, raises its semaphore to 1, makes its thread ready and yields if
-- that thread's priority is not below that of the running one; the scheduler's invariant is kept.
pub cond_signal_lem :
    (k : Kernel) (c : Condition) (l : Lock)
    → WellFormed k
    → l.holder ≡ k.current
    → c.waiters ≢ []
    → All (IsAsleep k) c.waiters
    → (k' : Kernel) × (c' : Condition) × (w : Waiter) × (cond_signal k c l ≡ some (k', c', some w))
      × Signalled k c k' c' w
cond_signal_lem k c l wf held ne a = go c.waiters refl ne a
  where
    go :
        (ws : List Waiter)
        → c.waiters ≡ ws
        → ws ≢ []
        → All (IsAsleep k) ws
        → (k' : Kernel) × (c' : Condition) × (w : Waiter) × (cond_signal k c l
            ≡ some (k', c', some w))
          × Signalled k c k' c' w
    go [] e ne a = absurd (ne refl)
    go (u ∷ us) e ne a =
        let (w, found, f) = highest_signal-First k.threads u us in
        let asleep =
          subst (OnSome (IsAsleep k)) found
            (highest_signal-All (IsAsleep k) k.threads none (u ∷ us) tt a) in
        signal-Signalled k c l w wf held asleep (ap (highest_signal k.threads none) e ∙ found)
          (subst (λ ws. First k.threads (sleepers ws) w.thread) (sym e) f)
