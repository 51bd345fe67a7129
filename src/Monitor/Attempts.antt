-- ===== src/Monitor/Attempts.antt =====
-- What an attempt to take a lock and its release do to the value of its semaphore and to its holder:
-- pintos/src/threads/synch.c.

use course_cs439_operating_s.Base.{
  ℕ, zero, suc, ◌≡◌, refl, Bool, true, false, ◌&&◌, Option, none, some, List, leb, ◌==◌,
  if◌then◌else◌, ◌>>=◌,
}
use course_cs439_operating_s.Thread.{
  Tid, null, Threads, Kernel, thread_block, thread_unblock, thread_yield,
}
use course_cs439_operating_s.Donation.{donate, drop_donors}
use course_cs439_operating_s.Synch.{
  Semaphore, Lock, sema_wait, sema_down, sema_try_down, sema_up, list_remove, highest_waiter,
  lock_try_acquire,
}
use course_cs439_operating_s.Monitor.{
  lock_taken, lock_go_on, lock_acquire, lock_retry, lock_release,
}

-- A call that fails no ASSERT ends so.
abbrev pub OnSome : {A : Type 0} → (A → Type 0) → Option A → Type 0
OnSome P none = Unit {0}
OnSome P (some x) = P x

OnSome-elim :
    {A B : Type 0} (P : B → Type 0) (r : Option A) (d : Option B) (f : A → Option B)
    → OnSome P d
    → ((a : A) → OnSome P (f a))
    → OnSome P (elim r [ none ↦ d | some a ↦ f a ])
OnSome-elim P none d f hd hf = hd
OnSome-elim P (some a) d f hd hf = hf a

OnSome-bind :
    {A B : Type 0} (P : B → Type 0) (r : Option A) (f : A → Option B)
    → ((a : A) → OnSome P (f a))
    → OnSome P (r >>= f)
OnSome-bind P none f h = tt
OnSome-bind P (some a) f h = h a

OnSome-if :
    {B : Type 0} (P : B → Type 0) (b : Bool) (x y : Option B)
    → OnSome P x
    → OnSome P y
    → OnSome P (if b then x else y)
OnSome-if P true x y h k = h
OnSome-if P false x y h k = k

-- The value of a semaphore after a round of sema_down, which passes or not.
abbrev Lowered : ℕ → Kernel × Semaphore × Bool → Type 0
Lowered v (k, s, true) = suc s.value ≡ v
Lowered v (k, s, false) = s.value ≡ v

wait-Lowered :
    (k : Kernel) (v : ℕ) (ws : List Tid)
    → OnSome (Lowered v) (sema_wait k (record { value = v; waiters = ws }))
unfolding sema_wait
wait-Lowered k zero ws = OnSome-elim (Lowered 0) (thread_block k) none _ tt (λ k'. refl)
wait-Lowered k (suc v) ws = refl

sema_wait-Lowered : (k : Kernel) (s : Semaphore) → OnSome (Lowered s.value) (sema_wait k s)
sema_wait-Lowered k s = wait-Lowered k s.value s.waiters

down_either :
    (k : Kernel) (s : Semaphore) (ws : List Tid) (b : Bool)
    → OnSome (Lowered s.value) (sema_wait k (if b then record s { waiters = ws } else s))
down_either k s ws true = sema_wait-Lowered k (record s { waiters = ws })
down_either k s ws false = sema_wait-Lowered k s

sema_down-Lowered : (k : Kernel) (s : Semaphore) → OnSome (Lowered s.value) (sema_down k s)
unfolding sema_down
sema_down-Lowered k s = down_either k s _ (s.value == 0)

abbrev Raised : ℕ → Kernel × Semaphore → Type 0
Raised v (k, s) = s.value ≡ suc v

sema_up-Raised : (k : Kernel) (s : Semaphore) → OnSome (Raised s.value) (sema_up k s)
unfolding sema_up
sema_up-Raised k s =
    let P = Raised s.value in
    OnSome-elim P (highest_waiter k.threads none s.waiters) _ _ refl
      (λ w. OnSome-elim P (thread_unblock k w) none _ tt (raised_and_yields k.threads w))
  where
    raised_and_yields :
        (ts : Threads) (w : Tid) (k' : Kernel)
        → OnSome (Raised s.value) (
            let s' : Semaphore = record {
              value = suc s.value;
              waiters = list_remove w s.waiters;
            } in
            if leb (k'.threads k'.current).priority (ts w).priority
            then elim (thread_yield k') [ none ↦ none | some k'' ↦ some (k'', s') ]
            else some (k', s'))
    raised_and_yields ts w k' =
        let s' : Semaphore = record { value = suc s.value; waiters = list_remove w s.waiters } in
        OnSome-if (Raised s.value) (leb (k'.threads k'.current).priority (ts w).priority)
          (elim (thread_yield k') [ none ↦ none | some k'' ↦ some (k'', s') ]) (some (k', s'))
          (OnSome-elim (Raised s.value) (thread_yield k') none (λ k''. some (k'', s')) tt
            (λ k''. refl))
          refl

pub none-ne-some : {A : Type 0} {a : A} → none ≡ some a → ⊥
none-ne-some e = cc

-- A lock after an attempt to take it: taken, or as it was but for the waiters.
abbrev pub Attempted : Lock → Kernel × Lock × Bool → Type 0
Attempted l (k, l', true) = suc l'.semaphore.value ≡ l.semaphore.value
Attempted l (k, l', false) = (l'.holder ≡ l.holder) × (l'.semaphore.value ≡ l.semaphore.value)

lock_go_on-Attempted :
    (l : Lock) (r : Option (Kernel × Semaphore × Bool))
    → OnSome (Lowered l.semaphore.value) r
    → OnSome (Attempted l) (lock_go_on l.holder r)
unfolding lock_go_on lock_taken
lock_go_on-Attempted l none h = tt
lock_go_on-Attempted l (some (k, s, true)) h = h
lock_go_on-Attempted l (some (k, s, false)) h = (refl, h)

pub lock_acquire-Attempted :
    (fuel lock : ℕ) (k : Kernel) (l : Lock) → OnSome (Attempted l) (lock_acquire fuel lock k l)
unfolding lock_acquire
lock_acquire-Attempted fuel lock k l = OnSome-bind (Attempted l) _ _ (λ _.
    OnSome-bind (Attempted l) (donate fuel k.threads k.current l.holder lock) _
      (λ ts. lock_go_on-Attempted l _ (sema_down-Lowered (record k { threads = ts }) l.semaphore)))

pub lock_retry-Attempted : (k : Kernel) (l : Lock) → OnSome (Attempted l) (lock_retry k l)
unfolding lock_retry
lock_retry-Attempted k l = lock_go_on-Attempted l _ (sema_wait-Lowered k l.semaphore)

abbrev pub Released : Lock → Kernel × Lock × Bool → Type 0
Released l (k, l', b) = (l'.holder ≡ null) × (l'.semaphore.value ≡ suc l.semaphore.value)

pub lock_release-Released :
    (fuel lock : ℕ) (k : Kernel) (l : Lock) → OnSome (Released l) (lock_release fuel lock k l)
unfolding lock_release
lock_release-Released fuel lock k l =
    let P = Released l in
    OnSome-bind P _ _ (λ _.
      OnSome-bind P (drop_donors fuel k.threads k.current lock) _ (λ (ts, has_waiter).
        after_up has_waiter (sema_up (record k { threads = ts }) l.semaphore)
          (sema_up-Raised (record k { threads = ts }) l.semaphore)))
  where
    after_up :
        (has_waiter : Bool) (r : Option (Kernel × Semaphore))
        → OnSome (Raised l.semaphore.value) r
        → OnSome (Released l) (do
          (k', s) ← r
          let l' : Lock = record { holder = null; semaphore = s }
          if has_waiter && (k'.current == k.current)
              then (do k'' ← thread_yield k'; some (k'', l', false))
              else some (k', l', has_waiter))
    after_up has_waiter none h = tt
    after_up has_waiter (some (k', s)) h =
        let l' : Lock = record { holder = null; semaphore = s } in
        OnSome-if (Released l) (has_waiter && (k'.current == k.current))
          (do k'' ← thread_yield k'; some (k'', l', false)) (some (k', l', has_waiter))
          (OnSome-bind (Released l) (thread_yield k') (λ k''. some (k'', l', false))
            (λ k''. (refl, h)))
          (refl, h)

abbrev pub Tried : Lock → Lock × Bool → Type 0
Tried l (l', true) = suc l'.semaphore.value ≡ l.semaphore.value
Tried l (l', false) = (l'.holder ≡ l.holder) × (l'.semaphore.value ≡ l.semaphore.value)

try_with :
    (k : Kernel) (holder : Tid) (v : ℕ) (ws : List Tid)
    → OnSome (Tried (record { holder = holder; semaphore = record { value = v; waiters = ws } })) (
        lock_try_acquire k
          (record { holder = holder; semaphore = record { value = v; waiters = ws } }))
unfolding lock_try_acquire sema_try_down
try_with k holder zero ws =
    let l : Lock = record { holder = holder; semaphore = record { value = 0; waiters = ws } } in
    OnSome-if (Tried l) (holder == k.current) none (some (l, false)) tt (refl, refl)
try_with k holder (suc v) ws =
    let l : Lock = record { holder = holder; semaphore = record { value = suc v; waiters = ws } } in
    let l' : Lock = record { holder = k.current; semaphore = record { value = v; waiters = ws } } in
    OnSome-if (Tried l) (holder == k.current) none (some (l', true)) tt refl

pub lock_try_acquire-Tried : (k : Kernel) (l : Lock) → OnSome (Tried l) (lock_try_acquire k l)
lock_try_acquire-Tried k l = try_with k l.holder l.semaphore.value l.semaphore.waiters
