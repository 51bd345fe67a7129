-- ===== src/Monitor/Exclusion.antt =====
-- No thread takes a lock that another holds: pintos/src/threads/synch.c.
use mathlib.Core.Path.{subst}
use course_cs439_operating_s.Base.{
  ℕ, ◌≤◌, ◌≡◌, ◌≢◌, refl, sym, ◌∙◌, inl, inr, Bool, true, false, Option, none, some, arith, ◌==◌,
  Bool-cases, ==_iff,
}
use course_cs439_operating_s.Thread.{null, Kernel}
use course_cs439_operating_s.Synch.{Lock, lock_init, lock_try_acquire}
use course_cs439_operating_s.Monitor.{lock_acquire, lock_retry, lock_release}
use course_cs439_operating_s.Monitor.Attempts.{
  OnSome, Attempted, lock_acquire-Attempted, lock_retry-Attempted, Released, lock_release-Released,
  Tried, lock_try_acquire-Tried, none-ne-some,
}

-- The semaphore of a lock is binary, and a lock that is held cannot be taken.
pub record IsExclusive (l : Lock) : Type 0 where
  pub binary : l.semaphore.value ≤ 1
  pub held : l.holder ≢ null → l.semaphore.value ≡ 0

-- A call on the lock by the thread that runs in `k`, which is not NULL.
pub data Step (l l' : Lock) : Type 0 where
  acquires :
      (fuel lock : ℕ) (k : Kernel) {k' : Kernel} {b : Bool}
      → lock_acquire fuel lock k l ≡ some (k', l', b)
      → Step l l'
  retries : (k : Kernel) {k' : Kernel} {b : Bool} → lock_retry k l ≡ some (k', l', b) → Step l l'
  tries : (k : Kernel) {b : Bool} → lock_try_acquire k l ≡ some (l', b) → Step l l'
  releases :
      (fuel lock : ℕ) (k : Kernel) {k' : Kernel} {b : Bool}
      → k.current ≢ null
      → lock_release fuel lock k l ≡ some (k', l', b)
      → Step l l'

pub data Reach (l : Lock) : Lock → Type 0 where
  here : Reach l l
  next : {l' l'' : Lock} → Reach l l' → Step l' l'' → Reach l l''

Attempted-IsExclusive :
    (l l' : Lock) (k : Kernel) (b : Bool) → Attempted l (k, l', b) → IsExclusive l → IsExclusive l'
Attempted-IsExclusive l l' k true a x = record {
  binary = omega (arith, x.binary);
  held = λ h. omega (arith, x.binary);
}
Attempted-IsExclusive l l' k false a x = record {
  binary = omega (arith, x.binary);
  held = λ h. a.1 ∙ x.held (rw (sym a.0) h);
}

Tried-Attempted : (l l' : Lock) (k : Kernel) (b : Bool) → Tried l (l', b) → Attempted l (k, l', b)
Tried-Attempted l l' k true h = h
Tried-Attempted l l' k false h = h

release_not_held :
    (fuel lock : ℕ) (k : Kernel) (l : Lock)
    → (l.holder == k.current) ≡ false
    → lock_release fuel lock k l ≡ none
unfolding lock_release
release_not_held fuel lock k l e = rw e refl

release-IsExclusive :
    (fuel lock : ℕ) (k k' : Kernel) (l l' : Lock) (b : Bool)
    → k.current ≢ null
    → lock_release fuel lock k l ≡ some (k', l', b)
    → Released l (k', l', b)
    → IsExclusive l
    → IsExclusive l'
release-IsExclusive fuel lock k k' l l' b ne e r x = elim (Bool-cases (l.holder == k.current)) [
  | inr other ↦ absurd (none-ne-some (sym (release_not_held fuel lock k l other) ∙ e))
  | inl mine ↦
      let held : l.holder ≢ null = rw ((==_iff l.holder k.current).0 mine) ne in
      record { binary = omega (arith, x.held held); held = λ h. absurd (h r.0) }
]

Step-IsExclusive : {l l' : Lock} → Step l l' → IsExclusive l → IsExclusive l'
Step-IsExclusive {l} {l'} (acquires fuel lock k {k'} {b} e) x =
    Attempted-IsExclusive l l' k' b
      (subst (OnSome (Attempted l)) e (lock_acquire-Attempted fuel lock k l)) x
Step-IsExclusive {l} {l'} (retries k {k'} {b} e) x =
    Attempted-IsExclusive l l' k' b (subst (OnSome (Attempted l)) e (lock_retry-Attempted k l)) x
Step-IsExclusive {l} {l'} (tries k {b} e) x =
    Attempted-IsExclusive l l' k b
      (Tried-Attempted l l' k b (subst (OnSome (Tried l)) e (lock_try_acquire-Tried k l))) x
Step-IsExclusive {l} {l'} (releases fuel lock k {k'} {b} ne e) x =
    release-IsExclusive fuel lock k k' l l' b ne e
      (subst (OnSome (Released l)) e (lock_release-Released fuel lock k l)) x

init-IsExclusive : IsExclusive lock_init
unfolding lock_init
init-IsExclusive = record { binary = omega arith; held = λ h. absurd (h refl) }

pub Reach-IsExclusive : {l l' : Lock} → Reach l l' → IsExclusive l → IsExclusive l'
Reach-IsExclusive here x = x
Reach-IsExclusive (next r s) x = Step-IsExclusive s (Reach-IsExclusive r x)

-- Not taken, and still held by the same thread.
abbrev pub IsRefused : Lock → Kernel × Lock × Bool → Type 0
IsRefused l (k', l', b) = (b ≡ false) × (l'.holder ≡ l.holder)

refused :
    (l : Lock) (r : Option (Kernel × Lock × Bool))
    → l.semaphore.value ≡ 0
    → OnSome (Attempted l) r
    → OnSome (IsRefused l) r
refused l none e h = tt
refused l (some (k', l', true)) e h = absurd (omega (arith, h))
refused l (some (k', l', false)) e h = (refl, h.0)

-- After any sequence of calls of lock_acquire, sleeping in it and going on, lock_try_acquire and
-- lock_release on a new lock by any threads (NULL being none), a lock that a thread holds is not taken:
-- lock_acquire and its rounds after sleep, where they fail no ASSERT, leave it to that thread.
pub Reach-IsRefused :
    {l : Lock} (fuel lock : ℕ) (k : Kernel)
    → Reach lock_init l
    → l.holder ≢ null
    → OnSome (IsRefused l) (lock_acquire fuel lock k l) × OnSome (IsRefused l) (lock_retry k l)
Reach-IsRefused {l} fuel lock k r h =
    let x = Reach-IsExclusive r init-IsExclusive in
    (
      refused l (lock_acquire fuel lock k l) (x.held h) (lock_acquire-Attempted fuel lock k l),
      refused l (lock_retry k l) (x.held h) (lock_retry-Attempted k l),
    )
