-- ===== src/Children/Once.antt =====
-- process_wait of pintos/src/userprog/process.c gives the status of a child once.
use mathlib.Core.Path.{subst}
use course_cs439_operating_s.Base.{
  ℕ, ◌≡◌, refl, sym, ap, ◌∙◌, inl, inr, Bool, true, false, not, ◌||◌, ◌>>=◌, Option, none, some,
  List, [], ◌∷◌, arith, ◌==◌, if◌then◌else◌, Bool-cases, ==_refl, All, Option-cases,
}
use course_cs439_operating_s.Base.Int.{ℤ, negsuc}
use course_cs439_operating_s.Children.{
  ExitStatus, Family, has_tid, thread_is_child, thread_has_waited, status_loop,
  thread_get_exit_status, thread_set_exit_status, without, thread_mark_waited, process_wait,
}

-- The threads whose status stands in the list are different ones.
abbrev pub Distinct : (ℕ → ExitStatus) → List ℕ → Type 0
Distinct f [] = Unit {0}
Distinct f (es ∷ rest) = (has_tid f (f es).tid rest ≡ false) × Distinct f rest

status_loop-tid :
    (f : ℕ → ExitStatus) (tid es : ℕ) (xs : List ℕ)
    → status_loop f tid xs ≡ some es
    → (f es).tid ≡ tid
unfolding status_loop
status_loop-tid f tid es [] h = absurd cc
status_loop-tid f tid es (x ∷ xs) h = elim (Bool-cases ((f x).tid == tid)) [
  | inl here ↦
      let e : x ≡ es = ground (arith, here, h) in ap (λ y. (f y).tid) (sym e) ∙ ground (arith, here)
  | inr later ↦ status_loop-tid f tid es xs (ground (arith, later, h))
]

status_loop-absent :
    (f : ℕ → ExitStatus) (tid : ℕ) (xs : List ℕ)
    → has_tid f tid xs ≡ false
    → status_loop f tid xs ≡ none
unfolding status_loop has_tid
status_loop-absent f tid [] h = refl
status_loop-absent f tid (x ∷ xs) h = ground (arith, h, status_loop-absent f tid xs)

-- Without the entry that was found there is none.
status_loop-without :
    (f : ℕ → ExitStatus) (tid es : ℕ) (xs : List ℕ)
    → Distinct f xs
    → status_loop f tid xs ≡ some es
    → status_loop f tid (without es xs) ≡ none
unfolding status_loop without
status_loop-without f tid es [] d h = refl
status_loop-without f tid es (x ∷ xs) d h = elim (Bool-cases ((f x).tid == tid)) [
  | inl here ↦
      let e : x ≡ es = ground (arith, here, h) in
      let t : (f x).tid ≡ tid = ground (arith, here) in
      ground (arith, e, status_loop-absent f tid xs (ap (λ i. has_tid f i xs) (sym t) ∙ d.0))
  | inr later ↦
      let found : status_loop f tid xs ≡ some es = ground (arith, later, h) in
      ground
        (arith, later, status_loop-without f tid es xs d.1 found, status_loop-tid f tid es xs found)
]

-- A call for a child that was not waited for yet.
waits :
    (alive : Bool) (others : Family → Family) (t : Family) (tid es : ℕ)
    → thread_is_child t tid ≡ true
    → thread_has_waited t tid ≡ false
    → thread_get_exit_status (if alive then others t else t) tid ≡ some es
    → process_wait alive others t tid
      ≡ some (
        thread_mark_waited (if alive then others t else t) es,
        ((if alive then others t else t).exit_status es).status,
      )
unfolding process_wait
waits alive others t tid es c w g = rw (c, w, g) refl

-- A call for a thread that is no child or was waited for.
refuses :
    (alive : Bool) (others : Family → Family) (t : Family) (tid : ℕ)
    → thread_has_waited t tid ≡ true
    → process_wait alive others t tid ≡ some (t, negsuc 0)
unfolding process_wait
refuses alive others t tid w = ground (arith, w)

marked_waited :
    (t : Family) (tid es : ℕ)
    → (t.exit_status es).tid ≡ tid
    → thread_has_waited (thread_mark_waited t es) tid ≡ true
unfolding thread_has_waited thread_mark_waited has_tid
marked_waited t tid es e = rw e (rw (==_refl tid) refl)

-- What the other threads, or this one outside of process_wait, do: the list of those waited for stays as it is, and
-- so do the threads that its statuses belong to.
abbrev pub KeepsWaited : Family → Family → Type 0
KeepsWaited t t' =
    (t'.wait_list ≡ t.wait_list)
    × All (λ es. (t'.exit_status es).tid ≡ (t.exit_status es).tid) t.wait_list

-- The states that follow, with any calls of process_wait and anything else in between.
pub data Later : Family → Family → Type 0 where
  now : {t : Family} → Later t t
  acts : {t t1 t2 : Family} → KeepsWaited t t1 → Later t1 t2 → Later t t2
  calls :
      {t t1 t2 : Family} (alive : Bool) (others : Family → Family) (pid : ℕ) {r : ℤ}
      → KeepsWaited t (others t)
      → process_wait alive others t pid ≡ some (t1, r)
      → Later t1 t2
      → Later t t2

has_tid-same :
    (f f' : ℕ → ExitStatus) (tid : ℕ) (l : List ℕ)
    → All (λ es. (f' es).tid ≡ (f es).tid) l
    → has_tid f' tid l ≡ has_tid f tid l
unfolding has_tid
has_tid-same f f' tid [] h = refl
has_tid-same f f' tid (es ∷ l) h = rw (h.0, has_tid-same f f' tid l h.1) refl

acts-waited :
    (t t1 : Family) (tid : ℕ)
    → KeepsWaited t t1
    → thread_has_waited t tid ≡ true
    → thread_has_waited t1 tid ≡ true
unfolding thread_has_waited
acts-waited t t1 tid (e, h) w =
    ap (has_tid t1.exit_status tid) e
    ∙ has_tid-same t.exit_status t1.exit_status tid t.wait_list h
    ∙ w

mark-waited :
    (t : Family) (tid es : ℕ)
    → thread_has_waited t tid ≡ true
    → thread_has_waited (thread_mark_waited t es) tid ≡ true
unfolding thread_has_waited thread_mark_waited has_tid
mark-waited t tid es w = ground (arith, w)

abbrev result : Family → ℤ → Option (Family × ℤ)
result t r = some (t, r)

-- The end of process_wait, in the state where the wait is over.
abbrev collected : Family → ℕ → Option (Family × ℤ)
collected t pid = do
  es ← thread_get_exit_status t pid
  some (thread_mark_waited t es, (t.exit_status es).status)

returned :
    {a t1 : Family} {b r : ℤ} (tid : ℕ)
    → result a b ≡ result t1 r
    → thread_has_waited a tid ≡ true
    → thread_has_waited t1 tid ≡ true
returned {a} {t1} tid e w =
    let same : a ≡ t1 = cc in subst (λ t. thread_has_waited t tid ≡ true) same w

collected-waited :
    (t t1 : Family) (tid pid : ℕ) {r : ℤ}
    → collected t pid ≡ some (t1, r)
    → thread_has_waited t tid ≡ true
    → thread_has_waited t1 tid ≡ true
collected-waited t t1 tid pid e w = elim (Option-cases (thread_get_exit_status t pid)) [
  | inl nothing ↦ absurd (cc (rw nothing at e))
  | inr (es, found) ↦ returned tid (rw found at e) (mark-waited t tid es w)
]

call-waited :
    (alive : Bool) (others : Family → Family) (t t1 : Family) (tid pid : ℕ) {r : ℤ}
    → KeepsWaited t (others t)
    → process_wait alive others t pid ≡ some (t1, r)
    → thread_has_waited t tid ≡ true
    → thread_has_waited t1 tid ≡ true
unfolding process_wait
call-waited alive others t t1 tid pid {r} keeps e w =
    elim (Bool-cases (not (thread_is_child t pid) || thread_has_waited t pid)) [
      | inl refused ↦ returned tid (rw refused at e) w
      | inr goes_on ↦ by_life alive (rw goes_on at e)
    ]
  where
    by_life :
        (alive : Bool)
        → collected (if alive then others t else t) pid ≡ some (t1, r)
        → thread_has_waited t1 tid ≡ true
    by_life true e = collected-waited (others t) t1 tid pid e (acts-waited t (others t) tid keeps w)
    by_life false e = collected-waited t t1 tid pid e w

Later-waited :
    {t t' : Family} (tid : ℕ)
    → Later t t'
    → thread_has_waited t tid ≡ true
    → thread_has_waited t' tid ≡ true
Later-waited tid now w = w
Later-waited tid (acts {t = t} {t1 = t1} keeps l) w =
    Later-waited tid l (acts-waited t t1 tid keeps w)
Later-waited tid (calls {t = t} {t1 = t1} alive others pid {r = r} keeps e l) w =
    Later-waited tid l (call-waited alive others t t1 tid pid keeps e w)

-- Where the shared list, when the wait is over, holds statuses of different threads, that of the child among them,
-- process_wait for a child that was not waited for succeeds and gives the child's status. The shared list then
-- has no status of the child, so that setting it would go through NULL. Every later process_wait for the
-- child gives -1 at once, with nothing changed, also after further calls of process_wait, where all else
-- that happens, during these calls too, leaves the list of those waited for as it is, and the threads
-- that its statuses belong to.
pub process_wait-once :
    (alive : Bool) (others : Family → Family) (t : Family) (tid es : ℕ)
    → thread_is_child t tid ≡ true
    → thread_has_waited t tid ≡ false
    → Distinct (if alive then others t else t).exit_status (if alive then others t else t).exit_list
    → thread_get_exit_status (if alive then others t else t) tid ≡ some es
    → (t' : Family) × (process_wait alive others t tid
        ≡ some (t', ((if alive then others t else t).exit_status es).status))
      × ((status : ℤ) → thread_set_exit_status t' tid status ≡ none)
      × ((t'' : Family) (alive' : Bool) (others' : Family → Family)
          → Later t' t''
          → process_wait alive' others' t'' tid ≡ some (t'', negsuc 0))
unfolding thread_get_exit_status thread_set_exit_status thread_mark_waited
process_wait-once alive others t tid es c w d g =
    let t1 = if alive then others t else t in
    let owner = status_loop-tid t1.exit_status tid es t1.exit_list g in
    let gone = status_loop-without t1.exit_status tid es t1.exit_list d g in
    (
      thread_mark_waited t1 es,
      waits alive others t tid es c w g,
      (λ status. rw gone refl),
      λ t'' alive' others' later.
          refuses alive' others' t'' tid (Later-waited tid later (marked_waited t1 tid es owner)),
    )
