-- ===== src/Donation/Chain.antt =====
-- The chain of threads that updateActivePriority of pintos/src/threads/thread.c walks, from a thread to
-- the one it has donated to and on.
use course_cs439_operating_s.Base.{
  ℕ, zero, suc, ◌≤◌, ◌≡◌, refl, sym, ap, ◌∙◌, ◌≢◌, true, false, some, List, [], ◌∷◌, arith, length,
  get_elem?, All,
}
use mathlib.Core.Path.{subst}
use native.Mathlib.Decide.{ℕ_discrete}
use course_cs439_operating_s.Thread.{Tid, pri_min, Thread, Threads, Donation, update, is_thread}
use course_cs439_operating_s.Donation.{highest_donated, active_priority, update_active_priority}
use course_cs439_operating_s.Donation.Update.{Highest, active_priority-Highest}

-- The threads after `t`, each the donee of the one before, up to one whose donee is no thread.
abbrev pub Chain : Threads → Tid → List Tid → Type 0
Chain ts t [] = is_thread ts (ts t).donee.thread ≡ false
Chain ts t (p ∷ ps) = ((ts t).donee.thread ≡ p) × (is_thread ts p ≡ true) × Chain ts p ps

abbrev pub Absent : Tid → List Tid → Type 0
Absent u ps = All (λ p. p ≢ u) ps

-- No thread stands twice on the way, and none has a donor that is the thread itself or further on.
abbrev pub Forward : Threads → List Tid → Type 0
Forward ts [] = Unit
Forward ts (p ∷ ps) =
    Absent p ps
    × ((k : ℕ) (d : Donation) → get_elem? (ts p).donors k ≡ some d → Absent d.thread (p ∷ ps))
    × Forward ts ps

-- Two tables that differ in priorities at most.
abbrev pub Repriced : Threads → Threads → Type 0
Repriced ts ts' = (u : Tid) → ts' u ≡ record (ts u) { priority = (ts' u).priority }

unfoldable pub raised : Threads → Tid → Threads
raised ts t = update ts t (record (ts t) { priority = active_priority ts t })

raised_self :
    (ts : Threads) (t : Tid) → raised ts t t ≡ record (ts t) { priority = active_priority ts t }
unfolding raised update
raised_self ts t = ground arith

raised_ne : (ts : Threads) {t u : Tid} → t ≢ u → raised ts t u ≡ ts u
unfolding raised update
raised_ne ts h = ground arith

pub raised-Repriced : (ts : Threads) (t : Tid) → Repriced ts (raised ts t)
raised-Repriced ts t u = elim (ℕ_discrete t u) [
  | yes same ↦ rw (sym same, raised_self ts t)
  | no apart ↦ rw (raised_ne ts apart)
]

pub is_thread-Repriced :
    (ts ts' : Threads) → Repriced ts ts' → (u : Tid) → is_thread ts' u ≡ is_thread ts u
unfolding is_thread
is_thread-Repriced ts ts' r u = rw (ap (λ th. th.magic) (r u))

pub update_last :
    (fuel : ℕ) (ts : Threads) (t : Tid)
    → is_thread ts t ≡ true
    → is_thread (raised ts t) (ts t).donee.thread ≡ false
    → update_active_priority (suc fuel) ts t ≡ some (raised ts t)
unfolding update_active_priority raised
update_last fuel ts t v e = rw (update_active_priority, v, raised) (rw e)

update_next :
    (fuel : ℕ) (ts : Threads) (t : Tid)
    → is_thread ts t ≡ true
    → is_thread (raised ts t) (ts t).donee.thread ≡ true
    → update_active_priority (suc fuel) ts t
      ≡ update_active_priority fuel (raised ts t) (ts t).donee.thread
unfolding update_active_priority raised
update_next fuel ts t v e = rw (update_active_priority, v, raised) (rw e)

Chain-Repriced :
    (ts ts' : Threads) (t : Tid) (ps : List Tid) → Repriced ts ts' → Chain ts t ps → Chain ts' t ps
Chain-Repriced ts ts' t [] r c =
    rw (ap (λ th. th.donee.thread) (r t), is_thread-Repriced ts ts' r (ts t).donee.thread) c
Chain-Repriced ts ts' t (p ∷ ps) r (e, v, c) = (
  ap (λ th. th.donee.thread) (r t) ∙ e,
  rw (is_thread-Repriced ts ts' r p) v,
  Chain-Repriced ts ts' p ps r c,
)

Forward-Repriced :
    (ts ts' : Threads) (ps : List Tid) → Repriced ts ts' → Forward ts ps → Forward ts' ps
Forward-Repriced ts ts' [] r f = f
Forward-Repriced ts ts' (p ∷ ps) r (a, b, f) = (
  a,
  λ k d h. b k d (sym (ap (λ th. get_elem? th.donors k) (r p)) ∙ h),
  Forward-Repriced ts ts' ps r f,
)

highest_donated-agree :
    (ts ts' : Threads) (low : ℕ) (ds : List Donation)
    → ((k : ℕ) (d : Donation) → get_elem? ds k ≡ some d → ts' d.thread ≡ ts d.thread)
    → highest_donated ts' low ds ≡ highest_donated ts low ds
unfolding highest_donated is_thread
highest_donated-agree ts ts' low [] same = refl
highest_donated-agree ts ts' low (d ∷ ds) same =
    let rest : (m : ℕ) → highest_donated ts' m ds ≡ highest_donated ts m ds =
      λ m. highest_donated-agree ts ts' m ds (λ k e h. same (suc k) e h) in
    rw (same 0 d refl, rest _)

active_priority-agree :
    (ts ts' : Threads) (t : Tid)
    → Repriced ts ts'
    → ((k : ℕ) (d : Donation) → get_elem? (ts t).donors k ≡ some d → ts' d.thread ≡ ts d.thread)
    → active_priority ts' t ≡ active_priority ts t
unfolding active_priority
active_priority-agree ts ts' t r same = rw (
  ap (λ th. th.donors) (r t),
  ap (λ th. th.native_priority) (r t),
  highest_donated-agree ts ts' pri_min (ts t).donors same,
)

-- The priority of `t` is the largest of its native one and those of its donors that are threads.
abbrev pub IsSettled : Threads → Tid → Type 0
IsSettled ts t = Highest ts (ts t).native_priority (ts t).donors (ts t).priority

IsSettled-at : (ts : Threads) (t : Tid) → (ts t).priority ≡ active_priority ts t → IsSettled ts t
IsSettled-at ts t e =
    subst (Highest ts (ts t).native_priority (ts t).donors) (sym e) (active_priority-Highest ts t)

-- What updateActivePriority leaves: priorities on the way recomputed, and nothing else changed.
pub record Updated (ts ts' : Threads) (ps : List Tid) : Type 0 where
  pub repriced : Repriced ts ts'
  pub others : (u : Tid) → Absent u ps → ts' u ≡ ts u
  pub settled : All (IsSettled ts') ps

last-Updated : (ts : Threads) (t : Tid) → Forward ts (t ∷ []) → Updated ts (raised ts t) (t ∷ [])
last-Updated ts t (_, before, _) = record {
  repriced = raised-Repriced ts t;
  others = λ u h. raised_ne ts h.0;
  settled =
      let e =
        active_priority-agree ts (raised ts t) t (raised-Repriced ts t)
          (λ k d h. raised_ne ts (before k d h).0) in
      (IsSettled-at (raised ts t) t (rw (e, raised_self ts t)), tt);
}

next-Updated :
    (ts ts' : Threads) (t : Tid) (ps : List Tid)
    → Forward ts (t ∷ ps)
    → Updated (raised ts t) ts' ps
    → Updated ts ts' (t ∷ ps)
next-Updated ts ts' t ps (absent, before, _) u =
    let r : Repriced ts ts' = λ v.
      u.repriced v
      ∙ ap {A = Thread} (λ th. record th { priority = (ts' v).priority })
          (raised-Repriced ts t v) in
    record {
      repriced = r;
      others = λ v h. u.others v h.1 ∙ raised_ne ts h.0;
      settled =
          let e =
            active_priority-agree ts ts' t r
              (λ k d h. u.others d.thread (before k d h).1 ∙ raised_ne ts (before k d h).0) in
          (IsSettled-at ts' t (rw (e, u.others t absent, raised_self ts t)), u.settled);
    }

-- On a chain of donations that does not turn back, with a round of fuel for each thread,
-- updateActivePriority succeeds: each thread on the chain ends with the largest of its native priority
-- and the final priorities of its donors that are threads, all other threads and fields are unchanged.
pub update_active_priority_lem :
    (fuel : ℕ) (ts : Threads) (t : Tid) (ps : List Tid)
    → is_thread ts t ≡ true
    → Chain ts t ps
    → Forward ts (t ∷ ps)
    → length (t ∷ ps) ≤ fuel
    → (ts' : Threads) × (update_active_priority fuel ts t ≡ some ts') × Updated ts ts' (t ∷ ps)
update_active_priority_lem zero ts t ps v c f h = elim h [ ]
update_active_priority_lem (suc fuel) ts t [] v c f h =
    let same = is_thread-Repriced ts (raised ts t) (raised-Repriced ts t) (ts t).donee.thread in
    (raised ts t, update_last fuel ts t v (same ∙ c), last-Updated ts t f)
update_active_priority_lem (suc fuel) ts t (p ∷ ps) v (e, v', c) f h =
    let r = raised-Repriced ts t in
    let valid = is_thread-Repriced ts (raised ts t) r p ∙ v' in
    let (ts', returns, u) =
      update_active_priority_lem fuel (raised ts t) p ps valid
        (Chain-Repriced ts (raised ts t) p ps r c)
        (Forward-Repriced ts (raised ts t) (p ∷ ps) r f.2) (omega arith) in
    let onward : is_thread (raised ts t) (ts t).donee.thread ≡ true = rw e valid in
    (ts', update_next fuel ts t v onward ∙ rw e returns, next-Updated ts ts' t (p ∷ ps) f u)
