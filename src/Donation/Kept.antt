-- ===== src/Donation/Kept.antt =====
-- The donors that lock_release leaves, and the case in which it does not recompute the priority.
use course_cs439_operating_s.Base.{
  ℕ, zero, suc, ◌-◌, ◌≤◌, ◌<◌, ◌≡◌, refl, sym, ◌∙◌, ◌≢◌, ◌↔◌, true, false, none, some, List, [],
  ◌∷◌, arith, ltb, ◌==◌, length, get_elem?,
}
use native.Mathlib.Decide.{dec_lt}
use course_cs439_operating_s.Thread.{Donation, Threads, update}
use course_cs439_operating_s.Donation.{drop_loop, seek_other, take, drop_donors}
use course_cs439_operating_s.Donation.Release.{
  Swept, lock_at_of, drop_loop-Swept, round_copy, round-Other, no_rounds,
}

-- The donors after the sweep for `lock`.
abbrev pub kept_donors : List Donation → ℕ → List Donation
kept_donors ds lock = let r = drop_loop (length ds) ds lock 0 (length ds) in take r.0 r.1

abbrev pub HasEntry : List Donation → Donation → Type 0
HasEntry ds d = (k : ℕ) × (get_elem? ds k ≡ some d)

start-Swept : (ds : List Donation) (lock : ℕ) → Swept ds ds lock 0 (length ds)
start-Swept ds lock = record {
  ordered = omega arith;
  bound = omega arith;
  len = refl;
  front = λ k h. elim h [ ];
  back = λ k lo hi. absurd (omega arith);
  from = λ k d h. (k, h);
  kept = λ m d h o. (m, h);
}

get_elem?-take : (ds : List Donation) (i k : ℕ) → k < i → get_elem? (take i ds) k ≡ get_elem? ds k
get_elem?-take ds zero k h = elim h [ ]
get_elem?-take [] (suc i) k h = refl
get_elem?-take (d ∷ ds) (suc i) zero h = refl
get_elem?-take (d ∷ ds) (suc i) (suc k) h = get_elem?-take ds i k (omega arith)

get_elem?-take-none : (ds : List Donation) (i k : ℕ) → i ≤ k → get_elem? (take i ds) k ≡ none
get_elem?-take-none ds zero k h = refl
get_elem?-take-none [] (suc i) k h = refl
get_elem?-take-none (d ∷ ds) (suc i) zero h = elim h [ ]
get_elem?-take-none (d ∷ ds) (suc i) (suc k) h = get_elem?-take-none ds i k (omega arith)

entry_in_range :
    (ds : List Donation) (k : ℕ) (d : Donation) → get_elem? ds k ≡ some d → k < length ds
entry_in_range [] k d h = cc
entry_in_range (x ∷ ds) zero d h = omega arith
entry_in_range (x ∷ ds) (suc k) d h = omega (arith, entry_in_range ds k d h)

take_entry :
    (ds : List Donation) (i k : ℕ) (d : Donation)
    → get_elem? (take i ds) k ≡ some d
    → (k < i) × (get_elem? ds k ≡ some d)
take_entry ds i k d h = elim (dec_lt k i) [
  | yes lt ↦ (lt, sym (get_elem?-take ds i k lt) ∙ h)
  | no ge ↦ absurd (cc (get_elem?-take-none ds i k (omega arith)))
]

kept_front :
    {orig ds : List Donation} {lock i k : ℕ} {d : Donation}
    → Swept orig ds lock i i
    → get_elem? ds k ≡ some d
    → (d.lock == lock) ≡ false
    → k < i
kept_front {ds} {i} {k} {d} s at_k other = elim (dec_lt k i) [
  | yes lt ↦ lt
  | no ge ↦
      absurd
        (cc (lock_at_of ds k d at_k, s.back k (omega arith) (entry_in_range ds k d at_k), other))
]

-- After the sweep a donor is listed exactly if it was listed before, over another lock.
pub kept_donors_iff :
    (ds : List Donation) (lock : ℕ) (d : Donation)
    → HasEntry (kept_donors ds lock) d ↔ (HasEntry ds d × ((d.lock == lock) ≡ false))
kept_donors_iff ds lock d =
    let s =
      drop_loop-Swept (length ds) ds ds lock 0 (length ds) (start-Swept ds lock) (omega arith) in
    let r = drop_loop (length ds) ds lock 0 (length ds) in
    (
      λ (k, h).
          let (lt, at_k) = take_entry r.1 r.0 k d h in
          (s.from k d at_k, rw (lock_at_of r.1 k d at_k) at (s.front k lt)),
      λ (before, other).
          let (k, at_k) = s.kept before.0 d before.1 other in
          let small : k < length r.1 = entry_in_range r.1 k d at_k in
          let lt : k < r.0 = kept_front s at_k other in (k, get_elem?-take r.1 r.0 k lt ∙ at_k),
    )

seek_pair :
    (lock : ℕ) (a b : Donation) → (b.lock == lock) ≡ false → seek_other (a ∷ b ∷ []) lock 0 2 ≡ 2
unfolding seek_other
seek_pair lock a b o = rw o

sweep_pair :
    (lock : ℕ) (a b : Donation)
    → (a.lock == lock) ≡ true
    → (b.lock == lock) ≡ false
    → drop_loop 2 (a ∷ b ∷ []) lock 0 2 ≡ (2, b ∷ b ∷ [])
sweep_pair lock a b m o =
    let seen : get_elem? (a ∷ b ∷ []) (seek_other (a ∷ b ∷ []) lock 0 2 - 1) ≡ some b =
      rw (seek_pair lock a b o) in
    let first = round_copy 1 (a ∷ b ∷ []) lock 0 2 b (omega arith) m seen o (omega arith) in
    let second = round-Other 0 (b ∷ b ∷ []) lock 1 2 (omega arith) o in
    rw (first, seek_pair lock a b o, second, no_rounds (b ∷ b ∷ []) lock 2 2)

-- If the running thread has two donors, the first over the released lock and the second over another, and
-- its active priority is above its native one, lock_release writes the second over the first, trims
-- nothing and leaves the active priority as it was, however high.
pub release_keeps_priority :
    (fuel : ℕ) (ts : Threads) (current lock : ℕ) (a b : Donation)
    → (ts current).donors ≡ a ∷ b ∷ []
    → a.lock ≡ lock
    → b.lock ≢ lock
    → (ts current).native_priority < (ts current).priority
    → drop_donors fuel ts current lock
      ≡ some (update ts current (record (ts current) { donors = b ∷ b ∷ [] }), false)
unfolding drop_donors
release_keeps_priority fuel ts current lock a b e mine other raised =
    let higher : ltb (ts current).native_priority (ts current).priority ≡ true = ground arith in
    rw (e, sweep_pair lock a b (ground arith) (ground arith), higher)
