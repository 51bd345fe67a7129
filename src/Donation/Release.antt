-- ===== src/Donation/Release.antt =====
-- The sweep of lock_release through the donors: what stays are the donors over other locks.
use course_cs439_operating_s.Base.{
  ℕ, zero, suc, ◌+◌, ◌-◌, ◌≤◌, ◌<◌, ◌≡◌, refl, sym, ap, ◌∙◌, ◌≢◌, ◌⊎◌, inl, inr, true, false, some,
  List, arith, ltb, ◌==◌, Bool-cases, lt_suc-cases, le-cases, length, get_elem?, set, length-set,
  get_elem?-set_self, get_elem?-set_ne, get_elem?-lt,
}
use native.Mathlib.Decide.{dec_lt, ℕ_discrete}
use mathlib.Core.Path.{subst}
use course_cs439_operating_s.Thread.{Donation}
use course_cs439_operating_s.Donation.{lock_at, copy_entry, seek_other, drop_loop}
use course_cs439_operating_s.Donation.Seek.{Same, Other, seek_other-Sought}

-- Where the sweep stands: the entries below `i` are over other locks, those from `n` on over the
-- lock, and the array has lost no donor over another lock and gained none.
pub record Swept (orig ds : List Donation) (lock i n : ℕ) : Type 0 where
  pub ordered : i ≤ n
  pub bound : n ≤ length ds
  pub len : length ds ≡ length orig
  pub front : (k : ℕ) → k < i → Other ds lock k
  pub back : (k : ℕ) → n ≤ k → k < length ds → Same ds lock k
  pub from :
      (k : ℕ) (d : Donation) → get_elem? ds k ≡ some d → (m : ℕ) × (get_elem? orig m ≡ some d)
  pub kept :
      (m : ℕ) (d : Donation)
      → get_elem? orig m ≡ some d
      → (d.lock == lock) ≡ false
      → (k : ℕ) × (get_elem? ds k ≡ some d)

pub lock_at_of :
    (ds : List Donation) (k : ℕ) (d : Donation) → get_elem? ds k ≡ some d → lock_at ds k ≡ d.lock
lock_at_of ds k d h = rw (h, lock_at)

lock_at-set_self :
    (ds : List Donation) (i : ℕ) (d : Donation) → i < length ds → lock_at (set ds i d) i ≡ d.lock
lock_at-set_self ds i d h = lock_at_of (set ds i d) i d (get_elem?-set_self ds i d h)

lock_at-set_ne :
    (ds : List Donation) (i k : ℕ) (d : Donation) → i ≢ k → lock_at (set ds i d) k ≡ lock_at ds k
lock_at-set_ne ds i k d h = rw (get_elem?-set_ne ds d h, lock_at)

-- An entry over the lock is overwritten by one that is over another lock.
module _ (orig ds : List Donation) (lock i n j : ℕ) (d : Donation) (s : Swept orig ds lock i n)
    (small : i < length ds) (mine : Same ds lock i) (at_j : get_elem? ds j ≡ some d)
    (other : (d.lock == lock) ≡ false) where
  set_from :
      (k : ℕ) (e : Donation)
      → get_elem? (set ds i d) k ≡ some e
      → (m : ℕ) × (get_elem? orig m ≡ some e)
  set_from k e h = elim (ℕ_discrete i k) [
    | yes same ↦
        let copied : some d ≡ some e =
          sym (get_elem?-set_self ds i d small) ∙ ap (get_elem? (set ds i d)) same ∙ h in
        s.from j e (at_j ∙ copied)
    | no apart ↦ s.from k e (sym (get_elem?-set_ne ds d apart) ∙ h)
  ]

  set_kept :
      (m : ℕ) (e : Donation)
      → get_elem? orig m ≡ some e
      → (e.lock == lock) ≡ false
      → (k : ℕ) × (get_elem? (set ds i d) k ≡ some e)
  set_kept m e h o =
      let (k, at_k) = s.kept m e h o in
      let apart : i ≢ k = λ same. ground (arith, lock_at_of ds k e at_k) in
      (k, get_elem?-set_ne ds d apart ∙ at_k)

  set_front : (k : ℕ) → k < suc i → Other (set ds i d) lock k
  set_front k h = elim (lt_suc-cases k i h) [
    | inl lt ↦ rw (lock_at-set_ne ds i k d (omega arith)) (s.front k lt)
    | inr eq ↦ rw (eq, lock_at-set_self ds i d small) other
  ]

  set_back :
      (n' : ℕ)
      → i < n'
      → ((k : ℕ) → n' ≤ k → k < n → Same ds lock k)
      → (k : ℕ) → n' ≤ k
      → k < length (set ds i d)
      → Same (set ds i d) lock k
  set_back n' above passed k lo hi = rw (lock_at-set_ne ds i k d (omega arith)) (elim (dec_lt k n) [
    | yes lt ↦ passed k lo lt
    | no ge ↦ s.back k (omega arith) (omega (arith, length-set ds i d))
  ])

  set-Swept :
      (n' : ℕ)
      → i < n'
      → n' ≤ n
      → ((k : ℕ) → n' ≤ k → k < n → Same ds lock k)
      → Swept orig (set ds i d) lock (suc i) n'
  set-Swept n' above within passed = record {
    ordered = above;
    bound = omega (arith, length-set ds i d, s.bound);
    len = length-set ds i d ∙ s.len;
    front = set_front;
    back = set_back n' above passed;
    from = set_from;
    kept = set_kept;
  }

-- The rounds of the loop, by what they find at `i`.
module _ (rounds : ℕ) (ds : List Donation) (lock i n : ℕ) where
  pub round_done : n ≤ i → drop_loop (suc rounds) ds lock i n ≡ (i, ds)
  unfolding drop_loop
  round_done h = ground arith

  pub round-Other :
      i < n
      → Other ds lock i
      → drop_loop (suc rounds) ds lock i n ≡ drop_loop rounds ds lock (suc i) n
  unfolding drop_loop
  round-Other h o = let in_range : ltb i n ≡ true = ground arith in rw (in_range, o, o)

  round_stop :
      i < n
      → Same ds lock i
      → Same ds lock (seek_other ds lock i n - 1)
      → drop_loop (suc rounds) ds lock i n ≡ (i, ds)
  unfolding drop_loop
  round_stop h m e = let in_range : ltb i n ≡ true = ground arith in rw (in_range, m, e, m)

  pub round_copy :
      (d : Donation)
      → i < n
      → Same ds lock i
      → get_elem? ds (seek_other ds lock i n - 1) ≡ some d
      → (d.lock == lock) ≡ false
      → i < length ds
      → drop_loop (suc rounds) ds lock i n
        ≡ drop_loop rounds (set ds i d) lock (suc i) (seek_other ds lock i n)
  unfolding drop_loop
  round_copy d h m at_j o small =
      let in_range : ltb i n ≡ true = ground arith in
      let last : Other ds lock (seek_other ds lock i n - 1) = rw (lock_at_of ds _ d at_j) o in
      let here : Other (set ds i d) lock i = rw (lock_at-set_self ds i d small) o in
      let copied : copy_entry ds i (seek_other ds lock i n - 1) ≡ set ds i d =
        rw (at_j, copy_entry) in
      rw (in_range, m, last, copied, here)

Swept-next :
    (orig ds : List Donation) (lock i n : ℕ)
    → Swept orig ds lock i n
    → i < n
    → Other ds lock i
    → Swept orig ds lock (suc i) n
Swept-next orig ds lock i n s h o = record {
  ordered = omega arith;
  bound = s.bound;
  len = s.len;
  front = λ k lt. elim (lt_suc-cases k i (omega arith)) [
    | inl below ↦ s.front k below
    | inr eq ↦ rw eq o
  ];
  back = s.back;
  from = s.from;
  kept = s.kept;
}

Swept-stop :
    (orig ds : List Donation) (lock i n n' : ℕ)
    → Swept orig ds lock i n
    → Same ds lock i
    → n' ≡ suc i
    → ((k : ℕ) → n' ≤ k → k < n → Same ds lock k)
    → i < n
    → Swept orig ds lock i i
Swept-stop orig ds lock i n n' s m e passed h = record {
  ordered = omega arith;
  bound = omega (arith, s.bound);
  len = s.len;
  front = s.front;
  back = λ k lo hi. elim (le-cases i k lo) [
    | inr eq ↦ rw (sym eq) m
    | inl lt ↦ elim (dec_lt k n) [
      | yes below ↦ passed k (omega arith) below
      | no above ↦ s.back k (omega arith) hi
    ]
  ];
  from = s.from;
  kept = s.kept;
}

Swept-exit :
    (orig ds : List Donation) (lock i n : ℕ)
    → Swept orig ds lock i n
    → n ≤ i
    → Swept orig ds lock i i
Swept-exit orig ds lock i n s h =
    let e : n ≡ i = omega (arith, s.ordered) in subst (λ m. Swept orig ds lock i m) e s

pub no_rounds : (ds : List Donation) (lock i n : ℕ) → drop_loop 0 ds lock i n ≡ (i, ds)
unfolding drop_loop
no_rounds ds lock i n = refl

only_here :
    (ds : List Donation) (lock i n' : ℕ)
    → (lock_at ds (n' - 1) == lock) ≡ true
    → Other ds lock (n' - 1) ⊎ (n' ≡ suc i)
    → n' ≡ suc i
only_here ds lock i n' e (inl o) = cc
only_here ds lock i n' e (inr h) = h

-- With a round for each entry left the sweep ends, and then the entries below the final `i` are over
-- other locks and all others over the lock.
pub drop_loop-Swept :
    (rounds : ℕ) (orig ds : List Donation) (lock i n : ℕ)
    → Swept orig ds lock i n
    → n ≤ i + rounds
    → Swept orig
        (drop_loop rounds ds lock i n).1
        lock
        (drop_loop rounds ds lock i n).0
        (drop_loop rounds ds lock i n).0
drop_loop-Swept zero orig ds lock i n s h =
    rw (no_rounds ds lock i n) (Swept-exit orig ds lock i n s (omega arith))
drop_loop-Swept (suc rounds) orig ds lock i n s h = elim (dec_lt i n) [
  | no ge ↦
      rw (round_done rounds ds lock i n (omega arith)) (Swept-exit orig ds lock i n s (omega arith))
  | yes lt ↦ elim (Bool-cases (lock_at ds i == lock)) [
    | inr o ↦ rw (round-Other rounds ds lock i n lt o) (
        drop_loop-Swept rounds orig ds lock (suc i) n (Swept-next orig ds lock i n s lt o)
          (omega arith))
    | inl m ↦
        let q = seek_other-Sought ds lock i n lt in
        elim (Bool-cases (lock_at ds (seek_other ds lock i n - 1) == lock)) [
          | inl e ↦ rw (round_stop rounds ds lock i n lt m e) (
              Swept-stop orig ds lock i n (seek_other ds lock i n) s m
                (only_here ds lock i (seek_other ds lock i n) e q.stop) q.passed lt)
          | inr o ↦
              let (d, at_j) =
                get_elem?-lt ds (seek_other ds lock i n - 1)
                  (omega (arith, q.above, q.within, s.bound)) in
              let other : (d.lock == lock) ≡ false = rw (lock_at_of ds _ d at_j) at o in
              let small : i < length ds = omega (arith, s.bound) in
              rw (round_copy rounds ds lock i n d lt m at_j other small) (
                drop_loop-Swept rounds orig (set ds i d) lock (suc i) (seek_other ds lock i n)
                  (set-Swept orig ds lock i n (seek_other ds lock i n - 1) d s small m at_j other
                    (seek_other ds lock i n) q.above q.within q.passed)
                  (omega (arith, q.within)))
        ]
  ]
]
