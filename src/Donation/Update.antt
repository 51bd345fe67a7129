-- ===== src/Donation/Update.antt =====
-- What updateActivePriority of pintos/src/threads/thread.c computes: the priority of one thread, and
-- of the chain of threads that it and its donees have donated to.
use course_cs439_operating_s.Base.{
  ℕ, zero, suc, ◌≤◌, ◌≡◌, refl, sym, ◌∙◌, ◌⊎◌, inl, inr, true, ◌&&◌, some, List, [], ◌∷◌, arith,
  ltb, if◌then◌else◌, Bool-cases, get_elem?,
}
use course_cs439_operating_s.Thread.{Tid, pri_min, Threads, Donation, is_thread}
use course_cs439_operating_s.Donation.{highest_donated, active_priority}

-- A donor that is a thread.
pub record Donor (ts : Threads) (ds : List Donation) (priority : ℕ) : Type 0 where
  pub index : ℕ
  pub entry : Donation
  pub listed : get_elem? ds index ≡ some entry
  pub valid : is_thread ts entry.thread ≡ true
  pub gives : (ts entry.thread).priority ≡ priority

-- `m` is the largest of `low` and the priorities of the donors that are threads.
pub record Highest (ts : Threads) (low : ℕ) (ds : List Donation) (m : ℕ) : Type 0 where
  pub above_low : low ≤ m
  pub above :
      (k : ℕ) (d : Donation)
      → get_elem? ds k ≡ some d
      → is_thread ts d.thread ≡ true
      → (ts d.thread).priority ≤ m
  pub reached : (m ≡ low) ⊎ Donor ts ds m

next_highest : Threads → ℕ → Donation → ℕ
next_highest ts low d =
    if is_thread ts d.thread && ltb low (ts d.thread).priority then (ts d.thread).priority else low

next_highest-cases :
    (ts : Threads) (low : ℕ) (d : Donation)
    → (low ≤ next_highest ts low d)
      × (is_thread ts d.thread ≡ true → (ts d.thread).priority ≤ next_highest ts low d)
      × ((next_highest ts low d ≡ low)
          ⊎ ((is_thread ts d.thread ≡ true) × ((ts d.thread).priority ≡ next_highest ts low d)))
unfolding next_highest
next_highest-cases ts low d = elim (Bool-cases (is_thread ts d.thread)) [
  | inr e ↦ rw e (omega arith, λ h. cc, inl refl)
  | inl e ↦ elim (Bool-cases (ltb low (ts d.thread).priority)) [
    | inl more ↦ rw (e, more) (ground arith, λ h. omega arith, inr (refl, refl))
    | inr less ↦ rw (e, less) (omega arith, λ h. ground arith, inl refl)
  ]
]

Donor-later :
    {ts : Threads} {ds : List Donation} {m : ℕ} (d : Donation) → Donor ts ds m → Donor ts (d ∷ ds) m
Donor-later d o = record {
  index = suc o.index;
  entry = o.entry;
  listed = o.listed;
  valid = o.valid;
  gives = o.gives;
}

highest_donated-step :
    (ts : Threads) (low : ℕ) (d : Donation) (ds : List Donation)
    → highest_donated ts low (d ∷ ds) ≡ highest_donated ts (next_highest ts low d) ds
unfolding highest_donated next_highest
highest_donated-step ts low d ds = refl

highest_donated-Highest :
    (ts : Threads) (low : ℕ) (ds : List Donation) → Highest ts low ds (highest_donated ts low ds)
unfolding highest_donated
highest_donated-Highest ts low [] = record {
  above_low = omega arith;
  above = λ k d h v. cc;
  reached = inl refl;
}
highest_donated-Highest ts low (d ∷ ds) =
    let rest = highest_donated-Highest ts (next_highest ts low d) ds in
    let (up, covers, where_from) = next_highest-cases ts low d in
    rw (highest_donated-step ts low d ds) (record {
      above_low = omega (arith, rest.above_low);
      above = λ k e h v. highest_above ts low d ds k e up covers rest h v;
      reached = elim rest.reached [
        | inr o ↦ inr (Donor-later d o)
        | inl same ↦ elim where_from [
          | inl kept ↦ inl (same ∙ kept)
          | inr (v, p) ↦
              inr (record { index = 0; entry = d; listed = refl; valid = v; gives = p ∙ sym same })
        ]
      ];
    })
  where
    highest_above :
        (ts : Threads) (low : ℕ) (d : Donation) (ds : List Donation) (k : ℕ) (e : Donation)
        → low ≤ next_highest ts low d
        → (is_thread ts d.thread ≡ true → (ts d.thread).priority ≤ next_highest ts low d)
        → Highest ts (next_highest ts low d) ds (highest_donated ts (next_highest ts low d) ds)
        → get_elem? (d ∷ ds) k ≡ some e
        → is_thread ts e.thread ≡ true
        → (ts e.thread).priority ≤ highest_donated ts (next_highest ts low d) ds
    highest_above ts low d ds zero e up covers rest h v =
        let valid : is_thread ts d.thread ≡ true = cc in
        let same : (ts e.thread).priority ≡ (ts d.thread).priority = cc in
        omega (arith, rest.above_low, covers valid, same)
    highest_above ts low d ds (suc k) e up covers rest h v = rest.above k e h v

-- The priority that updateActivePriority stores is at least the thread's native priority and the
-- priority of each donor that is a thread, and it is one of these.
pub active_priority-Highest :
    (ts : Threads) (t : Tid)
    → Highest ts (ts t).native_priority (ts t).donors (active_priority ts t)
unfolding active_priority
active_priority-Highest ts t =
    let h = highest_donated-Highest ts pri_min (ts t).donors in
    elim (Bool-cases (ltb (ts t).native_priority (highest_donated ts pri_min (ts t).donors))) [
      | inl more ↦ rw more (record {
        above_low = ground arith;
        above = h.above;
        reached = elim h.reached [ inl low ↦ ground arith | inr o ↦ inr o ];
      })
      | inr less ↦ rw less (record {
        above_low = omega arith;
        above = λ k d e v. ground (arith, h.above k d e v);
        reached = inl refl;
      })
    ]
