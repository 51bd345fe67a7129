-- ===== src/Donation/Seek.antt =====
-- The search of lock_release in pintos/src/threads/synch.c for a donor over another lock, from the end.
use course_cs439_operating_s.Base.{
  ℕ, zero, suc, ◌-◌, ◌≤◌, ◌<◌, ◌≡◌, refl, ◌⊎◌, inl, inr, Bool, true, false, ◌&&◌, List, arith, ltb,
  ◌==◌, Bool-cases, lt_suc-cases,
}
use course_cs439_operating_s.Thread.{Donation}
use course_cs439_operating_s.Donation.{lock_at, seek_other}

-- The entry at `k` is over the lock, over another lock.
abbrev pub Same : List Donation → ℕ → ℕ → Type 0
Same ds lock k = (lock_at ds k == lock) ≡ true

abbrev pub Other : List Donation → ℕ → ℕ → Type 0
Other ds lock k = (lock_at ds k == lock) ≡ false

pub record Sought (ds : List Donation) (lock i n n' : ℕ) : Type 0 where
  pub above : i < n'
  pub within : n' ≤ n
  pub passed : (k : ℕ) → n' ≤ k → k < n → Same ds lock k
  pub stop : Other ds lock (n' - 1) ⊎ (n' ≡ suc i)

and_left : (a b : Bool) → (a && b) ≡ true → a ≡ true
and_left true b h = refl
and_left false b h = cc

stop_at :
    (ds : List Donation) (lock i j : ℕ)
    → ((lock_at ds j == lock) && ltb i j) ≡ false
    → i < suc j
    → Other ds lock (suc j - 1) ⊎ (suc j ≡ suc i)
stop_at ds lock i j h lt = let e : suc j - 1 ≡ j = omega arith in rw e (ground arith)

pub seek_other-Sought :
    (ds : List Donation) (lock i n : ℕ) → i < n → Sought ds lock i n (seek_other ds lock i n)
unfolding seek_other
seek_other-Sought ds lock i zero h = elim h [ ]
seek_other-Sought ds lock i (suc j) h = elim (Bool-cases ((lock_at ds j == lock) && ltb i j)) [
  | inl more ↦
      let next = seek_other-Sought ds lock i j (ground arith) in
      rw more (record {
        above = next.above;
        within = omega (arith, next.within);
        passed = λ k lo hi. elim (lt_suc-cases k j hi) [
          | inl lt ↦ next.passed k lo lt
          | inr eq ↦ rw eq (and_left (lock_at ds j == lock) (ltb i j) more)
        ];
        stop = next.stop;
      })
  | inr done ↦ rw done (record {
    above = h;
    within = omega arith;
    passed = λ k lo hi. absurd (omega arith);
    stop = stop_at ds lock i j done h;
  })
]
