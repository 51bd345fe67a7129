-- ===== src/Donation/Tests.antt =====
-- Runs of the donation code: thread 2 waits for lock 100 of thread 1, which also has a donor over 200.
use course_cs439_operating_s.Base.{
  ℕ, ◌≡◌, refl, ◌↔◌, false, Option, none, some, [], ◌∷◌, arith, ◌==◌, if◌then◌else◌, get_elem?,
  zero, suc,
}
use course_cs439_operating_s.Thread.{
  Tid, null, thread_magic, running, blocked, Thread, Threads, Donation, update, is_thread,
}
use course_cs439_operating_s.Donation.{
  highest_donated, active_priority, update_active_priority, drop_donors, drop_loop, seek_other,
}
use course_cs439_operating_s.Donation.Chain.{Absent, Forward, Updated, update_active_priority_lem}
use course_cs439_operating_s.Donation.Kept.{
  kept_donors, HasEntry, kept_donors_iff, release_keeps_priority,
}

abbrev given : Tid → ℕ → Donation
given t l = record { thread = t; lock = l }

abbrev waits : ℕ → Donation → Thread
waits p d = record {
  status = blocked;
  native_priority = p;
  priority = p;
  donors = [];
  donee = d;
  magic = thread_magic;
}

abbrev holder : Thread
holder = record {
  status = running;
  native_priority = 10;
  priority = 50;
  donors = given 2 100 ∷ given 3 200 ∷ [];
  donee = given null null;
  magic = thread_magic;
}

abbrev nobody : Thread
nobody = record {
  status = blocked;
  native_priority = 0;
  priority = 0;
  donors = [];
  donee = given null null;
  magic = 0;
}

abbrev table : Threads
table t =
    if t == 1
    then holder
    else if t == 2
    then waits 50 (given 1 100)
    else if t == 3
    then waits 40 (given 1 200)
    else nobody

runs : ℕ
unfolding update_active_priority active_priority highest_donated is_thread update drop_loop
    seek_other
runs = 0

abbrev priority_in : Option Threads → Tid → ℕ
priority_in none t = 0
priority_in (some ts) t = (ts t).priority

highest_of_two : priority_in (update_active_priority 2 table 2) 1 ≡ 50
unfolding runs
highest_of_two = refl

out_of_fuel : update_active_priority 1 table 2 ≡ none
unfolding runs
out_of_fuel = refl

holder-Forward :
    (k : ℕ) (d : Donation) → get_elem? holder.donors k ≡ some d → Absent d.thread (1 ∷ [])
holder-Forward zero d h = let t : d.thread ≡ 2 = cc in (λ e. absurd (omega arith), tt)
holder-Forward (suc zero) d h = let t : d.thread ≡ 3 = cc in (λ e. absurd (omega arith), tt)
holder-Forward (suc (suc k)) d h = absurd (cc h)

table-Forward : Forward table (2 ∷ 1 ∷ [])
table-Forward = ((λ e. absurd (omega arith), tt), λ k d h. absurd (cc h), (tt, holder-Forward, tt))

update_active_priority_lem_example :
    (ts' : Threads) × (update_active_priority 2 table 2 ≡ some ts') × Updated table ts' (2 ∷ 1 ∷ [])
unfolding runs
update_active_priority_lem_example =
    update_active_priority_lem 2 table 2 (1 ∷ []) refl (refl, refl, refl) table-Forward
      (omega arith)

kept_donors_iff_example :
    HasEntry (kept_donors (given 2 100 ∷ given 3 200 ∷ []) 100) (given 3 200)
    ↔ (HasEntry (given 2 100 ∷ given 3 200 ∷ []) (given 3 200) × ((200 == 100) ≡ false))
kept_donors_iff_example = kept_donors_iff (given 2 100 ∷ given 3 200 ∷ []) 100 (given 3 200)

release_keeps_priority_example :
    drop_donors 5 table 1 100
    ≡ some (update table 1 (record holder { donors = given 3 200 ∷ given 3 200 ∷ [] }), false)
release_keeps_priority_example =
    release_keeps_priority 5 table 1 100 (given 2 100) (given 3 200) refl refl
      (λ e. absurd (omega arith)) (omega arith)
