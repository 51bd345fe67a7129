-- ===== src/Donation.antt =====
-- Priority donation: updateActivePriority of pintos/src/threads/thread.c, and the parts of
-- lock_acquire and lock_release of pintos/src/threads/synch.c that register and drop donors.
-- The index `j` of lock_release is kept as `n`, which is j + 1, since j is -1 for no donor.
pub mod Update
pub mod Chain
pub mod Seek
pub mod Release
pub mod Kept
mod Tests
use course_cs439_operating_s.Base.{
  ℕ, zero, suc, ◌+◌, ◌-◌, Bool, true, false, ◌&&◌, not, Option, none, some, List, [], ◌∷◌, ◌++◌,
  ltb, ◌==◌, if◌then◌else◌, length, get_elem?, set,
}
use course_cs439_operating_s.Thread.{
  Tid, null, pri_min, pri_depth, Thread, Threads, Donation, update, is_thread,
}

-- The loop of updateActivePriority over the donors.
unfoldable pub highest_donated : Threads → ℕ → List Donation → ℕ
highest_donated ts highest [] = highest
highest_donated ts highest (d ∷ ds) =
    highest_donated ts
      (if is_thread ts d.thread && ltb highest (ts d.thread).priority
        then (ts d.thread).priority
        else highest)
      ds

-- The priority that updateActivePriority gives to a thread.
unfoldable pub active_priority : Threads → Tid → ℕ
active_priority ts t =
    let donated = highest_donated ts pri_min (ts t).donors in
    if ltb (ts t).native_priority donated then donated else (ts t).native_priority

-- updateActivePriority calls itself on the thread that `t` donated to: a round of fuel for each
-- call, `none` if it runs out.
unfoldable pub update_active_priority : ℕ → Threads → Tid → Option Threads
update_active_priority zero ts t = none
update_active_priority (suc fuel) ts t = elim (is_thread ts t) [
  | false ↦ none
  | true ↦
      let ts' = update ts t (record (ts t) { priority = active_priority ts t }) in
      elim (is_thread ts' (ts t).donee.thread) [
        | true ↦ update_active_priority fuel ts' (ts t).donee.thread
        | false ↦ some ts'
      ]
]

-- What lock_acquire does before it waits: `current` donates to the holder of the lock.
unfoldable pub donate : ℕ → Threads → (current holder lock : ℕ) → Option Threads
donate fuel ts current holder lock =
    if not (holder == null)
      && ltb (ts holder).native_priority (ts current).priority
      && ltb (length (ts holder).donors) pri_depth
    then (let given = update ts holder (record (ts holder) {
      donors = (ts holder).donors ++ record { thread = current; lock = lock } ∷ [];
    }) in
        let taken =
          update given current
            (record (given current) { donee = record { thread = holder; lock = lock } }) in
        update_active_priority fuel taken holder)
    else some ts

-- What lock_acquire does with the lock in hand.
unfoldable pub recall : Threads → Tid → Threads
recall ts current =
    update ts current (record (ts current) { donee = record { thread = null; lock = null } })

abbrev pub lock_at : List Donation → ℕ → ℕ
lock_at ds i = elim (get_elem? ds i) [ none ↦ null | some d ↦ d.lock ]

abbrev pub copy_entry : List Donation → ℕ → ℕ → List Donation
copy_entry ds i j = elim (get_elem? ds j) [ none ↦ ds | some d ↦ set ds i d ]

-- The inner loop of lock_release: `while (donors[j].lock == lock && j > i) j--`, with n = j + 1.
pub seek_other : List Donation → (lock i n : ℕ) → ℕ
seek_other ds lock i zero = zero
seek_other ds lock i (suc j) =
    if (lock_at ds j == lock) && ltb i j then seek_other ds lock i j else suc j

-- The outer loop of lock_release, with n = j + 1; `rounds` bounds the rounds that are left. It
-- returns `i` and the array.
unfoldable pub drop_loop : ℕ → List Donation → (lock i n : ℕ) → ℕ × List Donation
drop_loop zero ds lock i n = (i, ds)
drop_loop (suc rounds) ds lock i n =
    if ltb i n
    then (let n' = if lock_at ds i == lock then seek_other ds lock i n else n in
        let ds' =
          if (lock_at ds i == lock) && not (lock_at ds (n' - 1) == lock)
          then copy_entry ds i (n' - 1)
          else ds in
        let rest = drop_loop rounds ds' lock (suc i) n' in
        if lock_at ds' i == lock then (i, ds') else rest)
    else (i, ds)

abbrev pub take {ℓ} : {A : Type ℓ} → ℕ → List A → List A
take zero xs = []
take (suc n) [] = []
take (suc n) (x ∷ xs) = x ∷ take n xs

-- What lock_release does with the donors of the running thread, and `hasWaiter`.
unfoldable pub drop_donors : ℕ → Threads → (current lock : ℕ) → Option (Threads × Bool)
drop_donors fuel ts current lock =
    let me = ts current in
    let count = length me.donors in
    let (i, ds) = drop_loop count me.donors lock 0 count in
    let swept = update ts current (record me { donors = ds }) in
    let trimmed = update ts current (record me { donors = take i ds }) in
    if ltb me.native_priority me.priority
    then (if ltb i count
        then elim (update_active_priority fuel trimmed current) [
          | none ↦ none
          | some ts' ↦ some (ts', true)
        ]
        else some (swept, false))
    else some (ts, false)
