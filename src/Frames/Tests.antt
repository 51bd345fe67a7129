-- ===== src/Frames/Tests.antt =====
-- Runs on three frames: the first is pinned, the second was accessed, the third is dirty.
use course_cs439_operating_s.Base.{
  ℕ, ◌+◌, ◌<◌, ◌≡◌, refl, true, false, Option, none, some, arith, ◌==◌,
}
use course_cs439_operating_s.Frames.{
  Frame, Pagedir, Search, is_suitable, is_dirty, is_accessed, is_readonly, is_free, set_dirty,
  set_accessed, pagedir_is_dirty, pagedir_is_accessed, pagedir_set_dirty, pagedir_set_accessed,
  advance, search_round, search_loop, find_victim, must_swap,
}
use course_cs439_operating_s.Frames.Clock.{find_victim-Unpinned}

abbrev frames : ℕ → Frame
frames i = record {
  uaddr = 4096 + i;
  writable = true;
  kpage = 8192 + i;
  pinned = i == 0;
  async_write = false;
}

abbrev pagedir : Pagedir
pagedir = record { has_pte = λ a. true; dirty = λ a. a == 4098; accessed = λ a. a == 4097 }

abbrev victim_of : Option (Search × ℕ) → Option ℕ
victim_of none = none
victim_of (some (s, v)) = some v

second_chance : victim_of (find_victim 10 3 frames pagedir 0) ≡ some 1
unfolding find_victim search_loop search_round advance is_suitable is_dirty is_accessed is_readonly
    is_free set_dirty set_accessed pagedir_is_dirty pagedir_is_accessed pagedir_set_dirty
    pagedir_set_accessed
second_chance = refl

-- The page of another process, which the page directory of the running thread does not know, is not written.
other_process : must_swap (record pagedir { has_pte = λ a. false }) (frames 2) ≡ false
unfolding must_swap is_dirty pagedir_is_dirty
other_process = refl

find_victim-Unpinned_example :
    (s : Search) × (victim : ℕ) × (find_victim 10 3 frames pagedir 1 ≡ some (s, victim))
    × (victim < 3)
    × ((frames victim).pinned ≡ false)
    × ((j : ℕ) → (s.frames j).uaddr ≡ (frames j).uaddr)
    × ((j : ℕ) → (s.frames j).pinned ≡ (frames j).pinned)
find_victim-Unpinned_example =
    find_victim-Unpinned frames 3 1 (omega arith) (λ i h e. absurd (omega (arith, e))) 10 pagedir 2
      (omega arith) refl (omega arith)
