-- ===== src/Frames.antt =====
-- The choice of a frame to evict: evict_frame of pintos/src/vm/frame.c, with the bits of a page directory in
-- pintos/src/userprog/pagedir.c. The frames are numbered in the order of all_frames, and the clock hand is a
-- number. `none` is a failed ASSERT, or a loop that took more rounds than its fuel.
pub mod Sweep
pub mod Clock
mod Tests
use course_cs439_operating_s.Base.{
  ℕ, zero, suc, ◌*◌, Bool, true, false, ◌&&◌, ◌||◌, not, Option, none, some, ltb, ◌==◌,
  if◌then◌else◌, ◌>>=◌, ◌>>◌, assert,
}

-- struct frame, with the address and the `writable` of its user page; the address 0 is that of no page.
pub record Frame : Type 0 where
  pub uaddr : ℕ
  pub writable : Bool
  pub kpage : ℕ
  pub pinned : Bool
  pub async_write : Bool

-- The page directory of the running thread: for which addresses it has an entry, and two of its bits.
pub record Pagedir : Type 0 where
  pub has_pte : ℕ → Bool
  pub dirty : ℕ → Bool
  pub accessed : ℕ → Bool

abbrev with_bit : (ℕ → Bool) → ℕ → Bool → ℕ → Bool
with_bit bits a b c = if c == a then b else bits c

pub pagedir_is_dirty : Pagedir → ℕ → Bool
pagedir_is_dirty pd vpage = pd.has_pte vpage && pd.dirty vpage

pub pagedir_is_accessed : Pagedir → ℕ → Bool
pagedir_is_accessed pd vpage = pd.has_pte vpage && pd.accessed vpage

pub pagedir_set_dirty : Pagedir → ℕ → Bool → Pagedir
pagedir_set_dirty pd vpage b =
    if pd.has_pte vpage then record pd { dirty = with_bit pd.dirty vpage b } else pd

pub pagedir_set_accessed : Pagedir → ℕ → Bool → Pagedir
pagedir_set_accessed pd vpage b =
    if pd.has_pte vpage then record pd { accessed = with_bit pd.accessed vpage b } else pd

pub is_free : Frame → Bool
is_free fp = fp.uaddr == 0

-- The queries of a frame, where their ASSERT that it is not free holds.
pub is_dirty : Pagedir → Frame → Bool
is_dirty pd fp = pagedir_is_dirty pd fp.uaddr || pagedir_is_dirty pd fp.kpage

pub is_accessed : Pagedir → Frame → Bool
is_accessed pd fp = pagedir_is_accessed pd fp.uaddr || pagedir_is_accessed pd fp.kpage

pub set_dirty : Pagedir → Frame → Bool → Pagedir
set_dirty pd fp b = pagedir_set_dirty (pagedir_set_dirty pd fp.uaddr b) fp.kpage b

pub set_accessed : Pagedir → Frame → Bool → Pagedir
set_accessed pd fp b = pagedir_set_accessed (pagedir_set_accessed pd fp.uaddr b) fp.kpage b

pub is_readonly : Frame → Bool
is_readonly fp = not fp.writable

-- The variables of the loop: `chosen` is the frame of the last round.
pub record Search : Type 0 where
  pub frames : ℕ → Frame
  pub pagedir : Pagedir
  pub clockhand : ℕ
  pub revolution : ℕ
  pub found : Bool
  pub chosen : ℕ

-- The test of a frame, which gets weaker with each revolution.
pub is_suitable : (revolution : ℕ) → Pagedir → Frame → Bool
is_suitable zero pd fp =
    not fp.pinned
    && (is_free fp || is_readonly fp || (not (is_accessed pd fp) && not (is_dirty pd fp)))
is_suitable (suc zero) pd fp =
    not fp.pinned && (is_free fp || is_readonly fp || not (is_dirty pd fp))
is_suitable (suc (suc n)) pd fp = not fp.pinned

-- list_next of the clock hand, past the end of the list to its begin.
pub advance : (frame_cnt clockhand : ℕ) → ℕ
advance frame_cnt clockhand = if suc clockhand == frame_cnt then 0 else suc clockhand

-- The body of the loop. set_accessed fails its ASSERT on a free frame.
pub search_round : (frame_cnt old_clockhand : ℕ) → Search → Option Search
search_round frame_cnt old_clockhand s = do
  let fp = s.frames s.clockhand
  let found = is_suitable s.revolution s.pagedir fp
  assert (not (is_free fp))
  let pd1 = set_accessed s.pagedir fp false
  let fp' = if is_dirty pd1 fp then record fp { async_write = true } else fp
  let pd2 = if is_dirty pd1 fp then set_dirty pd1 fp false else pd1
  let clockhand' = advance frame_cnt s.clockhand
  some (record {
    frames = λ i. if i == s.clockhand then fp' else s.frames i;
    pagedir = pd2;
    clockhand = clockhand';
    revolution = if clockhand' == old_clockhand then suc s.revolution else s.revolution;
    found = found;
    chosen = s.clockhand;
  })

-- `while (revolution < 3 && !found)`
pub search_loop : (fuel frame_cnt old_clockhand : ℕ) → Search → Option Search
search_loop zero frame_cnt old_clockhand s = none
search_loop (suc fuel) frame_cnt old_clockhand s = elim (ltb s.revolution 3 && not s.found) [
  | false ↦ some s
  | true ↦ do
    s' ← search_round frame_cnt old_clockhand s
    search_loop fuel frame_cnt old_clockhand s'
]

-- The search of evict_frame from a clock hand that stands in the list, up to the frame that it found.
pub find_victim :
    (fuel frame_cnt : ℕ) → (ℕ → Frame) → Pagedir → (clockhand : ℕ) → Option (Search × ℕ)
find_victim fuel frame_cnt frames pd clockhand = do
  s ← search_loop fuel frame_cnt clockhand (record {
    frames = frames;
    pagedir = pd;
    clockhand = clockhand;
    revolution = 0;
    found = false;
    chosen = clockhand;
  })
  assert s.found
  assert (not (s.frames s.chosen).pinned)
  some (s, s.chosen)

-- Whether the page of the victim is written to swap.
pub must_swap : Pagedir → Frame → Bool
must_swap pd fp = is_dirty pd fp || fp.async_write
