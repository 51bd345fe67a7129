-- ===== src/Frames/Sweep.antt =====
-- What each round of the clock of evict_frame, in pintos/src/vm/frame.c, does to the hand and to a frame.
use course_cs439_operating_s.Base.{
  ℕ, zero, suc, ◌+◌, ◌-◌, ◌<◌, ◌≤◌, ◌≡◌, ◌≢◌, refl, sym, ap, ◌∙◌, inl, inr, Bool, true, false, some,
  arith, leb, ◌==◌, if◌then◌else◌, Bool-cases,
}
use course_cs439_operating_s.Frames.{
  Frame, Pagedir, Search, is_free, is_dirty, is_suitable, set_accessed, set_dirty, advance,
  search_round,
}

-- How many frames the hand has passed since `old`.
abbrev pub passed : (n old i : ℕ) → ℕ
passed n old i = if leb old i then i - old else i + n - old

-- What holds in every round, for the frames as they were at first.
pub record Sweep (frames : ℕ → Frame) (n old : ℕ) (s : Search) : Type 0 where
  pub hand : s.clockhand < n
  pub uaddr : (i : ℕ) → (s.frames i).uaddr ≡ (frames i).uaddr
  pub pinned : (i : ℕ) → (s.frames i).pinned ≡ (frames i).pinned
  pub refused :
      s.revolution ≡ 2
      → s.found ≡ false
      → (i : ℕ) → i < n
      → passed n old i < passed n old s.clockhand
      → (frames i).pinned ≡ true
  pub exhausted : 3 ≤ s.revolution → s.found ≡ false → (i : ℕ) → i < n → (frames i).pinned ≡ true
  pub suitable : s.found ≡ true → (s.chosen < n) × ((frames s.chosen).pinned ≡ false)

pub suitable-pinned :
    (r : ℕ) (pd : Pagedir) (fp : Frame) → is_suitable r pd fp ≡ true → fp.pinned ≡ false
unfolding is_suitable
suitable-pinned zero pd fp h = ground (arith, h)
suitable-pinned (suc zero) pd fp h = ground (arith, h)
suitable-pinned (suc (suc n)) pd fp h = ground (arith, h)

pub unsuitable-pinned :
    (r : ℕ) (pd : Pagedir) (fp : Frame) → 2 ≤ r → is_suitable r pd fp ≡ false → fp.pinned ≡ true
unfolding is_suitable
unsuitable-pinned zero pd fp le h = absurd (omega (arith, le))
unsuitable-pinned (suc zero) pd fp le h = absurd (omega (arith, le))
unsuitable-pinned (suc (suc n)) pd fp le h = ground (arith, h)

pub advance-lt : (n c : ℕ) → c < n → advance n c < n
unfolding advance
advance-lt n c h = ground arith

-- The hand passes one frame more, or comes back to where it started.
pub passed-advance :
    (n old c : ℕ)
    → old < n
    → c < n
    → advance n c ≢ old
    → passed n old (advance n c) ≡ suc (passed n old c)
unfolding advance
passed-advance n old c ho hc ne = ground arith

pub passed_around : (n old c : ℕ) → old < n → c < n → advance n c ≡ old → suc (passed n old c) ≡ n
unfolding advance
passed_around n old c ho hc e = ground arith

pub passed-lt : (n old i : ℕ) → old < n → i < n → passed n old i < n
passed-lt n old i ho hi = ground arith

pub passed_injective :
    (n old i j : ℕ) → old < n → i < n → j < n → passed n old i ≡ passed n old j → i ≡ j
passed_injective n old i j ho hi hj e = ground arith

-- The frame of a round after it, and the bits.
abbrev marked : Pagedir → Frame → Frame
marked pd fp =
    if is_dirty (set_accessed pd fp false) fp then record fp { async_write = true } else fp

abbrev pub next : (n old : ℕ) → Search → Search
next n old s =
    let fp = s.frames s.clockhand in
    let pd1 = set_accessed s.pagedir fp false in
    let clockhand' = advance n s.clockhand in
    record {
      frames = λ i. if i == s.clockhand then marked s.pagedir fp else s.frames i;
      pagedir = if is_dirty pd1 fp then set_dirty pd1 fp false else pd1;
      clockhand = clockhand';
      revolution = if clockhand' == old then suc s.revolution else s.revolution;
      found = is_suitable s.revolution s.pagedir fp;
      chosen = s.clockhand;
    }

pub round_runs :
    (n old : ℕ) (s : Search)
    → is_free (s.frames s.clockhand) ≡ false
    → search_round n old s ≡ some (next n old s)
unfolding search_round
round_runs n old s used = rw used refl

marked_same :
    (pd : Pagedir) (fp : Frame)
    → ((marked pd fp).uaddr ≡ fp.uaddr) × ((marked pd fp).pinned ≡ fp.pinned)
marked_same pd fp = by_bit (is_dirty (set_accessed pd fp false) fp)
  where
    by_bit :
        (b : Bool)
        → ((if b then record fp { async_write = true } else fp).uaddr ≡ fp.uaddr)
          × ((if b then record fp { async_write = true } else fp).pinned ≡ fp.pinned)
    by_bit true = (refl, refl)
    by_bit false = (refl, refl)

pub next-same :
    (n old : ℕ) (s : Search) (i : ℕ)
    → (((next n old s).frames i).uaddr ≡ (s.frames i).uaddr)
      × (((next n old s).frames i).pinned ≡ (s.frames i).pinned)
next-same n old s i = elim (Bool-cases (i == s.clockhand)) [
  | inr other ↦
      let there : (next n old s).frames i ≡ s.frames i = rw other refl in
      (ap (λ (f : Frame). f.uaddr) there, ap (λ (f : Frame). f.pinned) there)
  | inl same ↦
      let e : i ≡ s.clockhand = ground (arith, same) in
      let here : (next n old s).frames i ≡ marked s.pagedir (s.frames s.clockhand) = rw same refl in
      let (u, p) = marked_same s.pagedir (s.frames s.clockhand) in
      (
        ap (λ (f : Frame). f.uaddr) here ∙ u ∙ ap (λ j. (s.frames j).uaddr) (sym e),
        ap (λ (f : Frame). f.pinned) here ∙ p ∙ ap (λ j. (s.frames j).pinned) (sym e),
      )
]
