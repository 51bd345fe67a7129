-- ===== src/Bitmap/Scan.antt =====
-- Ranges of bits: bitmap_set_multiple, bitmap_contains, bitmap_scan and bitmap_scan_and_flip in
-- pintos/src/lib/kernel/bitmap.c, for a bitmap that holds the bits `f`.
use course_cs439_operating_s.Base.{
  ℕ, zero, suc, ◌+◌, ◌-◌, ◌<◌, ◌≤◌, Bool, true, false, not, ◌&&◌, ◌||◌, Option, none, some, ltb,
  leb, ◌==◌, if◌then◌else◌, ◌≡◌, inl, inr, refl, sym, ap, ◌∙◌, arith, Bool-cases, le-cases,
  lt_suc-cases,
}
use course_cs439_operating_s.Bitmap.{
  Bitmap, same, assert_range, set_loop, bitmap_set_multiple, contains_loop, bitmap_contains,
  scan_loop, bitmap_scan, bitmap_scan_and_flip, bitmap_write, bitmap_all,
}
use course_cs439_operating_s.Bitmap.Words.{Represents, bitmap_set-Represents}

-- The bits `f` after those from `start` on, `cnt` of them, were set to `value`.
abbrev pub filled : (start cnt : ℕ) → Bool → (ℕ → Bool) → ℕ → Bool
filled start cnt value f j = if leb start j && ltb j (start + cnt) then value else f j

pub Represents-ext :
    {b : Bitmap} {f g : ℕ → Bool} → ((j : ℕ) → f j ≡ g j) → Represents b f → Represents b g
Represents-ext e r = record {
  small = r.small;
  elems = r.elems;
  bits = λ j h. r.bits j h ∙ ap some (e j);
}

pub bitmap_write-size :
    (a b : Bitmap) (written : ℕ)
    → a.bit_cnt ≡ b.bit_cnt
    → bitmap_write a written ≡ bitmap_write b written
unfolding bitmap_write
bitmap_write-size a b written e = rw e refl

pub assert_range_holds :
    (b : Bitmap) (start cnt : ℕ)
    → b.bit_cnt < 4294967265
    → start + cnt ≤ b.bit_cnt
    → assert_range b start cnt ≡ some tt
unfolding assert_range
assert_range_holds b start cnt small h = ground arith

set_loop-Represents :
    (b : Bitmap) (f : ℕ → Bool) (start cnt : ℕ) (value : Bool)
    → Represents b f
    → start + cnt ≤ b.bit_cnt
    → (b' : Bitmap) × (set_loop b start cnt value ≡ some b')
      × (b'.bit_cnt ≡ b.bit_cnt)
      × Represents b' (filled start cnt value f)
unfolding set_loop
set_loop-Represents b f start zero value r h = (b, refl, refl, Represents-ext (λ j. ground arith) r)
set_loop-Represents b f start (suc cnt) value r h =
    let (b1, e1, n1, r1) = bitmap_set-Represents b f r start (omega arith) value in
    let (b2, e2, n2, r2) =
      set_loop-Represents b1 (λ j. if start == j then value else f j) (suc start) cnt value r1
        (omega arith) in
    (b2, rw e1 e2, n2 ∙ n1, Represents-ext (λ j. ground arith) r2)

pub bitmap_set_multiple-Represents :
    (b : Bitmap) (f : ℕ → Bool) (start cnt : ℕ) (value : Bool)
    → Represents b f
    → start + cnt ≤ b.bit_cnt
    → (b' : Bitmap) × (bitmap_set_multiple b start cnt value ≡ some b')
      × (b'.bit_cnt ≡ b.bit_cnt)
      × Represents b' (filled start cnt value f)
unfolding bitmap_set_multiple
bitmap_set_multiple-Represents b f start cnt value r h =
    rw (assert_range_holds b start cnt r.small h) (set_loop-Represents b f start cnt value r h)

-- Whether one of `cnt` bits from `start` on is `value`.
pub some_bit : (ℕ → Bool) → (start cnt : ℕ) → Bool → Bool
some_bit f start zero value = false
some_bit f start (suc cnt) value = same (f start) value || some_bit f (suc start) cnt value

contains_loop_lem :
    (b : Bitmap) (f : ℕ → Bool) (start cnt : ℕ) (value : Bool)
    → Represents b f
    → start + cnt ≤ b.bit_cnt
    → contains_loop b start cnt value ≡ some (some_bit f start cnt value)
unfolding contains_loop some_bit
contains_loop_lem b f start zero value r h = refl
contains_loop_lem b f start (suc cnt) value r h =
    rw (r.bits start (omega arith))
      (ground (arith, contains_loop_lem b f (suc start) cnt value r (omega arith)))

pub bitmap_contains_lem :
    (b : Bitmap) (f : ℕ → Bool) (start cnt : ℕ) (value : Bool)
    → Represents b f
    → start + cnt ≤ b.bit_cnt
    → bitmap_contains b start cnt value ≡ some (some_bit f start cnt value)
unfolding bitmap_contains
bitmap_contains_lem b f start cnt value r h =
    rw (assert_range_holds b start cnt r.small h) (contains_loop_lem b f start cnt value r h)

pub bitmap_all_lem :
    (b : Bitmap) (f : ℕ → Bool) (start cnt : ℕ)
    → Represents b f
    → start + cnt ≤ b.bit_cnt
    → bitmap_all b start cnt ≡ some (not (some_bit f start cnt false))
unfolding bitmap_all
bitmap_all_lem b f start cnt r h = rw (bitmap_contains_lem b f start cnt false r h) refl

-- `cnt` bits from `i` on are all `value`.
abbrev pub IsGroup : (ℕ → Bool) → (i cnt : ℕ) → Bool → Type 0
IsGroup f i cnt value = (j : ℕ) → i ≤ j → j < i + cnt → f j ≡ value

same-not : (x v : Bool) → same x (not v) ≡ false → x ≡ v
same-not true true e = refl
same-not true false e = cc
same-not false true e = cc
same-not false false e = refl

same_diff : (x v : Bool) → same x (not v) ≡ true → x ≡ v → ⊥
same_diff true true e h = cc
same_diff true false e h = cc
same_diff false true e h = cc
same_diff false false e h = cc

pub none-IsGroup :
    (f : ℕ → Bool) (i cnt : ℕ) (value : Bool)
    → some_bit f i cnt (not value) ≡ false
    → IsGroup f i cnt value
unfolding some_bit
none-IsGroup f i zero value e j h k = absurd (omega arith)
none-IsGroup f i (suc cnt) value e j h k = elim (le-cases i j h) [
  | inl lt ↦ none-IsGroup f (suc i) cnt value (ground arith) j (omega arith) (omega arith)
  | inr eq ↦ same-not (f j) value (rw (sym eq) (ground arith))
]

pub some_not-IsGroup :
    (f : ℕ → Bool) (i cnt : ℕ) (value : Bool)
    → some_bit f i cnt (not value) ≡ true
    → ¬ IsGroup f i cnt value
unfolding some_bit
some_not-IsGroup f i zero value e g = cc
some_not-IsGroup f i (suc cnt) value e g = elim (Bool-cases (same (f i) (not value))) [
  | inl d ↦ same_diff (f i) value d (g i (omega arith) (omega arith))
  | inr d ↦
      some_not-IsGroup f (suc i) cnt value (ground arith) (λ j h k. g j (omega arith) (omega arith))
]

-- The first group from `start` on within `n` bits, or none.
abbrev pub FirstGroup : (ℕ → Bool) → (n start cnt : ℕ) → Bool → Option ℕ → Type 0
FirstGroup f n start cnt value none = (i : ℕ) → start ≤ i → i + cnt ≤ n → ¬ IsGroup f i cnt value
FirstGroup f n start cnt value (some i) =
    (start ≤ i)
    × (i + cnt ≤ n)
    × IsGroup f i cnt value
    × ((i' : ℕ) → start ≤ i' → i' < i → ¬ IsGroup f i' cnt value)

module _ (b : Bitmap) (f : ℕ → Bool) (r : Represents b f) (start cnt : ℕ) (value : Bool) where
  scan_loop_lem :
      (rounds i : ℕ)
      → cnt ≤ b.bit_cnt
      → rounds ≡ suc (b.bit_cnt - cnt) - i
      → start ≤ i
      → ((i' : ℕ) → start ≤ i' → i' < i → ¬ IsGroup f i' cnt value)
      → (o : Option ℕ) × (scan_loop b rounds i cnt value ≡ some o)
        × FirstGroup f b.bit_cnt start cnt value o
  unfolding scan_loop
  scan_loop_lem zero i fits e h earlier = (none, refl, λ i' lo hi. earlier i' lo (omega arith))
  scan_loop_lem (suc rounds) i fits e h earlier =
      let found = bitmap_contains_lem b f i cnt (not value) r (omega arith) in
      elim (Bool-cases (some_bit f i cnt (not value))) [
        | inl other ↦
            rw (found, other)
              (scan_loop_lem rounds (suc i) fits (omega arith) (omega arith) (λ i' lo hi.
                elim (lt_suc-cases i' i hi) [
                  | inl lt ↦ earlier i' lo lt
                  | inr eq ↦ rw eq (some_not-IsGroup f i cnt value other)
                ]))
        | inr all ↦
            rw (found, all)
              (some i, refl, (h, omega arith, none-IsGroup f i cnt value all, earlier))
      ]

  -- bitmap_scan from within the bitmap returns the first group from there on, or BITMAP_ERROR if
  -- there is none.
  pub bitmap_scan-FirstGroup :
      start ≤ b.bit_cnt
      → (o : Option ℕ) × (bitmap_scan b start cnt value ≡ some o)
        × FirstGroup f b.bit_cnt start cnt value o
  unfolding bitmap_scan
  bitmap_scan-FirstGroup h =
      let ok : leb start b.bit_cnt ≡ true = ground arith in
      elim (Bool-cases (leb cnt b.bit_cnt)) [
        | inl fits ↦
            rw (ok, fits)
              (scan_loop_lem (suc (b.bit_cnt - cnt) - start) start (ground arith) refl (omega arith)
                (λ i' lo hi. absurd (omega arith)))
        | inr big ↦
            let past : b.bit_cnt < cnt = ground arith in
            rw (ok, big) (none, refl, λ i lo hi. absurd (omega arith))
      ]

  -- What bitmap_scan_and_flip leaves: the first group turned round, or the bits as they were.
  abbrev pub Flipped : Bitmap → Option ℕ → Type 0
  Flipped b' none = b' ≡ b
  Flipped b' (some i) = (b'.bit_cnt ≡ b.bit_cnt) × Represents b' (filled i cnt (not value) f)

  -- Of a bitmap that holds certain bits, bitmap_scan_and_flip from within it returns the first group from there on and
  -- turns its bits round, no others; if there is no group it returns BITMAP_ERROR and changes nothing.
  pub bitmap_scan_and_flip-Flipped :
      start ≤ b.bit_cnt
      → (b' : Bitmap) × (o : Option ℕ) × (bitmap_scan_and_flip b start cnt value ≡ some (b', o))
        × FirstGroup f b.bit_cnt start cnt value o
        × Flipped b' o
  unfolding bitmap_scan_and_flip
  bitmap_scan_and_flip-Flipped h = flip (bitmap_scan-FirstGroup h)
    where
      flip :
          (o : Option ℕ) × (bitmap_scan b start cnt value ≡ some o)
            × FirstGroup f b.bit_cnt start cnt value o
          → (b' : Bitmap) × (o : Option ℕ) × (bitmap_scan_and_flip b start cnt value ≡ some (b', o))
            × FirstGroup f b.bit_cnt start cnt value o
            × Flipped b' o
      flip (none, e, first) = (b, none, rw e refl, first, refl)
      flip (some i, e, first) =
          let (b', e', n', r') = bitmap_set_multiple-Represents b f i cnt (not value) r first.1 in
          (b', some i, rw (e, e') refl, first, (n', r'))
