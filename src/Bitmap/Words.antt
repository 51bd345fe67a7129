-- ===== src/Bitmap/Words.antt =====
-- The elements of a bitmap hold one bit for each index: pintos/src/lib/kernel/bitmap.c.
use Prim.Native.Nat.{bit_and, bit_or, bit_xor}
use native.Mathlib.Decide.{ℕ_discrete}
use native.Mathlib.Nat.{pow-suc, one-le-pow}
use course_cs439_operating_s.Base.{
  ℕ, zero, suc, ◌-◌, ◌%◌, ◌^◌, ◌<◌, Bool, true, false, not, ◌&&◌, some, ltb, ◌==◌, if◌then◌else◌,
  get_elem?, set, length, length-set, get_elem?-set_self, get_elem?-set_ne, get_elem?-lt, ◌≡◌, ◌≢◌,
  inl, inr, refl, sym, ap, ◌∙◌, arith, Bool-cases, ==_iff,
}
use course_cs439_operating_s.Bitmap.{
  Bitmap, elem_idx, elem_cnt, bit_mask, change_elem, bitmap_mark, bitmap_reset, bitmap_flip,
  bitmap_set, bitmap_test,
}
use course_cs439_operating_s.Bitmap.Bits.{
  digit, digit_or, digit_and, digit_xor, digit_mask, digit_complement, masked_digit, opposite,
}

-- The bitmap holds the bits `f`, up to its size.
pub record Represents (b : Bitmap) (f : ℕ → Bool) : Type 0 where
  pub small : b.bit_cnt < 4294967265
  pub elems : length b.bits ≡ elem_cnt b.bit_cnt
  pub bits : (j : ℕ) → j < b.bit_cnt → bitmap_test b j ≡ some (f j)

pub elem_idx-lt : (i n : ℕ) → i < n → n < 4294967265 → elem_idx i < elem_cnt n
unfolding elem_idx elem_cnt
elem_idx-lt i n h small = omega arith

pow-lt : (i n : ℕ) → i < n → 2 ^ i < 2 ^ n
pow-lt i zero h = elim h [ ]
pow-lt zero (suc n) h = omega (arith, pow-suc 2 n, one-le-pow n 2)
pow-lt (suc i) (suc n) h = omega (arith, pow-suc 2 n, pow-suc 2 i, pow-lt i n (omega arith))

pub bitmap_test-digit :
    (b : Bitmap) (j w : ℕ)
    → j < b.bit_cnt
    → get_elem? b.bits (elem_idx j) ≡ some w
    → bitmap_test b j ≡ some (digit w (j % 32))
unfolding bitmap_test bit_mask
bitmap_test-digit b j w h e =
    let inside : ltb j b.bit_cnt ≡ true = ground arith in
    rw (inside, e) (ap some (masked_digit w (j % 32)))

-- One element is changed in the digit of `i`, by `v`.
abbrev ChangesDigit : (ℕ → ℕ) → ℕ → (Bool → Bool) → Type 0
ChangesDigit g i v =
    (w k : ℕ) → k < 32 → digit (g w) k ≡ (if i % 32 == k then v (digit w k) else digit w k)

-- Two bits of one element are the same if they stand at the same place.
place_eq : (i j : ℕ) → elem_idx i ≡ elem_idx j → (i % 32 == j % 32) ≡ (i == j)
unfolding elem_idx
place_eq i j e = ground arith

elem_ne : (i j : ℕ) → elem_idx i ≢ elem_idx j → (i == j) ≡ false
elem_ne i j h = elim (Bool-cases (i == j)) [
  | inl e ↦ absurd (h (ap elem_idx ((==_iff i j).0 e)))
  | inr e ↦ e
]

lt→ltb : (a b : ℕ) → a < b → ltb a b ≡ true
lt→ltb a b h = ground arith

some-inj {ℓ} : {A : Type ℓ} {a b : A} → some a ≡ some b → a ≡ b
some-inj e = cc

module _ (b : Bitmap) (f : ℕ → Bool) (r : Represents b f) (i : ℕ) (inside : i < b.bit_cnt) where
  -- The test of a bit after the element at `i` has become `g w`, in the same element and in another.
  test_same :
      (g : ℕ → ℕ) (v : Bool → Bool) (w : ℕ)
      → ChangesDigit g i v
      → get_elem? b.bits (elem_idx i) ≡ some w
      → (j : ℕ) → j < b.bit_cnt
      → elem_idx i ≡ elem_idx j
      → bitmap_test (record b { bits = set b.bits (elem_idx i) (g w) }) j
        ≡ some (if i == j then v (f j) else f j)
  test_same g v w changes ew j hj e =
      let place : elem_idx i < length b.bits =
        rw r.elems (elem_idx-lt i b.bit_cnt inside r.small) in
      let old : digit w (j % 32) ≡ f j =
        some-inj (sym (bitmap_test-digit b j w hj (rw (sym e) ew)) ∙ r.bits j hj) in
      let here : (i % 32 == j % 32) ≡ (i == j) = place_eq i j e in
      bitmap_test-digit _ j (g w) hj
        (rw (sym e) (get_elem?-set_self b.bits (elem_idx i) (g w) place))
      ∙ ap some (changes w (j % 32) (omega arith) ∙ rw (here, old) refl)

  test_other :
      (g : ℕ → ℕ) (v : Bool → Bool) (w j : ℕ)
      → j < b.bit_cnt
      → elem_idx i ≢ elem_idx j
      → bitmap_test (record b { bits = set b.bits (elem_idx i) (g w) }) j
        ≡ some (if i == j then v (f j) else f j)
  test_other g v w j hj ne =
      let (u, eu) =
        get_elem?-lt b.bits (elem_idx j) (rw r.elems (elem_idx-lt j b.bit_cnt hj r.small)) in
      bitmap_test-digit _ j u hj (get_elem?-set_ne b.bits (g w) ne ∙ eu)
      ∙ sym (bitmap_test-digit b j u hj eu)
      ∙ rw (elem_ne i j ne) (r.bits j hj)

  change_elem-Represents :
      (g : ℕ → ℕ) (v : Bool → Bool)
      → ChangesDigit g i v
      → (b' : Bitmap) × (change_elem b (elem_idx i) g ≡ some b')
        × (b'.bit_cnt ≡ b.bit_cnt)
        × Represents b' (λ j. if i == j then v (f j) else f j)
  unfolding change_elem
  change_elem-Represents g v changes =
      let (w, ew) =
        get_elem?-lt b.bits (elem_idx i) (rw r.elems (elem_idx-lt i b.bit_cnt inside r.small)) in
      let b' : Bitmap = record b { bits = set b.bits (elem_idx i) (g w) } in
      (
        b',
        rw ew refl,
        refl,
        record {
          small = r.small;
          elems = length-set b.bits (elem_idx i) (g w) ∙ r.elems;
          bits = λ j hj. elim (ℕ_discrete (elem_idx i) (elem_idx j)) [
            | yes e ↦ test_same g v w changes ew j hj e
            | no ne ↦ test_other g v w j hj ne
          ];
        },
      )

-- Setting, resetting and flipping one bit.
mark-ChangesDigit : (i : ℕ) → ChangesDigit (λ w. bit_or w (bit_mask i)) i (λ _. true)
unfolding bit_mask
mark-ChangesDigit i w k h = ground (arith, digit_or w (2 ^ (i % 32)) k, digit_mask (i % 32) k)

opposite_by : (a e : Bool) → opposite a e ≡ (if e then not a else a)
opposite_by true true = refl
opposite_by true false = refl
opposite_by false true = refl
opposite_by false false = refl

and_not_by : (a e : Bool) → (a && not e) ≡ (if e then false else a)
and_not_by true true = refl
and_not_by true false = refl
and_not_by false true = refl
and_not_by false false = refl

flip-ChangesDigit : (i : ℕ) → ChangesDigit (λ w. bit_xor w (bit_mask i)) i not
unfolding bit_mask
flip-ChangesDigit i w k h =
    digit_xor w (2 ^ (i % 32)) k
    ∙ rw (digit_mask (i % 32) k) (opposite_by (digit w k) (i % 32 == k))

reset-ChangesDigit :
    (i : ℕ) → ChangesDigit (λ w. bit_and w (4294967295 - bit_mask i)) i (λ _. false)
unfolding bit_mask
reset-ChangesDigit i w k h =
    digit_and w (4294967295 - 2 ^ (i % 32)) k
    ∙ rw
        (
          digit_complement 32 (2 ^ (i % 32)) k (pow-lt (i % 32) 32 (omega arith)) h,
          digit_mask (i % 32) k,
        )
        (and_not_by (digit w k) (i % 32 == k))

module _ (b : Bitmap) (f : ℕ → Bool) (r : Represents b f) (i : ℕ) (inside : i < b.bit_cnt) where
  -- bitmap_set of a bit within the bitmap succeeds and changes that bit, no other.
  pub bitmap_set-Represents :
      (value : Bool)
      → (b' : Bitmap) × (bitmap_set b i value ≡ some b')
        × (b'.bit_cnt ≡ b.bit_cnt)
        × Represents b' (λ j. if i == j then value else f j)
  unfolding bitmap_set bitmap_mark bitmap_reset
  bitmap_set-Represents true =
      rw (lt→ltb _ _ inside)
        (change_elem-Represents b f r i inside _ (λ _. true) (mark-ChangesDigit i))
  bitmap_set-Represents false =
      rw (lt→ltb _ _ inside)
        (change_elem-Represents b f r i inside _ (λ _. false) (reset-ChangesDigit i))

  pub bitmap_flip-Represents :
      (b' : Bitmap) × (bitmap_flip b i ≡ some b')
      × (b'.bit_cnt ≡ b.bit_cnt)
      × Represents b' (λ j. if i == j then not (f j) else f j)
  unfolding bitmap_flip
  bitmap_flip-Represents = change_elem-Represents b f r i inside _ not (flip-ChangesDigit i)

  -- bitmap_mark looks at no bound; within the bitmap it sets the bit.
  pub bitmap_mark-Represents :
      (b' : Bitmap) × (bitmap_mark b i ≡ some b')
      × (b'.bit_cnt ≡ b.bit_cnt)
      × Represents b' (λ j. if i == j then true else f j)
  unfolding bitmap_mark
  bitmap_mark-Represents = change_elem-Represents b f r i inside _ (λ _. true) (mark-ChangesDigit i)
