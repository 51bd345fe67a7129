-- ===== src/Bitmap/Create.antt =====
-- A new bitmap, and the count of its bits: bitmap_create and bitmap_count in
-- pintos/src/lib/kernel/bitmap.c.
use course_cs439_operating_s.Base.{
  ℕ, zero, suc, ◌+◌, ◌%◌, ◌<◌, ◌≤◌, Bool, true, false, none, some, List, if◌then◌else◌, get_elem?,
  get_elem?-lt, length, ◌≡◌, refl, sym, ap, ◌∙◌, arith,
}
use course_cs439_operating_s.Bitmap.{
  Bitmap, elem_idx, elem_cnt, bitmap_set_all, bitmap_create, bitmap_count, count_loop, same,
}
use course_cs439_operating_s.Bitmap.Bits.{digit}
use course_cs439_operating_s.Bitmap.Words.{Represents, elem_idx-lt, bitmap_test-digit}
use course_cs439_operating_s.Bitmap.Scan.{
  filled, bitmap_set_multiple-Represents, assert_range_holds,
}

-- The bits of elements as they stand in memory.
abbrev pub bits_of : List ℕ → ℕ → Bool
bits_of block j = elim (get_elem? block (elem_idx j)) [ none ↦ false | some w ↦ digit w (j % 32) ]

bits_of-digit :
    (block : List ℕ) (j : ℕ) {w : ℕ}
    → get_elem? block (elem_idx j) ≡ some w
    → bits_of block j ≡ digit w (j % 32)
bits_of-digit block j e = rw (bits_of, e) refl

pub block-Represents :
    (bit_cnt : ℕ) (block : List ℕ)
    → bit_cnt < 4294967265
    → length block ≡ elem_cnt bit_cnt
    → Represents (record { bit_cnt = bit_cnt; bits = block }) (bits_of block)
block-Represents bit_cnt block small size = record {
  small = small;
  elems = size;
  bits = λ j h.
      let (w, e) = get_elem?-lt block (elem_idx j) (rw size (elem_idx-lt j bit_cnt h small)) in
      bitmap_test-digit _ j w h e ∙ ap some (sym (bits_of-digit block j e));
}

all_filled :
    {b : Bitmap} (f : ℕ → Bool)
    → Represents b (filled 0 b.bit_cnt false f)
    → Represents b (λ _. false)
all_filled {b = b} f r = record {
  small = r.small;
  elems = r.elems;
  bits = λ j h. r.bits j h ∙ ap some (ground arith);
}

-- Whatever stands in the memory that malloc gives, bitmap_create makes a bitmap with no bit set.
pub bitmap_create-Represents :
    (bit_cnt : ℕ) (block : List ℕ)
    → bit_cnt < 4294967265
    → length block ≡ elem_cnt bit_cnt
    → (b : Bitmap) × (bitmap_create true (some block) bit_cnt ≡ some (some b))
      × (b.bit_cnt ≡ bit_cnt)
      × Represents b (λ _. false)
unfolding bitmap_create bitmap_set_all
bitmap_create-Represents bit_cnt block small size =
    let (b, e, n, r) =
      bitmap_set_multiple-Represents (record { bit_cnt = bit_cnt; bits = block }) (bits_of block) 0
        bit_cnt false (block-Represents bit_cnt block small size) (omega arith) in
    (b, rw e refl, n, all_filled (bits_of block) (rw n r))

-- The bits from `start` on, `cnt` of them, that are `value`.
pub count_bits : (ℕ → Bool) → (start cnt : ℕ) → Bool → ℕ
count_bits f start zero value = 0
count_bits f start (suc cnt) value =
    (if same (f start) value then 1 else 0) + count_bits f (suc start) cnt value

count_loop_lem :
    (b : Bitmap) (f : ℕ → Bool) (start cnt : ℕ) (value : Bool) (acc : ℕ)
    → Represents b f
    → start + cnt ≤ b.bit_cnt
    → count_loop b start cnt value acc ≡ some (acc + count_bits f start cnt value)
unfolding count_loop count_bits
count_loop_lem b f start zero value acc r h = ap some (omega arith)
count_loop_lem b f start (suc cnt) value acc r h = rw (r.bits start (omega arith)) (
    count_loop_lem b f (suc start) cnt value (if same (f start) value then suc acc else acc) r
      (omega arith)
    ∙ ap some (ground arith))

pub bitmap_count_lem :
    (b : Bitmap) (f : ℕ → Bool) (start cnt : ℕ) (value : Bool)
    → Represents b f
    → start + cnt ≤ b.bit_cnt
    → bitmap_count b start cnt value ≡ some (count_bits f start cnt value)
unfolding bitmap_count
bitmap_count_lem b f start cnt value r h =
    rw (assert_range_holds b start cnt r.small h)
      (count_loop_lem b f start cnt value 0 r h ∙ ap some (omega arith))
