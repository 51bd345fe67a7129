-- ===== src/Bitmap/Tests.antt =====
-- Runs of pintos/src/lib/kernel/bitmap.c on a bitmap of 40 bits, two elements.
use course_cs439_operating_s.Base.{
  ℕ, true, false, Option, none, some, List, [], ◌∷◌, ◌==◌, if◌then◌else◌, ◌≡◌, refl, arith,
}
use course_cs439_operating_s.Bitmap.{
  Bitmap, bitmap_set, bitmap_test, bitmap_scan, bitmap_scan_and_flip, bitmap_count, bitmap_read,
  scan_loop, bitmap_contains, contains_loop, assert_range, elem_idx, elem_cnt, byte_cnt, last_mask,
  bit_mask, bitmap_set_multiple, set_loop, bitmap_mark, change_elem, count_loop,
}
use course_cs439_operating_s.Bitmap.Words.{Represents, bitmap_set-Represents}
use course_cs439_operating_s.Bitmap.Scan.{FirstGroup, Flipped, bitmap_scan_and_flip-Flipped}
use course_cs439_operating_s.Bitmap.Create.{bits_of, block-Represents}

-- Bits 0, 2 and 33 are set.
abbrev elems : List ℕ
elems = 5 ∷ 2 ∷ []

abbrev forty : Bitmap
forty = record { bit_cnt = 40; bits = elems }

forty-Represents : Represents forty (bits_of elems)
unfolding elem_cnt
forty-Represents = block-Represents 40 elems (omega arith) refl

-- The first four clear bits stand behind bit 2.
scan_four : bitmap_scan forty 0 4 false ≡ some (some 3)
unfolding bitmap_scan scan_loop bitmap_contains contains_loop assert_range bitmap_test elem_idx
    bit_mask
scan_four = refl

-- Six clear bits do not fit behind bit 33 with one more.
scan_seven : bitmap_scan forty 33 7 false ≡ some none
unfolding bitmap_scan scan_loop bitmap_contains contains_loop assert_range bitmap_test elem_idx
    bit_mask
scan_seven = refl

-- No bits are found where the search starts, not at 0.
scan_no_bits : bitmap_scan forty 7 0 true ≡ some (some 7)
unfolding bitmap_scan scan_loop bitmap_contains contains_loop assert_range
scan_no_bits = refl

flip_four :
    bitmap_scan_and_flip forty 0 4 false
    ≡ some (record { bit_cnt = 40; bits = 125 ∷ 2 ∷ [] }, some 3)
unfolding bitmap_scan_and_flip bitmap_set_multiple set_loop bitmap_set bitmap_mark change_elem
    bitmap_scan scan_loop bitmap_contains contains_loop assert_range bitmap_test elem_idx bit_mask
flip_four = refl

count_clear : bitmap_count forty 0 40 false ≡ some 37
unfolding bitmap_count count_loop assert_range bitmap_test elem_idx bit_mask
count_clear = refl

-- What stands behind bit 39 in the file is dropped.
read_bits :
    bitmap_read forty (7 ∷ 258 ∷ []) 8 ≡ some (record { bit_cnt = 40; bits = 7 ∷ 2 ∷ [] }, true)
unfolding bitmap_read change_elem last_mask byte_cnt elem_cnt
read_bits = refl

bitmap_set-Represents_example :
    (b' : Bitmap) × (bitmap_set forty 33 false ≡ some b')
    × (b'.bit_cnt ≡ 40)
    × Represents b' (λ j. if 33 == j then false else bits_of elems j)
bitmap_set-Represents_example =
    bitmap_set-Represents forty (bits_of elems) forty-Represents 33 (omega arith) false

bitmap_scan_and_flip-Flipped_example :
    (b' : Bitmap) × (o : Option ℕ) × (bitmap_scan_and_flip forty 1 4 false ≡ some (b', o))
    × FirstGroup (bits_of elems) 40 1 4 false o
    × Flipped forty (bits_of elems) forty-Represents 1 4 false b' o
bitmap_scan_and_flip-Flipped_example =
    bitmap_scan_and_flip-Flipped forty (bits_of elems) forty-Represents 1 4 false (omega arith)
