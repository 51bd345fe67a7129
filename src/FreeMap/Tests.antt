-- ===== src/FreeMap/Tests.antt =====
-- Runs of pintos/src/filesys/free-map.c on a disk of 40 sectors.
use course_cs439_operating_s.Base.{ℕ, true, Option, some, List, [], ◌∷◌, ltb, ◌≡◌, refl, arith}
use course_cs439_operating_s.Bitmap.{
  elem_cnt, bitmap_scan_and_flip, bitmap_set_multiple, set_loop, bitmap_set, bitmap_mark,
  change_elem, bitmap_scan, scan_loop, bitmap_contains, contains_loop, assert_range, bitmap_test,
  elem_idx, bit_mask, bitmap_write, byte_cnt,
}
use course_cs439_operating_s.Bitmap.Words.{Represents}
use course_cs439_operating_s.Bitmap.Create.{bits_of, block-Represents}
use course_cs439_operating_s.FreeMap.{FreeMap, free_map_init, free_map_allocate, free_map_release}
use course_cs439_operating_s.FreeMap.Allocate.{
  Allocated, free_map_allocate-Allocated, free_map_allocate-release, free_map_init-Represents,
}

-- Sectors 0, 1 and 33 are in use.
abbrev elems : List ℕ
elems = 3 ∷ 2 ∷ []

abbrev forty : FreeMap
forty = record { map = record { bit_cnt = 40; bits = elems }; is_open = true }

forty-Represents : Represents forty.map (bits_of elems)
unfolding elem_cnt
forty-Represents = block-Represents 40 elems (omega arith) refl

free_map_allocate-Allocated_example :
    (fm' : FreeMap) × (o : Option ℕ) × (free_map_allocate forty 8 4 ≡ some (fm', o))
    × Allocated forty (bits_of elems) 8 4 fm' o
free_map_allocate-Allocated_example =
    free_map_allocate-Allocated forty (bits_of elems) forty-Represents 8 4

-- Sector 2, of which the file gets to know.
abbrev with_two : FreeMap
with_two = record { map = record { bit_cnt = 40; bits = 7 ∷ 2 ∷ [] }; is_open = true }

free_map_init-Represents_example :
    (fm : FreeMap) × (free_map_init true (some elems) 40 ≡ some fm)
    × (fm.map.bit_cnt ≡ 40)
    × Represents fm.map (λ j. ltb j 2)
unfolding elem_cnt
free_map_init-Represents_example =
    free_map_init-Represents 40 elems (omega arith) (omega arith) refl

allocate_two : free_map_allocate forty 8 1 ≡ some (with_two, some 2)
unfolding free_map_allocate bitmap_scan_and_flip bitmap_set_multiple set_loop bitmap_set bitmap_mark
    change_elem bitmap_scan scan_loop bitmap_contains contains_loop assert_range bitmap_test
    elem_idx bit_mask bitmap_write byte_cnt elem_cnt
allocate_two = refl

free_map_allocate-release_example :
    (fm' : FreeMap) × (free_map_release with_two 2 1 ≡ some fm')
    × (fm'.map.bit_cnt ≡ 40)
    × Represents fm'.map (bits_of elems)
free_map_allocate-release_example =
    free_map_allocate-release forty (bits_of elems) 8 1 forty-Represents refl allocate_two
