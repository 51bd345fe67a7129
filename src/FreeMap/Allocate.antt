-- ===== src/FreeMap/Allocate.antt =====
-- Allocation and release of sectors in pintos/src/filesys/free-map.c, for a map that holds the bits
-- `f`, set for the sectors in use.
use mathlib.Core.Path.{subst}
use course_cs439_operating_s.Base.{
  ◌==◌, List, length, ℕ, ◌+◌, ◌<◌, ◌≤◌, Bool, true, false, not, ◌&&◌, Option, none, some, ltb, leb,
  if◌then◌else◌, ◌≡◌, ◌⊎◌, inl, inr, refl, ◌∙◌, arith, Bool-cases,
}
use course_cs439_operating_s.Bitmap.{Bitmap, elem_cnt, bitmap_write, bitmap_scan_and_flip}
use course_cs439_operating_s.Bitmap.Words.{Represents, bitmap_mark-Represents}
use course_cs439_operating_s.Bitmap.Scan.{
  filled, IsGroup, FirstGroup, some_bit, bitmap_write-size, Represents-ext, Flipped, bitmap_all_lem,
  some_not-IsGroup, bitmap_set_multiple-Represents, bitmap_scan_and_flip-Flipped,
}
use course_cs439_operating_s.Bitmap.Create.{bitmap_create-Represents}
use course_cs439_operating_s.FreeMap.{FreeMap, free_map_init, free_map_allocate, free_map_release}

-- The map could be written to its file, or the file is not open yet.
abbrev pub kept : FreeMap → ℕ → Bool
kept fm written = not (fm.is_open && not (bitmap_write fm.map written))

-- The map and the sector after an allocation: as it was, or with the first free group taken.
abbrev pub Allocated : FreeMap → (ℕ → Bool) → ℕ → ℕ → FreeMap → Option ℕ → Type 0
Allocated fm f written cnt fm' none =
    Represents fm'.map f
    × (fm'.map.bit_cnt ≡ fm.map.bit_cnt)
    × ((kept fm written ≡ false) ⊎ FirstGroup f fm.map.bit_cnt 0 cnt false none)
Allocated fm f written cnt fm' (some first) =
    Represents fm'.map (filled first cnt true f)
    × (fm'.map.bit_cnt ≡ fm.map.bit_cnt)
    × (kept fm written ≡ true)
    × FirstGroup f fm.map.bit_cnt 0 cnt false (some first)

abbrev IsAllocated : FreeMap → (ℕ → Bool) → ℕ → ℕ → Option (FreeMap × Option ℕ) → Type 0
IsAllocated fm f written cnt none = ⊥
IsAllocated fm f written cnt (some (fm', o)) = Allocated fm f written cnt fm' o

filled_twice :
    (first cnt : ℕ) (f : ℕ → Bool)
    → IsGroup f first cnt false
    → (j : ℕ) → filled first cnt false (filled first cnt true f) j ≡ f j
filled_twice first cnt f g j = elim (Bool-cases (leb first j && ltb j (first + cnt))) [
  | inl here ↦ ground (arith, g j (ground arith) (ground arith))
  | inr away ↦ ground arith
]

filled_inside : (first cnt : ℕ) (f : ℕ → Bool) → IsGroup (filled first cnt true f) first cnt true
filled_inside first cnt f j h k = ground arith

module _ (fm : FreeMap) (f : ℕ → Bool) (r : Represents fm.map f) (written cnt : ℕ) where
  free_map_allocate-IsAllocated : IsAllocated fm f written cnt (free_map_allocate fm written cnt)
  unfolding free_map_allocate
  free_map_allocate-IsAllocated =
      after (bitmap_scan_and_flip-Flipped fm.map f r 0 cnt false (omega arith))
    where
      after :
          (b : Bitmap) × (o : Option ℕ) × (bitmap_scan_and_flip fm.map 0 cnt false ≡ some (b, o))
            × FirstGroup f fm.map.bit_cnt 0 cnt false o
            × Flipped fm.map f r 0 cnt false b o
          → IsAllocated fm f written cnt (free_map_allocate fm written cnt)
      after (b, none, e, first, left) = rw (e, left) (r, refl, inr first)
      after (b, some i, e, first, (size, r')) =
          let (b', e', size', r'') =
            bitmap_set_multiple-Represents b (filled i cnt true f) i cnt false r' (omega arith) in
          let same = bitmap_write-size b fm.map written size in
          elim (Bool-cases (fm.is_open && not (bitmap_write fm.map written))) [
            | inl failed ↦
                rw (e, same, failed, e')
                  (
                    Represents-ext (filled_twice i cnt f first.2) r'',
                    size' ∙ size,
                    inl (rw failed refl),
                  )
            | inr wrote ↦ rw (e, same, wrote) (r', size, rw wrote refl, first)
          ]

  -- On a free map of fewer than 2 ^ 32 - 31 sectors, free_map_allocate takes the first group of `cnt` free sectors and
  -- no others, if there is one and the map can be written to its file or the file is not open yet; otherwise
  -- it fails, with the map as it was.
  pub free_map_allocate-Allocated :
      (fm' : FreeMap) × (o : Option ℕ) × (free_map_allocate fm written cnt ≡ some (fm', o))
      × Allocated fm f written cnt fm' o
  free_map_allocate-Allocated =
      returned (free_map_allocate fm written cnt) refl free_map_allocate-IsAllocated
    where
      returned :
          (x : Option (FreeMap × Option ℕ))
          → free_map_allocate fm written cnt ≡ x
          → IsAllocated fm f written cnt x
          → (fm' : FreeMap) × (o : Option ℕ) × (free_map_allocate fm written cnt ≡ some (fm', o))
            × Allocated fm f written cnt fm' o
      returned none e h = absurd h
      returned (some (fm', o)) e h = (fm', o, e, h)

all_set-not : (f : ℕ → Bool) (i cnt : ℕ) → IsGroup f i cnt true → some_bit f i cnt false ≡ false
all_set-not f i cnt g = elim (Bool-cases (some_bit f i cnt false)) [
  | inl e ↦ absurd (some_not-IsGroup f i cnt true e g)
  | inr e ↦ e
]

-- If the file of the free map is open, free_map_release of sectors that are all in use succeeds and frees
-- these, no others.
pub free_map_release-Represents :
    (fm : FreeMap) (f : ℕ → Bool) (first cnt : ℕ)
    → Represents fm.map f
    → fm.is_open ≡ true
    → first + cnt ≤ fm.map.bit_cnt
    → IsGroup f first cnt true
    → (fm' : FreeMap) × (free_map_release fm first cnt ≡ some fm')
      × (fm'.map.bit_cnt ≡ fm.map.bit_cnt)
      × Represents fm'.map (filled first cnt false f)
unfolding free_map_release
free_map_release-Represents fm f first cnt r opened h g =
    let (b, e, size, r') = bitmap_set_multiple-Represents fm.map f first cnt false r h in
    (
      record fm { map = b },
      rw (bitmap_all_lem fm.map f first cnt r h, all_set-not f first cnt g, e, opened) refl,
      size,
      r',
    )

-- Allocation does not open or close the file.
allocate-is_open :
    (fm : FreeMap) (written cnt : ℕ) {fm' : FreeMap} {o : Option ℕ}
    → free_map_allocate fm written cnt ≡ some (fm', o)
    → fm'.is_open ≡ fm.is_open
unfolding free_map_allocate
allocate-is_open fm written cnt e = ground (arith, e)

-- If the file of the free map is open, releasing the sectors that free_map_allocate gave succeeds, and the
-- free map holds the bits that it held before.
pub free_map_allocate-release :
    (fm : FreeMap) (f : ℕ → Bool) (written cnt : ℕ) {fm' : FreeMap} {first : ℕ}
    → Represents fm.map f
    → fm.is_open ≡ true
    → free_map_allocate fm written cnt ≡ some (fm', some first)
    → (fm'' : FreeMap) × (free_map_release fm' first cnt ≡ some fm'')
      × (fm''.map.bit_cnt ≡ fm.map.bit_cnt)
      × Represents fm''.map f
free_map_allocate-release fm f written cnt {fm' = fm'} {first = first} r opened e =
    let taken : Allocated fm f written cnt fm' (some first) =
      subst (IsAllocated fm f written cnt) e (free_map_allocate-IsAllocated fm f r written cnt) in
    let (fm'', e', size, r') =
      free_map_release-Represents fm' (filled first cnt true f) first cnt taken.0
        (allocate-is_open fm written cnt e ∙ opened) (omega (arith, taken))
        (filled_inside first cnt f) in
    (fm'', e', size ∙ taken.1, Represents-ext (filled_twice first cnt f taken.3.2) r')

-- With memory for the map, on a disk of 2 sectors or more, free_map_init succeeds, and in the new map
-- the sectors of the free map and of the root directory are in use, no others.
pub free_map_init-Represents :
    (block_size : ℕ) (block : List ℕ)
    → 2 ≤ block_size
    → block_size < 4294967265
    → length block ≡ elem_cnt block_size
    → (fm : FreeMap) × (free_map_init true (some block) block_size ≡ some fm)
      × (fm.map.bit_cnt ≡ block_size)
      × Represents fm.map (λ j. ltb j 2)
unfolding free_map_init
free_map_init-Represents block_size block two small size =
    let (b, e, n, r) = bitmap_create-Represents block_size block small size in
    let (b1, e1, n1, r1) = bitmap_mark-Represents b (λ _. false) r 0 (omega arith) in
    let (b2, e2, n2, r2) =
      bitmap_mark-Represents b1 (λ j. if 0 == j then true else false) r1 1 (omega arith) in
    (
      record { map = b2; is_open = false },
      rw (e, e1, e2) refl,
      n2 ∙ n1 ∙ n,
      Represents-ext (λ j. ground arith) r2,
    )
