-- ===== src/Swap.antt =====
-- Swap slots: pintos/src/vm/swap.c. A page is the address of its page_entry, a number; NULL is 0. A slot
-- is told from others by its first sector. The disk and the frames are functions from sector numbers
-- to what one sector holds. `none` as a result is a PANIC of devices/block.c, for a sector past
-- the end of the disk, or a write through the NULL that malloc returned. That the list is changed
-- with interrupts off is left out.
pub mod Sectors
pub mod RoundTrip
pub mod Clean
mod Tests
use course_cs439_operating_s.Base.{
  ℕ, zero, suc, ◌+◌, Bool, true, false, ◌&&◌, not, Option, none, some, List, [], ◌∷◌, ◌++◌, ltb,
  ◌==◌, if◌then◌else◌,
}

abbrev pub Page : Type 0
Page = ℕ

abbrev pub null_page : Page
null_page = 0

-- PGSIZE / BLOCK_SECTOR_SIZE
abbrev pub sectors_per_page : ℕ
sectors_per_page = 8

pub record Slot : Type 0 where
  pub sector : ℕ
  pub upage : Page
  pub tid : ℕ

pub put {ℓ} : {A : Type ℓ} → (ℕ → A) → ℕ → A → ℕ → A
put f i v j = if i == j then v else f j

-- The last slot and those before it.
pub pop_back : List Slot → Option (List Slot × Slot)
pop_back [] = none
pop_back (s ∷ ss) = elim (pop_back ss) [
  | none ↦ some ([], s)
  | some (front, last) ↦ some (s ∷ front, last)
]

-- The slot that malloc returns; its fields but `sector` are not set yet.
abbrev fresh : ℕ → Slot
fresh sector = record { sector = sector; upage = null_page; tid = 0 }

pub get_swapped_page : List Slot → Page → Option Slot
get_swapped_page [] p = none
get_swapped_page (s ∷ ss) p =
    if not (s.upage == null_page) && (s.upage == p) then some s else get_swapped_page ss p

-- list_remove of the element of this slot.
pub remove_slot : ℕ → List Slot → List Slot
remove_slot sector [] = []
remove_slot sector (s ∷ ss) = if s.sector == sector then ss else s ∷ remove_slot sector ss

-- The loop of clean_swap from the slots `after` on, behind those of `before`. A slot of the thread
-- moves to the back, where list_next ends the loop.
pub clean_loop : ℕ → (before after : List Slot) → List Slot
clean_loop tid before [] = before
clean_loop tid before (s ∷ ss) =
    if not (s.upage == null_page) && (s.tid == tid)
    then before ++ (ss ++ record { sector = s.sector; upage = null_page; tid = 0 } ∷ [])
    else clean_loop tid (before ++ s ∷ []) ss

module _ {ℓ} (A : Type ℓ) where
  -- `frames p i` is what the frame of the page `p` holds in its sector `i`; `swap_of` is the field `swap`
  -- of a page, as the first sector of the slot.
  pub record Swap : Type ℓ where
    pub swap_size : ℕ
    pub next_sector : ℕ
    pub swap_list : List Slot
    pub disk : ℕ → A
    pub frames : Page → ℕ → A
    pub swap_of : Page → Option ℕ

module _ {ℓ} {A : Type ℓ} where
  -- The loop of write_swap from the sector `i` on, with `n` sectors left.
  pub write_sectors : (n size : ℕ) → (ℕ → A) → (sector : ℕ) → (ℕ → A) → (i : ℕ) → Option (ℕ → A)
  write_sectors zero size disk sector kpage i = some disk
  write_sectors (suc n) size disk sector kpage i = elim (ltb (sector + i) size) [
    | true ↦ write_sectors n size (put disk (sector + i) (kpage i)) sector kpage (suc i)
    | false ↦ none
  ]

  -- The loop of read_swap, likewise.
  pub read_sectors : (n size : ℕ) → (ℕ → A) → (sector : ℕ) → (ℕ → A) → (i : ℕ) → Option (ℕ → A)
  read_sectors zero size disk sector kpage i = some kpage
  read_sectors (suc n) size disk sector kpage i = elim (ltb (sector + i) size) [
    | true ↦ read_sectors n size disk sector (put kpage i (disk (sector + i))) (suc i)
    | false ↦ none
  ]

  -- No slot is the result `some (w, none)`.
  pub make_slot : Bool → Swap A → Option (Swap A × Option Slot)
  make_slot malloc_ok w =
      if ltb w.next_sector w.swap_size
      then (if malloc_ok
          then some (
            record w { next_sector = w.next_sector + sectors_per_page },
            some (fresh w.next_sector),
          )
          else none)
      else some (w, none)

  pub get_free_slot : Bool → Swap A → Option (Swap A × Option Slot)
  get_free_slot malloc_ok w = elim (pop_back w.swap_list) [
    | none ↦ make_slot malloc_ok w
    | some (front, last) ↦
        if last.upage == null_page
        then some (record w { swap_list = front }, some last)
        else make_slot malloc_ok w
  ]

  -- `page_tid` is the field `tid` of the page.
  pub push_to_swap : Bool → Swap A → (page_tid : ℕ) → Page → Option (Swap A × Bool)
  push_to_swap malloc_ok w page_tid p = elim (get_free_slot malloc_ok w) [
    | none ↦ none
    | some (w', none) ↦ some (w', false)
    | some (w', some slot) ↦
        elim (write_sectors sectors_per_page w'.swap_size w'.disk slot.sector (w'.frames p) 0) [
          | none ↦ none
          | some disk ↦ some (
            record w' {
              disk = disk;
              swap_of = put w'.swap_of p (some slot.sector);
              swap_list = record { sector = slot.sector; upage = p; tid = page_tid } ∷ w'.swap_list;
            },
            true,
          )
        ]
  ]

  -- Sets the slot free and rotates it to the back.
  pub rotate : Swap A → Slot → Swap A
  rotate w s = record w {
    swap_list =
        remove_slot s.sector w.swap_list
        ++ record { sector = s.sector; upage = null_page; tid = s.tid } ∷ [];
    swap_of = put w.swap_of s.upage none;
  }

  pub pull_from_swap : Swap A → Page → Option (Swap A × Bool)
  pull_from_swap w p = elim (get_swapped_page w.swap_list p) [
    | none ↦ some (w, false)
    | some slot ↦
        elim (read_sectors sectors_per_page w.swap_size w.disk slot.sector (w.frames slot.upage)
          0) [
            | none ↦ none
            | some kpage ↦
                some (rotate (record w { frames = put w.frames slot.upage kpage }) slot, true)
          ]
  ]

  -- free_swap, whose asserts are that the slot has a page and the page a slot.
  pub free_swap : Swap A → Slot → Option (Swap A)
  free_swap w slot =
      if slot.upage == null_page
      then none
      else elim (w.swap_of slot.upage) [ none ↦ none | some _ ↦ some (rotate w slot) ]

  pub clean_swap : Swap A → ℕ → Swap A
  clean_swap w tid = record w { swap_list = clean_loop tid [] w.swap_list }
