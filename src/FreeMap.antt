-- ===== src/FreeMap.antt =====
-- The free map of the file system: pintos/src/filesys/free-map.c. A bit of the map is set for each
-- sector in use. `none` as a result is a failed ASSERT, a PANIC or an access through NULL; `is_open` tells
-- that free_map_file is not NULL. What file_write_at and file_read_at return is an argument, and so are the words read.
pub mod Allocate
mod Tests
use course_cs439_operating_s.Base.{
  ℕ, Bool, true, false, not, ◌&&◌, Option, none, some, List, if◌then◌else◌, ◌>>=◌, ◌>>◌, assert,
}
use course_cs439_operating_s.Bitmap.{
  Bitmap, bitmap_create, bitmap_mark, bitmap_all, bitmap_set_multiple, bitmap_scan_and_flip,
  bitmap_read, bitmap_write,
}

abbrev pub free_map_sector : ℕ
free_map_sector = 0

abbrev pub root_dir_sector : ℕ
root_dir_sector = 1

pub record FreeMap : Type 0 where
  pub map : Bitmap
  pub is_open : Bool

pub free_map_init : Bool → Option (List ℕ) → (block_size : ℕ) → Option FreeMap
free_map_init b block block_size = do
  created ← bitmap_create b block block_size
  map ← created
  map ← bitmap_mark map free_map_sector
  map ← bitmap_mark map root_dir_sector
  some (record { map = map; is_open = false })

-- `none` inside is the result false.
pub free_map_allocate : FreeMap → (written cnt : ℕ) → Option (FreeMap × Option ℕ)
free_map_allocate fm written cnt = do
  (map, sector) ← bitmap_scan_and_flip fm.map 0 cnt false
  elim sector [
    | none ↦ some (record fm { map = map }, none)
    | some first ↦
        if fm.is_open && not (bitmap_write map written)
        then (do
          undone ← bitmap_set_multiple map first cnt false
          some (record fm { map = undone }, none))
        else some (record fm { map = map }, some first)
  ]

-- bitmap_write goes through free_map_file, whether or not it is NULL; its result is not looked at.
pub free_map_release : FreeMap → (sector cnt : ℕ) → Option FreeMap
free_map_release fm sector cnt = do
  all ← bitmap_all fm.map sector cnt
  assert all
  map ← bitmap_set_multiple fm.map sector cnt false
  assert fm.is_open
  some (record fm { map = map })

-- `found` tells that inode_open and file_open succeed.
pub free_map_open : FreeMap → (found : Bool) → List ℕ → ℕ → Option FreeMap
free_map_open fm found words read = do
  assert found
  (map, success) ← bitmap_read fm.map words read
  assert success
  some (record { map = map; is_open = true })

-- `created` tells that inode_create succeeds.
pub free_map_create : FreeMap → (created found : Bool) (written : ℕ) → Option FreeMap
free_map_create fm created found written = do
  assert created
  assert found
  assert (bitmap_write fm.map written)
  some (record fm { is_open = true })
