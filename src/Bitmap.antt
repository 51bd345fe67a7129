-- ===== src/Bitmap.antt =====
-- Bitmaps: pintos/src/lib/kernel/bitmap.c, on elements of 32 bits. `none` as a result is a failed ASSERT
-- or an access past the elements; BITMAP_ERROR is `none` inside. A size_t wraps at 2 ^ 32. The
-- outcomes of malloc are arguments: `b` tells whether the first one succeeds, `block` is what the second
-- returns, with the words that happen to stand there. So is what file_read_at and file_write_at return.
pub mod Bits
pub mod Words
pub mod Scan
pub mod Create
mod Tests
use Prim.Native.Nat.{bit_and, bit_or, bit_xor}
use course_cs439_operating_s.Base.{
  ℕ, zero, suc, ◌+◌, ◌-◌, ◌*◌, ◌/◌, ◌%◌, ◌^◌, Bool, true, false, not, Option, none, some, List, ltb,
  leb, ◌==◌, if◌then◌else◌, get_elem?, set, ◌>>=◌, ◌>>◌, assert,
}

abbrev pub size_max : ℕ
size_max = 4294967295

pub record Bitmap : Type 0 where
  pub bit_cnt : ℕ
  pub bits : List ℕ

unfoldable pub elem_idx : ℕ → ℕ
elem_idx bit_idx = bit_idx / 32

unfoldable pub bit_mask : ℕ → ℕ
bit_mask bit_idx = 2 ^ (bit_idx % 32)

unfoldable pub elem_cnt : ℕ → ℕ
elem_cnt bit_cnt = (bit_cnt + 31) % suc size_max / 32

unfoldable pub byte_cnt : ℕ → ℕ
unfolding elem_cnt
byte_cnt bit_cnt = 4 * elem_cnt bit_cnt

pub last_mask : Bitmap → ℕ
last_mask b = if b.bit_cnt % 32 == 0 then size_max else 2 ^ (b.bit_cnt % 32) - 1

-- One element of the map, changed.
unfoldable pub change_elem : Bitmap → ℕ → (ℕ → ℕ) → Option Bitmap
change_elem b idx f = do w ← get_elem? b.bits idx; some (record b { bits = set b.bits idx (f w) })

unfoldable pub bitmap_mark : Bitmap → ℕ → Option Bitmap
bitmap_mark b bit_idx = change_elem b (elem_idx bit_idx) (λ w. bit_or w (bit_mask bit_idx))

pub bitmap_reset : Bitmap → ℕ → Option Bitmap
bitmap_reset b bit_idx =
    change_elem b (elem_idx bit_idx) (λ w. bit_and w (size_max - bit_mask bit_idx))

pub bitmap_flip : Bitmap → ℕ → Option Bitmap
bitmap_flip b bit_idx = change_elem b (elem_idx bit_idx) (λ w. bit_xor w (bit_mask bit_idx))

unfoldable pub bitmap_set : Bitmap → ℕ → Bool → Option Bitmap
bitmap_set b idx value = do
  assert (ltb idx b.bit_cnt)
  if value then bitmap_mark b idx else bitmap_reset b idx

unfoldable pub bitmap_test : Bitmap → ℕ → Option Bool
bitmap_test b idx = do
  assert (ltb idx b.bit_cnt)
  w ← get_elem? b.bits (elem_idx idx)
  some (not (bit_and w (bit_mask idx) == 0))

-- The two ASSERTs on a range of bits.
unfoldable pub assert_range : Bitmap → (start cnt : ℕ) → Option (Unit {0})
assert_range b start cnt = do
  assert (leb start b.bit_cnt)
  assert (leb ((start + cnt) % suc size_max) b.bit_cnt)

unfoldable pub set_loop : Bitmap → (start cnt : ℕ) → Bool → Option Bitmap
set_loop b start zero value = some b
set_loop b start (suc cnt) value = do
  b' ← bitmap_set b start value
  set_loop b' (suc start) cnt value

unfoldable pub bitmap_set_multiple : Bitmap → (start cnt : ℕ) → Bool → Option Bitmap
bitmap_set_multiple b start cnt value = do assert_range b start cnt; set_loop b start cnt value

pub bitmap_set_all : Bitmap → Bool → Option Bitmap
bitmap_set_all b value = bitmap_set_multiple b 0 b.bit_cnt value

abbrev pub same : Bool → Bool → Bool
same true v = v
same false v = not v

pub count_loop : Bitmap → (start cnt : ℕ) → Bool → (value_cnt : ℕ) → Option ℕ
count_loop b start zero value value_cnt = some value_cnt
count_loop b start (suc cnt) value value_cnt = do
  bit ← bitmap_test b start
  count_loop b (suc start) cnt value (if same bit value then suc value_cnt else value_cnt)

pub bitmap_count : Bitmap → (start cnt : ℕ) → Bool → Option ℕ
bitmap_count b start cnt value = do assert_range b start cnt; count_loop b start cnt value 0

unfoldable pub contains_loop : Bitmap → (start cnt : ℕ) → Bool → Option Bool
contains_loop b start zero value = some false
contains_loop b start (suc cnt) value = do
  bit ← bitmap_test b start
  elim (same bit value) [ true ↦ some true | false ↦ contains_loop b (suc start) cnt value ]

unfoldable pub bitmap_contains : Bitmap → (start cnt : ℕ) → Bool → Option Bool
bitmap_contains b start cnt value = do assert_range b start cnt; contains_loop b start cnt value

pub bitmap_any : Bitmap → (start cnt : ℕ) → Option Bool
bitmap_any b start cnt = bitmap_contains b start cnt true

pub bitmap_none : Bitmap → (start cnt : ℕ) → Option Bool
bitmap_none b start cnt = do any ← bitmap_contains b start cnt true; some (not any)

pub bitmap_all : Bitmap → (start cnt : ℕ) → Option Bool
bitmap_all b start cnt = do any ← bitmap_contains b start cnt false; some (not any)

-- The loop of bitmap_scan from `i` on, with the rounds that are left.
unfoldable pub scan_loop : Bitmap → (rounds i cnt : ℕ) → Bool → Option (Option ℕ)
scan_loop b zero i cnt value = some none
scan_loop b (suc rounds) i cnt value = do
  other ← bitmap_contains b i cnt (not value)
  elim other [ true ↦ scan_loop b rounds (suc i) cnt value | false ↦ some (some i) ]

unfoldable pub bitmap_scan : Bitmap → (start cnt : ℕ) → Bool → Option (Option ℕ)
bitmap_scan b start cnt value = do
  assert (leb start b.bit_cnt)
  if leb cnt b.bit_cnt
      then scan_loop b (suc (b.bit_cnt - cnt) - start) start cnt value
      else some none

unfoldable pub bitmap_scan_and_flip : Bitmap → (start cnt : ℕ) → Bool → Option (Bitmap × Option ℕ)
bitmap_scan_and_flip b start cnt value = do
  idx ← bitmap_scan b start cnt value
  elim idx [
    | none ↦ some (b, none)
    | some i ↦ do b' ← bitmap_set_multiple b i cnt (not value); some (b', some i)
  ]

-- `none` inside is the NULL of a failed malloc.
pub bitmap_create : Bool → Option (List ℕ) → ℕ → Option (Option Bitmap)
bitmap_create false block bit_cnt = some none
bitmap_create true none bit_cnt =
    if bit_cnt == 0 then some (some (record { bit_cnt = 0; bits = List.[] })) else some none
bitmap_create true (some block) bit_cnt = do
  b ← bitmap_set_all (record { bit_cnt = bit_cnt; bits = block }) false
  some (some b)

-- `words` are the elements after file_read_at, which returns `read`.
pub bitmap_read : Bitmap → (words : List ℕ) (read : ℕ) → Option (Bitmap × Bool)
bitmap_read b words read = if b.bit_cnt == 0 then some (b, true) else do
  b' ←
      change_elem (record b { bits = words }) (elem_cnt b.bit_cnt - 1)
        (λ w. bit_and w (last_mask b))
  some (b', read == byte_cnt b.bit_cnt)

-- `written` is what file_write_at returns.
unfoldable pub bitmap_write : Bitmap → (written : ℕ) → Bool
bitmap_write b written = written == byte_cnt b.bit_cnt
