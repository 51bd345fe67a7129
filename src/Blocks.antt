-- ===== src/Blocks.antt =====
-- Blocks of memory: memcpy, memmove, memset and memchr of pintos/src/lib/string.c. A pointer is an
-- address, 0 being NULL, and no block reaches the end of the address space. `none` is a failed ASSERT.
pub mod Move
mod Tests
use course_cs439_operating_s.Base.{
  ℕ, zero, suc, ◌+◌, ◌-◌, ◌%◌, Bool, true, false, ◌||◌, not, Option, none, some, ltb, ◌==◌,
  if◌then◌else◌, ◌>>=◌, ◌>>◌, assert,
}

-- The byte at each address.
abbrev pub Bytes : Type 0
Bytes = ℕ → ℕ

pub store : Bytes → ℕ → ℕ → Bytes
store m address byte a = if a == address then byte else m a

-- `pointer != NULL || size == 0`
pub has_block : (pointer size : ℕ) → Bool
has_block pointer size = not (pointer == 0) || (size == 0)

-- The loop of memcpy and the first one of memmove: the bytes, and where `dst` is after it.
pub copy_up : (size : ℕ) → Bytes → (dst src : ℕ) → Bytes × ℕ
copy_up zero m dst src = (m, dst)
copy_up (suc size) m dst src = copy_up size (store m dst (m src)) (suc dst) (suc src)

-- The second loop of memmove, from the ends of the blocks.
pub copy_down : (size : ℕ) → Bytes → (dst src : ℕ) → Bytes × ℕ
copy_down zero m dst src = (m, dst)
copy_down (suc size) m dst src =
    copy_down size (store m (dst - 1) (m (src - 1))) (dst - 1) (src - 1)

pub memcpy : Bytes → (dst src size : ℕ) → Option (Bytes × ℕ)
memcpy m dst src size = do
  assert (has_block dst size)
  assert (has_block src size)
  let (m', _) = copy_up size m dst src
  some (m', dst)

pub memmove : Bytes → (dst src size : ℕ) → Option (Bytes × ℕ)
memmove m dst src size = do
  assert (has_block dst size)
  assert (has_block src size)
  if ltb dst src
      then some (copy_up size m dst src)
      else some (copy_down size m (dst + size) (src + size))

-- The loop of memset, for the conversion of `value` to a byte.
pub set_up : (size : ℕ) → Bytes → (dst byte : ℕ) → Bytes
set_up zero m dst byte = m
set_up (suc size) m dst byte = set_up size (store m dst byte) (suc dst) byte

-- `value` is the word of the int.
pub memset : Bytes → (dst value size : ℕ) → Option (Bytes × ℕ)
memset m dst value size = do
  assert (has_block dst size)
  some (set_up size m dst (value % 256), dst)

pub find_byte : (size : ℕ) → Bytes → (block byte : ℕ) → Option ℕ
find_byte zero m block byte = none
find_byte (suc size) m block byte =
    let rest = find_byte size m (suc block) byte in if m block == byte then some block else rest

-- The inner `none` is NULL.
pub memchr : Bytes → (block ch size : ℕ) → Option (Option ℕ)
memchr m block ch size = do assert (has_block block size); some (find_byte size m block (ch % 256))
