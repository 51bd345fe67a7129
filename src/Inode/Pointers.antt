-- ===== src/Inode/Pointers.antt =====
-- The sector pointers of pintos/src/filesys/inode.c.
use course_cs439_operating_s.Base.{ℕ, ◌<◌, ◌≡◌, true, false, arith}
use course_cs439_operating_s.Inode.{
  ptr_create, ptr_get_address, ptr_set_exist, ptr_exists, ptr_set_isdir, ptr_isdir,
}

-- ptr_set_exist and ptr_set_isdir of a pointer of 16 bits set their own mark and leave the other and the
-- address, and the result has 16 bits.
pub ptr_marks :
    (p : ℕ)
    → p < 65536
    → (ptr_exists (ptr_set_exist p) ≡ true)
      × (ptr_isdir (ptr_set_exist p) ≡ ptr_isdir p)
      × (ptr_get_address (ptr_set_exist p) ≡ ptr_get_address p)
      × (ptr_set_exist p < 65536)
      × (ptr_isdir (ptr_set_isdir p) ≡ true)
      × (ptr_exists (ptr_set_isdir p) ≡ ptr_exists p)
      × (ptr_get_address (ptr_set_isdir p) ≡ ptr_get_address p)
      × (ptr_set_isdir p < 65536)
unfolding ptr_set_exist ptr_exists ptr_set_isdir ptr_isdir ptr_get_address
ptr_marks p h = (
  ground arith,
  ground arith,
  ground arith,
  ground arith,
  ground arith,
  ground arith,
  ground arith,
  ground arith,
)

-- A pointer made for a sector below 2 ^ 14 and marked as existing gives that sector back, and is no
-- directory.
pub ptr_create-get_address :
    (sector : ℕ)
    → sector < 16384
    → (ptr_get_address (ptr_set_exist (ptr_create sector)) ≡ sector)
      × (ptr_exists (ptr_set_exist (ptr_create sector)) ≡ true)
      × (ptr_isdir (ptr_set_exist (ptr_create sector)) ≡ false)
unfolding ptr_create ptr_set_exist ptr_exists ptr_isdir ptr_get_address
ptr_create-get_address sector h = (ground arith, ground arith, ground arith)
