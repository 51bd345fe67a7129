-- ===== src/Blocks/Tests.antt =====
-- Runs on bytes that are their own addresses.
use course_cs439_operating_s.Base.{◌≡◌, some, arith}
use course_cs439_operating_s.Blocks.{Bytes, memmove}
use course_cs439_operating_s.Blocks.Move.{Copied, memmove-Copied}

abbrev bytes : Bytes
bytes a = a

memmove-Copied_example :
    (m' : Bytes) × (memmove bytes 10 12 5 ≡ some (m', 15)) × Copied bytes m' 10 12 5
memmove-Copied_example =
    memmove-Copied bytes 10 12 5 (λ e. absurd (omega (arith, e))) (λ e. absurd (omega (arith, e)))
