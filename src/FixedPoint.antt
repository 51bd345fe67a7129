-- ===== src/FixedPoint.antt =====
-- Fixed-point numbers: pintos/src/threads/fixedpoint.h. An `int` wraps at 32 bits; a product in int64_t
-- does not, and is cut to an `int` when it is returned. `none` is a division by 0.
pub mod Round
mod Tests
use course_cs439_operating_s.Base.{ℕ, Bool, Option, none, some, if◌then◌else◌, ◌>>=◌}
use course_cs439_operating_s.Base.Int.{ℤ, pos, ◌+ℤ◌, ◌-ℤ◌, ◌*ℤ◌, quotient, ltb_ℤ, to_int}

-- F, the conversion factor, and HF.
abbrev pub f_one : ℤ
f_one = pos 4096

abbrev pub f_half : ℤ
f_half = pos 2048

unfoldable pub float : ℤ → ℤ
float i = to_int (i *ℤ f_one)

unfoldable pub round0 : ℤ → Option ℤ
round0 f = quotient f f_one

unfoldable pub round : ℤ → Option ℤ
unfolding round0
round f = if ltb_ℤ (pos 0) f then round0 (to_int (f +ℤ f_half)) else round0 (to_int (f -ℤ f_half))

unfoldable pub add_f : ℤ → ℤ → ℤ
add_f f1 f2 = to_int (f1 +ℤ f2)

unfoldable pub sub_f : ℤ → ℤ → ℤ
sub_f f1 f2 = to_int (f1 -ℤ f2)

unfoldable pub mul_f : ℤ → ℤ → Option ℤ
mul_f f1 f2 = do q ← quotient (f1 *ℤ f2) f_one; some (to_int q)

unfoldable pub div_f : ℤ → ℤ → Option ℤ
div_f f1 f2 = do q ← quotient (f1 *ℤ f_one) f2; some (to_int q)

unfoldable pub add_i : ℤ → ℤ → ℤ
unfolding add_f float
add_i f i = add_f f (float i)

unfoldable pub sub_i : ℤ → ℤ → ℤ
unfolding sub_f float
sub_i f i = sub_f f (float i)

unfoldable pub mul_i : ℤ → ℤ → ℤ
mul_i f i = to_int (f *ℤ i)

unfoldable pub div_i : ℤ → ℤ → Option ℤ
div_i f i = do q ← quotient f i; some (to_int q)
