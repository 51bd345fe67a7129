-- ===== src/FixedPoint/Tests.antt =====
-- Runs of the operations of pintos/src/threads/fixedpoint.h.
use course_cs439_operating_s.Base.{◌≡◌, refl, some, none}
use course_cs439_operating_s.Base.Int.{pos, negsuc, ◌-ℤ◌, ◌*ℤ◌, quotient, to_int}
use course_cs439_operating_s.FixedPoint.{round0, round, mul_f, div_f, sub_i}

-- 2.5 times -1.5 is -3.75.
product : mul_f (pos 10240) (negsuc 6143) ≡ some (negsuc 15359)
unfolding mul_f ◌*ℤ◌ quotient to_int
product = refl

third : div_f (pos 4096) (pos 12288) ≡ some (pos 1365)
unfolding div_f ◌*ℤ◌ quotient to_int
third = refl

by_zero : div_f (pos 4096) (pos 0) ≡ none
unfolding div_f quotient
by_zero = refl

-- A product that does not fit an int is cut.
cut : mul_f (pos 2000000000) (pos 2000000000) ≡ some (negsuc 1393960703)
unfolding mul_f ◌*ℤ◌ quotient to_int
cut = refl

rounded_up : round (negsuc 6143) ≡ some (negsuc 1)
unfolding round ◌-ℤ◌ quotient to_int
rounded_up = refl

cut_off : round0 (negsuc 6143) ≡ some (negsuc 0)
unfolding round0 quotient
cut_off = refl

below_one : sub_i (pos 2048) (pos 1) ≡ negsuc 2047
unfolding sub_i ◌-ℤ◌ ◌*ℤ◌ to_int
below_one = refl
