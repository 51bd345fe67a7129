-- ===== src/FixedPoint/Round.antt =====
-- Rounding of the fixed-point numbers of pintos/src/threads/fixedpoint.h.
use course_cs439_operating_s.Base.{
  ℕ, zero, suc, ◌+◌, ◌*◌, ◌/◌, ◌≤◌, ◌<◌, some, ◌≡◌, refl, ap, arith, ◌∙◌,
}
use course_cs439_operating_s.Base.Int.{
  ℤ, pos, negsuc, pos_part, neg_part, sub_ℕ, ◌+ℤ◌, ◌-ℤ◌, ◌*ℤ◌, quotient, to_int,
}
use course_cs439_operating_s.FixedPoint.{f_half, float, round}

-- The numbers that can be rounded: half of F can be added or taken away.
abbrev pub CanRound : ℤ → Type 0
CanRound f = (pos_part f < 2147481600) × (neg_part f ≤ 2147481600)

-- `r` times F is at most half of F away from `f`.
pub record IsNearest (f r : ℤ) : Type 0 where
  pub above : 2 * (4096 * pos_part r + neg_part f) ≤ 2 * (4096 * neg_part r + pos_part f) + 4096
  pub below : 2 * (4096 * neg_part r + pos_part f) ≤ 2 * (4096 * pos_part r + neg_part f) + 4096

add_half : (n : ℕ) → n < 2147481600 → to_int (pos n +ℤ f_half) ≡ pos (n + 2048)
unfolding ◌+ℤ◌ to_int
add_half n h = ground arith

sub_half : (n : ℕ) → n < 2147481600 → to_int (negsuc n -ℤ f_half) ≡ negsuc (n + 2048)
unfolding ◌-ℤ◌ to_int
sub_half n h = ground arith

round_zero : round (pos 0) ≡ some (pos 0)
unfolding round quotient to_int ◌-ℤ◌
round_zero = refl

round_pos : (n : ℕ) → n < 2147481600 → round (pos n) ≡ some (pos ((n + 2048) / 4096))
unfolding round quotient
round_pos zero h = round_zero
round_pos (suc n) h = rw (add_half (suc n) h) (ground arith)

round_neg : (n : ℕ) → n < 2147481600 → round (negsuc n) ≡ some (sub_ℕ 0 (suc (n + 2048) / 4096))
unfolding round quotient
round_neg n h = rw (sub_half n h) (ground arith)

-- Round gives the nearest integer.
pub round-IsNearest : (f : ℤ) → CanRound f → (r : ℤ) × (round f ≡ some r) × IsNearest f r
round-IsNearest (pos n) h = (
  pos ((n + 2048) / 4096),
  round_pos n (omega arith),
  record { above = omega arith; below = omega arith },
)
round-IsNearest (negsuc n) h = (
  sub_ℕ 0 (suc (n + 2048) / 4096),
  round_neg n (omega arith),
  record { above = ground arith; below = ground arith },
)

pub scaled_pos : (n : ℕ) → n < 524287 → float (pos n) ≡ pos (n * 4096)
unfolding float ◌*ℤ◌ to_int
scaled_pos n h = ground arith

pub scaled_neg : (n : ℕ) → n < 524287 → float (negsuc n) ≡ negsuc (n * 4096 + 4095)
unfolding float ◌*ℤ◌ to_int
scaled_neg n h = ground arith

-- An integer below 524287 in size is the same after it became a fixed-point number and was rounded.
pub round-float : (i : ℤ) → pos_part i < 524287 → neg_part i < 524287 → round (float i) ≡ some i
round-float (pos n) h k =
    rw (scaled_pos n h)
      (round_pos (n * 4096) (omega arith) ∙ ap (λ (m : ℕ). some (pos m)) (omega arith))
round-float (negsuc n) h k =
    rw (scaled_neg n (omega arith)) (round_neg (n * 4096 + 4095) (omega arith) ∙ ground arith)
