-- ===== src/Mlfqs/Priority.antt =====
-- The priority that the multi-level feedback queue scheduler computes, in pintos/src/threads/thread.c.
use course_cs439_operating_s.Base.{ℕ, ◌+◌, ◌*◌, ◌/◌, ◌≤◌, ◌≡◌, ap, some, arith}
use course_cs439_operating_s.Base.Int.{
  ℤ, pos, negsuc, pos_part, neg_part, sub_ℕ, ◌+ℤ◌, ◌-ℤ◌, ◌*ℤ◌, quotient, to_int, IsInt,
  to_int-IsInt, +ℤ_bounds, -ℤ_bounds,
}
use course_cs439_operating_s.FixedPoint.{float, add_f, sub_f, mul_i, div_i}
use course_cs439_operating_s.FixedPoint.Round.{IsNearest, round-IsNearest, scaled_pos, scaled_neg}
use course_cs439_operating_s.Mlfqs.{mlfqs_priority, clamp_priority}

-- n * 8192, the niceness twice as a fixed-point number.
twice_nice : ℤ → ℤ
twice_nice (pos n) = pos (n * 8192)
twice_nice (negsuc n) = negsuc (n * 8192 + 8191)

twice_pos : (n : ℕ) → n ≤ 20 → mul_i (float (pos n)) (pos 2) ≡ pos (n * 8192)
unfolding mul_i ◌*ℤ◌ to_int
twice_pos n h = rw (scaled_pos n (omega arith)) (ground arith)

twice_neg : (n : ℕ) → n ≤ 20 → mul_i (float (negsuc n)) (pos 2) ≡ negsuc (n * 8192 + 8191)
unfolding mul_i ◌*ℤ◌ to_int
twice_neg n h = rw (scaled_neg n (omega arith)) (ground arith)

twice_nice_lem :
    (nice : ℤ)
    → pos_part nice ≤ 20
    → neg_part nice ≤ 20
    → mul_i (float nice) (pos 2) ≡ twice_nice nice
unfolding twice_nice
twice_nice_lem (pos n) h k = twice_pos n h
twice_nice_lem (negsuc n) h k = twice_neg n (omega arith)

-- A quarter, rounded towards 0.
abbrev pub quarter : ℤ → ℤ
quarter a = sub_ℕ (pos_part a / 4) (neg_part a / 4)

quarter_lem : (a : ℤ) → IsInt a → div_i a (pos 4) ≡ some (quarter a)
unfolding div_i quotient
quarter_lem a h = ap some (to_int-IsInt (quarter a) (ground arith, ground arith))

twice-nice : (nice : ℤ) → nice *ℤ pos 8192 ≡ twice_nice nice
unfolding twice_nice ◌*ℤ◌
twice-nice (pos n) = ground arith
twice-nice (negsuc n) = ground arith

twice_nice_bounds :
    (nice : ℤ)
    → pos_part nice ≤ 20
    → neg_part nice ≤ 20
    → (pos_part (twice_nice nice) ≤ 163840) × (neg_part (twice_nice nice) ≤ 163840)
unfolding twice_nice
twice_nice_bounds (pos n) h k = (omega arith, omega arith)
twice_nice_bounds (negsuc n) h k = (omega arith, omega arith)

quarter_bounds :
    (a : ℤ) → IsInt a → (pos_part (quarter a) ≤ 536870912) × (neg_part (quarter a) ≤ 536870912)
quarter_bounds a h = (ground arith, ground arith)

-- 63 - recent_cpu / 4 - nice * 2 as a fixed-point number.
abbrev pub exact_priority : (recent_cpu nice : ℤ) → ℤ
exact_priority recent_cpu nice = pos 258048 -ℤ (quarter recent_cpu +ℤ nice *ℤ pos 8192)

clamp-le : (r : ℤ) → clamp_priority r ≤ 63
unfolding clamp_priority
clamp-le r = ground arith

module _ (recent_cpu nice : ℤ) (cpu : IsInt recent_cpu) (most : pos_part nice ≤ 20)
    (least : neg_part nice ≤ 20) where
  sum_lem :
      add_f (quarter recent_cpu) (mul_i (float nice) (pos 2))
      ≡ quarter recent_cpu +ℤ nice *ℤ pos 8192
  unfolding add_f
  sum_lem =
      let t = twice_nice nice in
      rw (twice_nice_lem nice most least, twice-nice nice)
        (to_int-IsInt (quarter recent_cpu +ℤ t) (
          omega (
            arith,
            +ℤ_bounds (quarter recent_cpu) t,
            quarter_bounds recent_cpu cpu,
            twice_nice_bounds nice most least,
          ),
          omega (
            arith,
            +ℤ_bounds (quarter recent_cpu) t,
            quarter_bounds recent_cpu cpu,
            twice_nice_bounds nice most least,
          ),
        ))

  exact_bounds :
      (pos_part (exact_priority recent_cpu nice) ≤ 600000000)
      × (neg_part (exact_priority recent_cpu nice) ≤ 600000000)
  exact_bounds =
      let s = quarter recent_cpu +ℤ twice_nice nice in
      rw (twice-nice nice) (
        omega (
          arith,
          -ℤ_bounds (pos 258048) s,
          +ℤ_bounds (quarter recent_cpu) (twice_nice nice),
          quarter_bounds recent_cpu cpu,
          twice_nice_bounds nice most least,
        ),
        omega (
          arith,
          -ℤ_bounds (pos 258048) s,
          +ℤ_bounds (quarter recent_cpu) (twice_nice nice),
          quarter_bounds recent_cpu cpu,
          twice_nice_bounds nice most least,
        ),
      )

  -- For a recent CPU time of 32 bits and a niceness from -20 to 20 the computation succeeds: the result is
  -- the integer nearest to 63 - recent_cpu / 4 - nice * 2, with the quarter rounded towards 0 as a
  -- fixed-point number, and the priority that a thread gets from it is at most 63.
  pub mlfqs_priority-IsNearest :
      (r : ℤ) × (mlfqs_priority recent_cpu nice ≡ some r)
      × IsNearest (exact_priority recent_cpu nice) r
      × (clamp_priority r ≤ 63)
  unfolding mlfqs_priority sub_f
  mlfqs_priority-IsNearest =
      let whole : float (pos 63) ≡ pos 258048 = scaled_pos 63 (omega arith) in
      let exact = exact_priority recent_cpu nice in
      let inside = to_int-IsInt exact (omega (arith, exact_bounds), omega (arith, exact_bounds)) in
      let (r, e, near) =
        round-IsNearest exact (omega (arith, exact_bounds), omega (arith, exact_bounds)) in
      (r, rw (quarter_lem recent_cpu cpu, sum_lem, whole, inside) e, near, clamp-le r)
