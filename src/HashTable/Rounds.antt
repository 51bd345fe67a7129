-- ===== src/HashTable/Rounds.antt =====
-- The rounding down to a power of 2 in rehash of pintos/src/lib/kernel/hash.c ends.
use course_cs439_operating_s.Base.{
  ℕ, zero, suc, ◌-◌, ◌<◌, ◌≤◌, ◌≡◌, refl, ◌∙◌, inl, inr, true, false, some, arith, Bool-cases,
}
use course_cs439_operating_s.Bitmap.Bits.{bit_and-le}
use course_cs439_operating_s.HashTable.{turn_off_least_1bit, is_power_of_2, round_loop}

turn_off-le : (n : ℕ) → turn_off_least_1bit n ≤ n - 1
unfolding turn_off_least_1bit
turn_off-le n = bit_and-le n (n - 1)

turn_off_pos : (n : ℕ) → 0 < n → is_power_of_2 n ≡ false → 0 < turn_off_least_1bit n
unfolding is_power_of_2
turn_off_pos n p e = ground (arith, e, p)

round_stop : (fuel n : ℕ) → is_power_of_2 n ≡ true → round_loop (suc fuel) n ≡ some n
unfolding round_loop
round_stop fuel n e = rw (round_loop, e) refl

round_step :
    (fuel n : ℕ)
    → is_power_of_2 n ≡ false
    → round_loop (suc fuel) n ≡ round_loop fuel (turn_off_least_1bit n)
unfolding round_loop
round_step fuel n e = rw (round_loop, e) refl

-- Rounding down to a power of 2 ends, above 0.
pub round_loop_ends :
    (fuel n : ℕ) → n ≤ fuel → 0 < n → (r : ℕ) × (round_loop fuel n ≡ some r) × (0 < r)
round_loop_ends zero n le p = absurd (omega (arith, le, p))
round_loop_ends (suc fuel) n le p = elim (Bool-cases (is_power_of_2 n)) [
  | inl done ↦ (n, round_stop fuel n done, p)
  | inr more ↦
      let (r, e, q) =
        round_loop_ends fuel (turn_off_least_1bit n) (omega (arith, turn_off-le n, le))
          (turn_off_pos n p more) in
      (r, round_step fuel n more ∙ e, q)
]
