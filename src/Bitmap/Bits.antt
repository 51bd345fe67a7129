-- ===== src/Bitmap/Bits.antt =====
-- The binary digits of a word under the masks of pintos/src/lib/kernel/bitmap.c.
use Prim.Native.Nat.{
  ℕ, zero, suc, ◌+◌, ◌-◌, ◌*◌, ◌/◌, ◌%◌, ◌^◌, ◌≤◌, ◌<◌, min, max, digits, differ, bitwise, bit_and,
  bit_or, bit_xor, bit_and-bitwise, bit_or-bitwise, bit_xor-bitwise,
}
use native.Mathlib.Nat.{pow-suc, one-le-pow}
use course_cs439_operating_s.Base.{
  ◌≡◌, refl, ap, ◌∙◌, arith, Bool, true, false, not, ◌&&◌, ◌||◌, ◌==◌,
}

-- `bitwise` runs on fuel; these drop it.
module _ (z : ℕ → ℕ) (f : ℕ → ℕ → ℕ) where
  digits_enough : (n m a b : ℕ) → a ≤ n → a ≤ m → digits z f n a b ≡ digits z f m a b
  digits_enough zero zero zero b hn hm = refl
  digits_enough zero (suc m) zero b hn hm = refl
  digits_enough (suc n) zero zero b hn hm = refl
  digits_enough (suc n) (suc m) zero b hn hm = refl
  digits_enough zero m (suc a) b hn hm = absurd (omega arith)
  digits_enough (suc n) zero (suc a) b hn hm = absurd (omega arith)
  digits_enough (suc n) (suc m) (suc a) b hn hm =
      rw (digits_enough n m (suc a / 2) (b / 2) (omega arith) (omega arith))

  bitwise_digit :
      (a b : ℕ)
      → bitwise z f (suc a) b ≡ bitwise z f (suc a / 2) (b / 2) * 2 + f (suc a % 2) (b % 2)
  bitwise_digit a b =
      rw (digits_enough a (suc a / 2) (suc a / 2) (b / 2) (omega arith) (omega arith))

or_digit : (a b : ℕ) → bit_or a b ≡ bit_or (a / 2) (b / 2) * 2 + max (a % 2) (b % 2)
or_digit zero b = simp bit_or-bitwise (omega arith)
or_digit (suc a) b = simp bit_or-bitwise (bitwise_digit (λ y. y) max a b)

and_digit : (a b : ℕ) → bit_and a b ≡ bit_and (a / 2) (b / 2) * 2 + min (a % 2) (b % 2)
and_digit zero b = simp bit_and-bitwise (omega arith)
and_digit (suc a) b = simp bit_and-bitwise (bitwise_digit (λ y. 0) min a b)

xor_digit : (a b : ℕ) → bit_xor a b ≡ bit_xor (a / 2) (b / 2) * 2 + differ (a % 2) (b % 2)
xor_digit zero b = simp bit_xor-bitwise (ground arith)
xor_digit (suc a) b = simp bit_xor-bitwise (bitwise_digit (λ y. y) differ a b)

-- The digit of `w` at place `k`, from the lowest.
pub digit : ℕ → ℕ → Bool
digit w zero = w % 2 == 1
digit w (suc k) = digit (w / 2) k

digit_below : (q r k : ℕ) → r < 2 → digit (q * 2 + r) (suc k) ≡ digit q k
unfolding digit
digit_below q r k h = ap (λ (w : ℕ). digit w k) (omega arith)

digit_lowest : (q r : ℕ) → r < 2 → digit (q * 2 + r) zero ≡ (r == 1)
unfolding digit
digit_lowest q r h = ground arith

pub digit_or : (a b k : ℕ) → digit (bit_or a b) k ≡ (digit a k || digit b k)
unfolding digit
digit_or a b zero = ground (arith, or_digit a b)
digit_or a b (suc k) =
    rw (or_digit a b) (digit_below (bit_or (a / 2) (b / 2)) (max (a % 2) (b % 2)) k (ground arith))
    ∙ digit_or (a / 2) (b / 2) k

pub digit_and : (a b k : ℕ) → digit (bit_and a b) k ≡ (digit a k && digit b k)
unfolding digit
digit_and a b zero = ground (arith, and_digit a b)
digit_and a b (suc k) =
    rw (and_digit a b)
      (digit_below (bit_and (a / 2) (b / 2)) (min (a % 2) (b % 2)) k (ground arith))
    ∙ digit_and (a / 2) (b / 2) k

differ-lt : (a b : ℕ) → a < 2 → b < 2 → differ a b < 2
differ-lt zero b ha hb = hb
differ-lt (suc zero) zero ha hb = omega arith
differ-lt (suc zero) (suc b) ha hb = omega arith
differ-lt (suc (suc a)) b ha hb = absurd (omega arith)

abbrev pub opposite : Bool → Bool → Bool
opposite true b = not b
opposite false b = b

differ_digit : (a b : ℕ) → a < 2 → b < 2 → (differ a b == 1) ≡ opposite (a == 1) (b == 1)
differ_digit zero b ha hb = refl
differ_digit (suc zero) zero ha hb = refl
differ_digit (suc zero) (suc zero) ha hb = refl
differ_digit (suc zero) (suc (suc b)) ha hb = absurd (omega arith)
differ_digit (suc (suc a)) b ha hb = absurd (omega arith)

pub digit_xor : (a b k : ℕ) → digit (bit_xor a b) k ≡ opposite (digit a k) (digit b k)
unfolding digit
digit_xor a b zero = rw (xor_digit a b) (
    digit_lowest (bit_xor (a / 2) (b / 2)) (differ (a % 2) (b % 2))
      (differ-lt (a % 2) (b % 2) (omega arith) (omega arith))
    ∙ differ_digit (a % 2) (b % 2) (omega arith) (omega arith))
digit_xor a b (suc k) =
    rw (xor_digit a b) (
      digit_below (bit_xor (a / 2) (b / 2)) (differ (a % 2) (b % 2)) k
        (differ-lt (a % 2) (b % 2) (omega arith) (omega arith)))
    ∙ digit_xor (a / 2) (b / 2) k

digit-zero : (k : ℕ) → digit 0 k ≡ false
unfolding digit
digit-zero zero = refl
digit-zero (suc k) = digit-zero k

-- A mask holds one digit.
pub digit_mask : (i k : ℕ) → digit (2 ^ i) k ≡ (i == k)
unfolding digit
digit_mask zero zero = refl
digit_mask zero (suc k) = digit-zero k ∙ ground arith
digit_mask (suc i) zero = rw (pow-suc 2 i) (ground arith)
digit_mask (suc i) (suc k) =
    ap (λ (w : ℕ). digit w k) (omega (arith, pow-suc 2 i)) ∙ digit_mask i k ∙ ground arith

-- All digits below `n` are turned round.
pub digit_complement : (n w k : ℕ) → w < 2 ^ n → k < n → digit (2 ^ n - 1 - w) k ≡ not (digit w k)
unfolding digit
digit_complement zero w k hw hk = elim hk [ ]
digit_complement (suc n) w zero hw hk = ground (arith, pow-suc 2 n, one-le-pow n 2)
digit_complement (suc n) w (suc k) hw hk =
    ap (λ (v : ℕ). digit v k) (omega (arith, pow-suc 2 n, one-le-pow n 2))
    ∙ digit_complement n (w / 2) k (omega (arith, pow-suc 2 n)) (omega arith)

and_zero_below : (n a : ℕ) → a ≤ n → bit_and a 0 ≡ 0
and_zero_below n zero h = refl
and_zero_below zero (suc a) h = absurd (omega arith)
and_zero_below (suc n) (suc a) h =
    omega (arith, and_digit (suc a) 0, and_zero_below n (suc a / 2) (omega arith))

and_mask_suc : (w i : ℕ) → bit_and w (2 ^ suc i) ≡ bit_and (w / 2) (2 ^ i) * 2
and_mask_suc w i =
    let half : 2 ^ suc i / 2 ≡ 2 ^ i = omega (arith, pow-suc 2 i) in
    let even : 2 ^ suc i % 2 ≡ 0 = omega (arith, pow-suc 2 i) in
    and_digit w (2 ^ suc i) ∙ rw (half, even) (omega arith)

double-eq-zero : (x : ℕ) → (x * 2 == 0) ≡ (x == 0)
double-eq-zero x = ground arith

-- A word under the mask of one digit is not 0 exactly if it has that digit.
pub masked_digit : (w i : ℕ) → not (bit_and w (2 ^ i) == 0) ≡ digit w i
unfolding digit
masked_digit w zero =
    let e : bit_and w (2 ^ 0) ≡ w % 2 =
      omega (arith, and_digit w 1, and_zero_below (w / 2) (w / 2) (omega arith)) in
    rw e (ground arith)
masked_digit w (suc i) =
    rw (and_mask_suc w i, double-eq-zero (bit_and (w / 2) (2 ^ i))) (masked_digit (w / 2) i)

bit_and-le_below : (n a b : ℕ) → b ≤ n → bit_and a b ≤ b
bit_and-le_below n a zero h = omega (arith, and_zero_below a a)
bit_and-le_below zero a (suc b) h = absurd (omega (arith, h))
bit_and-le_below (suc n) a (suc b) h =
    let ih = bit_and-le_below n (a / 2) (suc b / 2) (omega (arith, h)) in
    ground (arith, and_digit a (suc b), ih)

pub bit_and-le : (a b : ℕ) → bit_and a b ≤ b
bit_and-le a b = bit_and-le_below b a b (omega arith)
