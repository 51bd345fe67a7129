-- ===== src/Stdlib/Swaps.antt =====
-- An exchange of two elements keeps how often each occurs: do_swap in pintos/src/lib/stdlib.c.
use mathlib.Core.Path.{subst}
use native.Mathlib.Decide.{ℕ_discrete}
use course_cs439_operating_s.Base.{
  ℕ, zero, suc, ◌+◌, ◌≤◌, ◌<◌, Bool, ◌==◌, if◌then◌else◌, ◌≡◌, ◌≢◌, inl, inr, refl, sym, ap, ◌∙◌,
  arith, Bool-cases, ==_iff, ==_refl, le-cases,
}
use course_cs439_operating_s.Stdlib.{do_swap}

-- The sum of `f 1` to `f n`.
pub total : (ℕ → ℕ) → ℕ → ℕ
total f zero = 0
total f (suc n) = total f n + f (suc n)

total-ext : (f g : ℕ → ℕ) (n : ℕ) → ((k : ℕ) → f k ≡ g k) → total f n ≡ total g n
unfolding total
total-ext f g zero e = refl
total-ext f g (suc n) e = omega (arith, total-ext f g n e, e (suc n))

replaced : (ℕ → ℕ) → ℕ → ℕ → ℕ → ℕ
replaced f i v k = if k == i then v else f k

replaced_here : (f : ℕ → ℕ) (i v : ℕ) → replaced f i v i ≡ v
unfolding replaced
replaced_here f i v = rw (==_refl i) refl

replaced_else : (f : ℕ → ℕ) (i v k : ℕ) → k ≢ i → replaced f i v k ≡ f k
unfolding replaced
replaced_else f i v k h = ground arith

total-above : (f : ℕ → ℕ) (i v n : ℕ) → n < i → total (replaced f i v) n ≡ total f n
unfolding total
total-above f i v zero h = refl
total-above f i v (suc n) h =
    omega (arith, total-above f i v n (omega arith), replaced_else f i v (suc n) (λ e. omega arith))

total-last :
    (f : ℕ → ℕ) (n v : ℕ) → total (replaced f (suc n) v) (suc n) + f (suc n) ≡ total f (suc n) + v
unfolding total
total-last f n v = omega (arith, total-above f (suc n) v n (omega arith), replaced_here f (suc n) v)

total-replaced :
    (f : ℕ → ℕ) (i v n : ℕ) → 1 ≤ i → i ≤ n → total (replaced f i v) n + f i ≡ total f n + v
unfolding total
total-replaced f i v zero h k = absurd (omega arith)
total-replaced f i v (suc n) h k = elim (le-cases i (suc n) k) [
  | inl lt ↦ omega (
    arith,
    total-replaced f i v n h (omega arith),
    replaced_else f i v (suc n) (λ e. omega arith),
  )
  | inr e ↦
      subst (λ m. total (replaced f m v) (suc n) + f m ≡ total f (suc n) + v) (sym e)
        (total-last f n v)
]

swap_self : (f : ℕ → ℕ) (i k : ℕ) → do_swap f i i k ≡ f k
unfolding do_swap
swap_self f i k = elim (Bool-cases (k == i)) [
  | inl e ↦ rw e (ap f (sym ((==_iff k i).0 e)))
  | inr e ↦ rw e refl
]

swap-eq-replaced :
    (f : ℕ → ℕ) (i j : ℕ)
    → i ≢ j
    → (k : ℕ) → do_swap f i j k ≡ replaced (replaced f i (f j)) j (f i) k
unfolding do_swap replaced
swap-eq-replaced f i j ne k = ground arith

total-swap :
    (f : ℕ → ℕ) (i j n : ℕ) → 1 ≤ i → i ≤ n → 1 ≤ j → j ≤ n → total (do_swap f i j) n ≡ total f n
total-swap f i j n hi ki hj kj = elim (ℕ_discrete i j) [
  | yes e ↦ total-ext _ _ n (rw e (swap_self f j))
  | no ne ↦
      total-ext _ _ n (swap-eq-replaced f i j ne)
      ∙ omega (
        arith,
        total-replaced (replaced f i (f j)) j (f i) n hj kj,
        total-replaced f i (f j) n hi ki,
        replaced_else f i (f j) j (λ e. ne (sym e)),
      )
]

module _ {ℓ} {A : Type ℓ} where
  weight : (A → Bool) → (ℕ → A) → ℕ → ℕ
  weight p array k = if p (array k) then 1 else 0

  weight-swap :
      (p : A → Bool) (array : ℕ → A) (i j k : ℕ)
      → weight p (do_swap array i j) k ≡ do_swap (weight p array) i j k
  unfolding weight do_swap
  weight-swap p array i j k = elim (Bool-cases (k == i)) [
    | inl e ↦ rw e refl
    | inr e ↦ elim (Bool-cases (k == j)) [ inl d ↦ rw (e, d) refl | inr d ↦ rw (e, d) refl ]
  ]

  -- How many of the elements 1 to n pass a test.
  pub count : (A → Bool) → (ℕ → A) → ℕ → ℕ
  count p array n = total (weight p array) n

  pub count-swap :
      (p : A → Bool) (array : ℕ → A) (i j n : ℕ)
      → 1 ≤ i
      → i ≤ n
      → 1 ≤ j
      → j ≤ n
      → count p (do_swap array i j) n ≡ count p array n
  unfolding count
  count-swap p array i j n hi ki hj kj =
      total-ext _ _ n (weight-swap p array i j) ∙ total-swap (weight p array) i j n hi ki hj kj
