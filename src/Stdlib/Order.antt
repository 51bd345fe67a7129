-- ===== src/Stdlib/Order.antt =====
-- What sort in pintos/src/lib/stdlib.c asks of `compare`, and the largest of a node and its children.
use Prim.Native.Nat.{Ordering}
use native.Mathlib.Decide.{ℕ_discrete}
use course_cs439_operating_s.Base.{
  ℕ, ◌+◌, ◌*◌, ◌/◌, ◌≤◌, ◌<◌, true, false, leb, ◌==◌, ◌≡◌, ◌≢◌, ◌⊎◌, inl, inr, refl, arith,
  Bool-cases, ==_refl,
}
use course_cs439_operating_s.Stdlib.{is_gt, do_swap, do_compare, larger, largest}

pub ==_ne : (a b : ℕ) → a ≢ b → (a == b) ≡ false
==_ne a b h = ground arith

module _ {ℓ} {A : Type ℓ} where
  -- compare (x, y) is not greater than zero.
  abbrev pub Le : (A → A → Ordering) → A → A → Type 0
  Le compare x y = is_gt (compare x y) ≡ false

  -- A result above zero means greater, so it goes one way and chains.
  pub record IsOrder (compare : A → A → Ordering) : Type ℓ where
    pub asym : (x y : A) → is_gt (compare x y) ≡ true → Le compare y x
    pub trans : (x y z : A) → Le compare x y → Le compare y z → Le compare x z

  pub swap_left : (array : ℕ → A) (i j : ℕ) → do_swap array i j i ≡ array j
  unfolding do_swap
  swap_left array i j = rw (==_refl i) refl

  pub swap_right : (array : ℕ → A) (i j : ℕ) → j ≢ i → do_swap array i j j ≡ array i
  unfolding do_swap
  swap_right array i j ne = rw (==_ne j i ne, ==_refl j) refl

  pub swap_else : (array : ℕ → A) (i j k : ℕ) → k ≢ i → k ≢ j → do_swap array i j k ≡ array k
  unfolding do_swap
  swap_else array i j k ni nj = rw (==_ne k i ni, ==_ne k j nj) refl

module _ {ℓ} {A : Type ℓ} (compare : A → A → Ordering) where
  larger_place :
      (array : ℕ → A) (cnt child max : ℕ)
      → (larger compare array cnt child max ≡ max)
        ⊎ (larger compare array cnt child max ≡ child) × (child ≤ cnt)
  unfolding larger
  larger_place array cnt child max = ground arith

  -- heapify goes on with a child that is in the heap, whatever `compare` returns.
  pub largest_place :
      (array : ℕ → A) (i cnt : ℕ)
      → 1 ≤ i
      → (largest compare array i cnt ≡ i)
        ⊎ (i < largest compare array i cnt)
          × (largest compare array i cnt ≤ cnt)
          × (largest compare array i cnt / 2 ≡ i)
  unfolding largest
  largest_place array i cnt h = ground (
    arith,
    larger_place array cnt (2 * i) i,
    larger_place array cnt (2 * i + 1) (larger compare array cnt (2 * i) i),
  )

module _ {ℓ} {A : Type ℓ} (compare : A → A → Ordering) (o : IsOrder compare) where
  pub Le_refl : (x : A) → Le compare x x
  Le_refl x = elim (Bool-cases (is_gt (compare x x))) [ inl e ↦ o.asym x x e | inr e ↦ e ]

  larger_lem :
      (array : ℕ → A) (cnt child max : ℕ)
      → Le compare (array max) (array (larger compare array cnt child max))
        × (child ≤ cnt → Le compare (array child) (array (larger compare array cnt child max)))
  unfolding larger do_compare
  larger_lem array cnt child max = elim (Bool-cases (leb child cnt)) [
    | inr past ↦ rw past (Le_refl (array max), λ h. ground arith)
    | inl fits ↦ elim (Bool-cases (is_gt (compare (array child) (array max)))) [
      | inl gt ↦ rw (fits, gt) (o.asym _ _ gt, λ h. Le_refl (array child))
      | inr le ↦ rw (fits, le) (Le_refl (array max), λ h. le)
    ]
  ]

  -- `m` is the largest of the node `i` and its children up to `cnt`.
  pub record IsLargest (array : ℕ → A) (i cnt m : ℕ) : Type 0 where
    pub place : (m ≡ i) ⊎ (i < m) × (m ≤ cnt) × (m / 2 ≡ i)
    pub self : Le compare (array i) (array m)
    pub children : (c : ℕ) → c ≤ cnt → c / 2 ≡ i → Le compare (array c) (array m)

  pub largest-IsLargest :
      (array : ℕ → A) (i cnt : ℕ) → 1 ≤ i → IsLargest array i cnt (largest compare array i cnt)
  unfolding largest
  largest-IsLargest array i cnt h =
      let l = larger compare array cnt (2 * i) i in
      let (sl, cl) = larger_lem array cnt (2 * i) i in
      let (sr, cr) = larger_lem array cnt (2 * i + 1) l in
      record {
        place = largest_place compare array i cnt h;
        self = o.trans _ _ _ sl sr;
        children = λ c hc e. elim (ℕ_discrete c (2 * i)) [
          | yes left ↦ o.trans _ _ _ (rw left (cl (omega arith))) sr
          | no other ↦ let right : c ≡ 2 * i + 1 = omega arith in rw right (cr (omega arith))
        ];
      }
