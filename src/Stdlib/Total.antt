-- ===== src/Stdlib/Total.antt =====
-- sort in pintos/src/lib/stdlib.c ends whatever `compare` returns.
use Prim.Native.Nat.{Ordering}
use native.Mathlib.Decide.{ℕ_discrete}
use course_cs439_operating_s.Base.{
  ℕ, zero, suc, ◌+◌, ◌-◌, ◌/◌, ◌≤◌, ◌<◌, Bool, some, ◌≡◌, inl, inr, refl, ◌∙◌, arith,
}
use course_cs439_operating_s.Stdlib.{do_swap, largest, heapify, build_loop, drain_loop, sort}
use course_cs439_operating_s.Stdlib.Order.{largest_place}
use course_cs439_operating_s.Stdlib.Swaps.{count}
use course_cs439_operating_s.Stdlib.Heapify.{
  Rearranged, Rearranged-refl, Rearranged-trans, Rearranged-le, swap-Rearranged, heapify_done,
  heapify_step,
}

module _ {ℓ} {A : Type ℓ} (compare : A → A → Ordering) where
  heapify-Rearranged :
      (fuel : ℕ) (array : ℕ → A) (i cnt : ℕ)
      → 1 ≤ i
      → i ≤ cnt
      → cnt < fuel + i
      → (array' : ℕ → A) × (heapify compare fuel array i cnt ≡ some array')
        × Rearranged compare cnt array array'
  heapify-Rearranged zero array i cnt pos ic enough = absurd (omega arith)
  heapify-Rearranged (suc fuel) array i cnt pos ic enough =
      let m = largest compare array i cnt in
      elim (ℕ_discrete m i) [
        | yes e ↦
            (array, heapify_done compare fuel array i cnt e, Rearranged-refl compare cnt array)
        | no ne ↦ elim (largest_place compare array i cnt pos) [
          | inl e ↦ absurd (ne e)
          | inr (below, inside, child) ↦
              let (array', e, r) =
                heapify-Rearranged fuel (do_swap array i m) m cnt (omega arith) inside
                  (omega arith) in
              (
                array',
                heapify_step compare fuel array i cnt ne ∙ e,
                Rearranged-trans compare cnt _ _ _
                    (swap-Rearranged compare cnt array i m pos ic (omega arith) inside) r,
              )
        ]
      ]

  build_loop-Rearranged :
      (i cnt : ℕ) (array : ℕ → A)
      → i ≤ cnt / 2
      → (array' : ℕ → A) × (build_loop compare i cnt array ≡ some array')
        × Rearranged compare cnt array array'
  unfolding build_loop
  build_loop-Rearranged zero cnt array h = (array, refl, Rearranged-refl compare cnt array)
  build_loop-Rearranged (suc i) cnt array h =
      let (a1, e1, r1) =
        heapify-Rearranged (suc cnt) array (suc i) cnt (omega arith) (omega arith) (omega arith) in
      let (a2, e2, r2) = build_loop-Rearranged i cnt a1 (omega arith) in
      (a2, rw e1 e2, Rearranged-trans compare cnt array a1 a2 r1 r2)

  drain_loop-Rearranged :
      (left cnt : ℕ) (array : ℕ → A)
      → left ≤ cnt - 1
      → (array' : ℕ → A) × (drain_loop compare left array ≡ some array')
        × Rearranged compare cnt array array'
  unfolding drain_loop
  drain_loop-Rearranged zero cnt array h = (array, refl, Rearranged-refl compare cnt array)
  drain_loop-Rearranged (suc left) cnt array h =
      let (a1, e1, r1) =
        heapify-Rearranged (suc (suc left)) (do_swap array 1 (suc (suc left))) 1 (suc left)
          (omega arith) (omega arith) (omega arith) in
      let (a2, e2, r2) = drain_loop-Rearranged left cnt a1 (omega arith) in
      (
        a2,
        rw e1 e2,
        Rearranged-trans compare cnt _ _ _
            (swap-Rearranged compare cnt array 1 (suc (suc left)) (omega arith) (omega arith)
              (omega arith) (omega arith))
            (Rearranged-trans compare cnt _ _ _
              (Rearranged-le compare (suc left) cnt _ _ (omega arith) r1) r2),
      )

  -- sort ends within its rounds whatever `compare` returns, and only moves the elements 1 to `cnt`: each occurs
  -- as often as before, and all others are in place.
  pub sort_ends :
      (array : ℕ → A) (cnt : ℕ)
      → (array' : ℕ → A) × (sort compare array cnt ≡ some array')
        × ((p : A → Bool) → count p array' cnt ≡ count p array cnt)
        × ((k : ℕ) → cnt < k → array' k ≡ array k)
  unfolding sort
  sort_ends array cnt =
      let (a1, e1, r1) = build_loop-Rearranged (cnt / 2) cnt array (omega arith) in
      let (a2, e2, r2) = drain_loop-Rearranged (cnt - 1) cnt a1 (omega arith) in
      let r = Rearranged-trans compare cnt array a1 a2 r1 r2 in
      (a2, rw e1 e2, (λ p. r.counts cnt p (omega arith)), r.outside)
