-- ===== src/Stdlib/Heapify.antt =====
-- The sift of heapify in pintos/src/lib/stdlib.c. A heap has each element at most its parent's, which stands at
-- half its index.
use Prim.Native.Nat.{Ordering}
use mathlib.Core.Path.{subst}
use native.Mathlib.Decide.{ℕ_discrete, dec_lt}
use course_cs439_operating_s.Base.{
  ℕ, zero, suc, ◌+◌, ◌/◌, ◌≤◌, ◌<◌, Bool, some, ◌≡◌, ◌≢◌, inl, inr, refl, sym, ap, ◌∙◌, arith,
  ==_iff,
}
use course_cs439_operating_s.Stdlib.{do_swap, largest, heapify}
use course_cs439_operating_s.Stdlib.Swaps.{count, count-swap}
use course_cs439_operating_s.Stdlib.Order.{
  ==_ne, Le, IsOrder, IsLargest, largest-IsLargest, swap_left, swap_right, swap_else,
}

module _ {ℓ} {A : Type ℓ} (compare : A → A → Ordering) where
  -- The elements from 1 to `cnt` stand in another order; the others are in place.
  pub record Rearranged (cnt : ℕ) (old new : ℕ → A) : Type ℓ where
    pub counts : (n : ℕ) (p : A → Bool) → cnt ≤ n → count p new n ≡ count p old n
    pub outside : (k : ℕ) → cnt < k → new k ≡ old k
    pub front : new 0 ≡ old 0
    pub bound :
        (x : A)
        → ((k : ℕ) → 1 ≤ k → k ≤ cnt → Le compare (old k) x)
        → (k : ℕ) → 1 ≤ k
        → k ≤ cnt
        → Le compare (new k) x

  pub Rearranged-refl : (cnt : ℕ) (a : ℕ → A) → Rearranged cnt a a
  Rearranged-refl cnt a = record {
    counts = λ n p h. refl;
    outside = λ k h. refl;
    front = refl;
    bound = λ x h. h;
  }

  pub Rearranged-trans :
      (cnt : ℕ) (a b c : ℕ → A) → Rearranged cnt a b → Rearranged cnt b c → Rearranged cnt a c
  Rearranged-trans cnt a b c r s = record {
    counts = λ n p h. s.counts n p h ∙ r.counts n p h;
    outside = λ k h. s.outside k h ∙ r.outside k h;
    front = s.front ∙ r.front;
    bound = λ x h. s.bound x (r.bound x h);
  }

  pub Rearranged-le : (m n : ℕ) (a b : ℕ → A) → m ≤ n → Rearranged m a b → Rearranged n a b
  Rearranged-le m n a b mn r = record {
    counts = λ k p h. r.counts k p (omega arith);
    outside = λ k h. r.outside k (omega arith);
    front = r.front;
    bound = λ x h k lo hi. elim (dec_lt m k) [
      | yes p ↦ rw (r.outside k p) (h k lo hi)
      | no p ↦ r.bound x (λ j jl jh. h j jl (omega arith)) k lo (omega arith)
    ];
  }

  pub swap-Rearranged :
      (cnt : ℕ) (a : ℕ → A) (i j : ℕ)
      → 1 ≤ i
      → i ≤ cnt
      → 1 ≤ j
      → j ≤ cnt
      → Rearranged cnt a (do_swap a i j)
  swap-Rearranged cnt a i j hi' ki hj kj = record {
    counts = λ n p h. count-swap p a i j n hi' (omega arith) hj (omega arith);
    outside = λ k h. swap_else a i j k (λ e. omega arith) (λ e. omega arith);
    front = swap_else a i j 0 (λ e. omega arith) (λ e. omega arith);
    bound = λ x h k lo hi. elim (ℕ_discrete k i) [
      | yes e ↦ rw (e, swap_left a i j) (h j hj kj)
      | no ni ↦ elim (ℕ_discrete k j) [
        | yes e ↦ rw (e, swap_right a i j (λ d. ni (e ∙ d))) (h i hi' ki)
        | no nj ↦ rw (swap_else a i j k ni nj) (h k lo hi)
      ]
    ];
  }

  -- The elements from `lo` on with children up to `cnt` are at least these.
  abbrev pub IsHeap : (ℕ → A) → (lo cnt : ℕ) → Type 0
  IsHeap array lo cnt = (c : ℕ) → c ≤ cnt → lo ≤ c / 2 → Le compare (array c) (array (c / 2))

  -- The same but for node `i`, whose children are at most its parent.
  pub record IsSifted (array : ℕ → A) (lo i cnt : ℕ) : Type 0 where
    pub off : (c : ℕ) → c ≤ cnt → lo ≤ c / 2 → c / 2 ≢ i → Le compare (array c) (array (c / 2))
    pub over : (c : ℕ) → c ≤ cnt → c / 2 ≡ i → lo ≤ i / 2 → Le compare (array c) (array (i / 2))

  pub heapify_done :
      (fuel : ℕ) (array : ℕ → A) (i cnt : ℕ)
      → largest compare array i cnt ≡ i
      → heapify compare (suc fuel) array i cnt ≡ some array
  unfolding heapify
  heapify_done fuel array i cnt e = rw (heapify, (==_iff (largest compare array i cnt) i).1 e) refl

  pub heapify_step :
      (fuel : ℕ) (array : ℕ → A) (i cnt : ℕ)
      → largest compare array i cnt ≢ i
      → heapify compare (suc fuel) array i cnt
        ≡ heapify compare fuel
            (do_swap array i (largest compare array i cnt))
            (largest compare array i cnt)
            cnt
  unfolding heapify
  heapify_step fuel array i cnt ne = rw (heapify, ==_ne (largest compare array i cnt) i ne) refl

module _ {ℓ} {A : Type ℓ} (compare : A → A → Ordering) (o : IsOrder compare) where
  module _ (array : ℕ → A) (lo i cnt m : ℕ) (pos : 1 ≤ lo) (from : lo ≤ i)
      (l : IsLargest compare o array i cnt m) (s : IsSifted compare array lo i cnt) where
    largest_done : m ≡ i → IsHeap compare array lo cnt
    largest_done e c hc hl = elim (ℕ_discrete (c / 2) i) [
      | yes d ↦ rw (d ∙ sym e) (l.children c hc d)
      | no nd ↦ s.off c hc hl nd
    ]

    module _ (below : i < m) (inside : m ≤ cnt) (child : m / 2 ≡ i) where
      swapped : ℕ → A
      swapped = do_swap array i m

      at_i : swapped i ≡ array m
      unfolding swapped
      at_i = swap_left array i m

      at_m : swapped m ≡ array i
      unfolding swapped
      at_m = swap_right array i m (λ e. omega arith)

      at_else : (k : ℕ) → k ≢ i → k ≢ m → swapped k ≡ array k
      unfolding swapped
      at_else k ni nm = swap_else array i m k ni nm

      swapped-off :
          (c : ℕ) → c ≤ cnt → lo ≤ c / 2 → c / 2 ≢ m → Le compare (swapped c) (swapped (c / 2))
      swapped-off c hc hl nm = elim (ℕ_discrete (c / 2) i) [
        | yes d ↦ elim (ℕ_discrete c m) [
          | yes e ↦ rw (d, at_i, e, at_m) l.self
          | no ne ↦ rw (d, at_i, at_else c (λ e. omega arith) ne) (l.children c hc d)
        ]
        | no nd ↦ elim (ℕ_discrete c i) [
          | yes e ↦ rw (at_else (c / 2) nd nm, e, at_i) (s.over m inside child (omega arith))
          | no ni ↦
              rw (at_else (c / 2) nd nm, at_else c ni (λ e. nd (ap (λ (k : ℕ). k / 2) e ∙ child)))
                (s.off c hc hl nd)
        ]
      ]

      swapped-over :
          (c : ℕ) → c ≤ cnt → c / 2 ≡ m → lo ≤ m / 2 → Le compare (swapped c) (swapped (m / 2))
      swapped-over c hc e hl =
          rw (child, at_i, at_else c (λ d. omega arith) (λ d. omega arith))
            (subst (λ k. Le compare (array c) (array k)) e
              (s.off c hc (omega arith) (λ d. omega arith)))

      swapped-IsSifted : IsSifted compare (do_swap array i m) lo m cnt
      unfolding swapped
      swapped-IsSifted = record { off = swapped-off; over = swapped-over }

  -- From a heap but for node `i`, with a round for each index from `i` to `cnt`, heapify succeeds: it makes a
  -- heap and only moves elements.
  pub heapify-IsHeap :
      (fuel : ℕ) (array : ℕ → A) (lo i cnt : ℕ)
      → 1 ≤ lo
      → lo ≤ i
      → i ≤ cnt
      → cnt < fuel + i
      → IsSifted compare array lo i cnt
      → (array' : ℕ → A) × (heapify compare fuel array i cnt ≡ some array')
        × IsHeap compare array' lo cnt
        × Rearranged compare cnt array array'
  heapify-IsHeap zero array lo i cnt pos from ic enough s = absurd (omega arith)
  heapify-IsHeap (suc fuel) array lo i cnt pos from ic enough s =
      let m = largest compare array i cnt in
      let l = largest-IsLargest compare o array i cnt (omega arith) in
      elim (ℕ_discrete m i) [
        | yes e ↦ (
          array,
          heapify_done compare fuel array i cnt e,
          largest_done array lo i cnt m pos from l s e,
          Rearranged-refl compare cnt array,
        )
        | no ne ↦ elim l.place [
          | inl e ↦ absurd (ne e)
          | inr (below, inside, child) ↦
              let (array', e, heap, r) =
                heapify-IsHeap fuel (do_swap array i m) lo m cnt pos (omega arith) inside
                  (omega arith)
                  (swapped-IsSifted array lo i cnt m pos from l s below inside child) in
              (
                array',
                heapify_step compare fuel array i cnt ne ∙ e,
                heap,
                Rearranged-trans compare cnt _ _ _
                    (swap-Rearranged compare cnt array i m (omega arith) ic (omega arith) inside) r,
              )
        ]
      ]
