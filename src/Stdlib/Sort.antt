-- ===== src/Stdlib/Sort.antt =====
-- sort in pintos/src/lib/stdlib.c: building the heap, and taking its largest element off again and again.
use Prim.Native.Nat.{Ordering}
use native.Mathlib.Decide.{ℕ_discrete}
use course_cs439_operating_s.Base.{
  ℕ, zero, suc, ◌-◌, ◌/◌, ◌≤◌, ◌<◌, Bool, some, ◌≡◌, ◌≢◌, refl, arith,
}
use course_cs439_operating_s.Stdlib.{do_swap, build_loop, drain_loop, sort}
use course_cs439_operating_s.Stdlib.Swaps.{count}
use course_cs439_operating_s.Stdlib.Order.{Le, IsOrder, Le_refl, swap_left, swap_right, swap_else}
use course_cs439_operating_s.Stdlib.Heapify.{
  IsHeap, IsSifted, Rearranged, Rearranged-refl, Rearranged-trans, Rearranged-le, swap-Rearranged,
  heapify-IsHeap,
}

module _ {ℓ} {A : Type ℓ} (compare : A → A → Ordering) (o : IsOrder compare) where
  top_within :
      (array : ℕ → A) (n : ℕ)
      → IsHeap compare array 1 n
      → (f k : ℕ) → k < f
      → 1 ≤ k
      → k ≤ n
      → Le compare (array k) (array 1)
  top_within array n heap zero k kf lo hi = elim kf [ ]
  top_within array n heap (suc f) k kf lo hi = elim (ℕ_discrete k 1) [
    | yes e ↦ rw e (Le_refl compare o (array 1))
    | no ne ↦
        o.trans _ _ _ (heap k hi (omega arith))
          (top_within array n heap f (k / 2) (omega arith) (omega arith) (omega arith))
  ]

  -- The root of a heap is its largest element.
  heap_top :
      (array : ℕ → A) (n k : ℕ)
      → IsHeap compare array 1 n
      → 1 ≤ k
      → k ≤ n
      → Le compare (array k) (array 1)
  heap_top array n k heap lo hi = top_within array n heap (suc k) k (omega arith) lo hi

  build_loop-IsHeap :
      (i cnt : ℕ) (array : ℕ → A)
      → i ≤ cnt / 2
      → IsHeap compare array (suc i) cnt
      → (array' : ℕ → A) × (build_loop compare i cnt array ≡ some array')
        × IsHeap compare array' 1 cnt
        × Rearranged compare cnt array array'
  unfolding build_loop
  build_loop-IsHeap zero cnt array h heap = (array, refl, heap, Rearranged-refl compare cnt array)
  build_loop-IsHeap (suc i) cnt array h heap =
      let sifted : IsSifted compare array (suc i) (suc i) cnt = record {
        off = λ c hc hl ne. heap c hc (omega arith);
        over = λ c hc e hl. absurd (omega arith);
      } in
      let (a1, e1, h1, r1) =
        heapify-IsHeap compare o (suc cnt) array (suc i) (suc i) cnt (omega arith) (omega arith)
          (omega arith) (omega arith) sifted in
      let (a2, e2, h2, r2) = build_loop-IsHeap i cnt a1 (omega arith) h1 in
      (a2, rw e1 e2, h2, Rearranged-trans compare cnt array a1 a2 r1 r2)

  -- Elements 1 to `n` are a heap; those behind are sorted and at least as large.
  record IsDrained (array : ℕ → A) (n cnt : ℕ) : Type ℓ where
    pub heap : IsHeap compare array 1 n
    pub sorted : (j k : ℕ) → n < j → j ≤ k → k ≤ cnt → Le compare (array j) (array k)
    pub below : (j k : ℕ) → 1 ≤ j → j ≤ n → n < k → k ≤ cnt → Le compare (array j) (array k)

  module _ (array : ℕ → A) (m cnt : ℕ) (lo : 1 ≤ m) (hi : suc m ≤ cnt)
      (d : IsDrained array (suc m) cnt) where
    -- The largest element goes behind the others.
    moved : ℕ → A
    moved = do_swap array 1 (suc m)

    moved_first : moved 1 ≡ array (suc m)
    unfolding moved
    moved_first = swap_left array 1 (suc m)

    moved_last : moved (suc m) ≡ array 1
    unfolding moved
    moved_last = swap_right array 1 (suc m) (λ e. omega arith)

    moved_else : (k : ℕ) → k ≢ 1 → k ≢ suc m → moved k ≡ array k
    unfolding moved
    moved_else k n1 nn = swap_else array 1 (suc m) k n1 nn

    moved-IsSifted : IsSifted compare moved 1 1 m
    moved-IsSifted = record {
      off = λ c hc hl ne.
          rw
            (
              moved_else c (λ e. omega arith) (λ e. omega arith),
              moved_else (c / 2) ne (λ e. omega arith),
            )
            (d.heap c (omega arith) hl);
      over = λ c hc e hl. absurd (omega arith);
    }

    -- All elements that are left are below those behind them.
    moved_below : (j k : ℕ) → 1 ≤ j → j ≤ m → m < k → k ≤ cnt → Le compare (moved j) (moved k)
    moved_below j k jl jh kl kh = elim (ℕ_discrete k (suc m)) [
      | yes e ↦
          rw (e, moved_last)
            (elim (ℕ_discrete j 1) [
              | yes f ↦
                  rw (f, moved_first)
                    (heap_top array (suc m) (suc m) d.heap (omega arith) (omega arith))
              | no nf ↦
                  rw (moved_else j nf (λ e. omega arith))
                    (heap_top array (suc m) j d.heap jl (omega arith))
            ])
      | no ne ↦ rw (moved_else k (λ e. omega arith) ne) (elim (ℕ_discrete j 1) [
        | yes f ↦
            rw (f, moved_first) (d.below (suc m) k (omega arith) (omega arith) (omega arith) kh)
        | no nf ↦
            rw (moved_else j nf (λ e. omega arith)) (d.below j k jl (omega arith) (omega arith) kh)
      ])
    ]

    moved-sorted : (j k : ℕ) → m < j → j ≤ k → k ≤ cnt → Le compare (moved j) (moved k)
    moved-sorted j k jl jk kh = elim (ℕ_discrete j k) [
      | yes e ↦ rw e (Le_refl compare o (moved k))
      | no ne ↦
          rw (moved_else k (λ e. omega arith) (λ e. omega arith)) (elim (ℕ_discrete j (suc m)) [
            | yes f ↦ rw (f, moved_last) (d.below 1 k (omega arith) (omega arith) (omega arith) kh)
            | no nf ↦ rw (moved_else j (λ e. omega arith) nf) (d.sorted j k (omega arith) jk kh)
          ])
    ]

    next-IsDrained :
        (a : ℕ → A) → IsHeap compare a 1 m → Rearranged compare m moved a → IsDrained a m cnt
    next-IsDrained a h r = record {
      heap = h;
      sorted = λ j k jl jk kh.
          rw (r.outside j jl, r.outside k (omega arith)) (moved-sorted j k jl jk kh);
      below = λ j k jl jh kl kh.
          rw (r.outside k kl) (r.bound (moved k) (λ i il ih. moved_below i k il ih kl kh) j jl jh);
    }

  -- The elements 1 to `cnt` are in order.
  abbrev pub IsSorted : (ℕ → A) → ℕ → Type 0
  IsSorted array cnt = (j k : ℕ) → 1 ≤ j → j ≤ k → k ≤ cnt → Le compare (array j) (array k)

  IsDrained-IsSorted : (array : ℕ → A) (cnt : ℕ) → IsDrained array 1 cnt → IsSorted array cnt
  IsDrained-IsSorted array cnt d j k jl jk kh = elim (ℕ_discrete j k) [
    | yes e ↦ rw e (Le_refl compare o (array k))
    | no ne ↦ elim (ℕ_discrete j 1) [
      | yes f ↦ d.below j k jl (omega arith) (omega arith) kh
      | no nf ↦ d.sorted j k (omega arith) jk kh
    ]
  ]

  drain_loop-IsSorted :
      (left cnt : ℕ) (array : ℕ → A)
      → suc left ≤ cnt
      → IsDrained array (suc left) cnt
      → (array' : ℕ → A) × (drain_loop compare left array ≡ some array')
        × IsSorted array' cnt
        × Rearranged compare cnt array array'
  unfolding drain_loop moved
  drain_loop-IsSorted zero cnt array h d =
      (array, refl, IsDrained-IsSorted array cnt d, Rearranged-refl compare cnt array)
  drain_loop-IsSorted (suc left) cnt array h d =
      let (a1, e1, h1, r1) =
        heapify-IsHeap compare o (suc (suc left)) (moved array (suc left) cnt (omega arith) h d) 1 1
          (suc left) (omega arith) (omega arith) (omega arith) (omega arith)
          (moved-IsSifted array (suc left) cnt (omega arith) h d) in
      let (a2, e2, s2, r2) =
        drain_loop-IsSorted left cnt a1 (omega arith)
          (next-IsDrained array (suc left) cnt (omega arith) h d a1 h1 r1) in
      (
        a2,
        rw e1 e2,
        s2,
        Rearranged-trans compare cnt _ _ _
            (swap-Rearranged compare cnt array 1 (suc (suc left)) (omega arith) (omega arith)
              (omega arith) h)
            (Rearranged-trans compare cnt _ _ _
              (Rearranged-le compare (suc left) cnt _ _ (omega arith) r1) r2),
      )

  -- sort with a `compare` that orders the elements succeeds: the rounds suffice, the elements 1 to `cnt`
  -- are in order, each occurs as often as before, and all others are in place.
  pub sort-IsSorted :
      (array : ℕ → A) (cnt : ℕ)
      → (array' : ℕ → A) × (sort compare array cnt ≡ some array')
        × IsSorted array' cnt
        × ((p : A → Bool) → count p array' cnt ≡ count p array cnt)
        × ((k : ℕ) → cnt < k → array' k ≡ array k)
        × (array' 0 ≡ array 0)
  unfolding sort drain_loop
  sort-IsSorted array zero =
      let (a1, e1, h1, r1) =
        build_loop-IsHeap 0 zero array (omega arith) (λ c hc hl. absurd (omega arith)) in
      (
        a1,
        rw e1 refl,
        (λ j k jl jk kh. absurd (omega arith)),
        (λ p. r1.counts 0 p (omega arith)),
        r1.outside,
        r1.front,
      )
  sort-IsSorted array (suc n) =
      let (a1, e1, h1, r1) =
        build_loop-IsHeap (suc n / 2) (suc n) array (omega arith)
          (λ c hc hl. absurd (omega arith)) in
      let whole : IsDrained a1 (suc n) (suc n) = record {
        heap = h1;
        sorted = λ j k jl jk kh. absurd (omega arith);
        below = λ j k jl jh kl kh. absurd (omega arith);
      } in
      let (a2, e2, s2, r2) = drain_loop-IsSorted n (suc n) a1 (omega arith) whole in
      let e : suc n - 1 ≡ n = omega arith in
      let r = Rearranged-trans compare (suc n) array a1 a2 r1 r2 in
      (a2, rw (e1, e) e2, s2, (λ p. r.counts (suc n) p (omega arith)), r.outside, r.front)
