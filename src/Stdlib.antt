-- ===== src/Stdlib.antt =====
-- Sorting and searching: pintos/src/lib/stdlib.c. An array is a function from indices to its elements of
-- `size` bytes, from 1 on in sort and from 0 on in binary_search; `compare` gives the sign of what the
-- function of the caller returns, its `aux` included. `none` as a result means that the rounds did not
-- suffice; sort and binary_search give enough.
pub mod Swaps
pub mod Order
pub mod Heapify
pub mod Sort
pub mod Total
pub mod Search
mod Tests
use Prim.Native.Nat.{Ordering}
use course_cs439_operating_s.Base.{
  ℕ, zero, suc, ◌+◌, ◌-◌, ◌*◌, ◌/◌, Bool, true, false, ◌&&◌, Option, none, some, ltb, leb, ◌==◌,
  if◌then◌else◌, ◌>>=◌,
}

abbrev pub is_gt : Ordering → Bool
is_gt Ordering.lt = false
is_gt Ordering.eq = false
is_gt Ordering.gt = true

module _ {ℓ} {A : Type ℓ} where
  -- do_swap exchanges two elements byte by byte.
  unfoldable pub do_swap : (ℕ → A) → (a_idx b_idx : ℕ) → ℕ → A
  do_swap array a_idx b_idx k =
      if k == a_idx then array b_idx else if k == b_idx then array a_idx else array k

module _ {ℓ} {A : Type ℓ} (compare : A → A → Ordering) where
  pub do_compare : (ℕ → A) → (a_idx b_idx : ℕ) → Ordering
  do_compare array a_idx b_idx = compare (array a_idx) (array b_idx)

  -- `max` after the test of one child.
  pub larger : (ℕ → A) → (cnt child max : ℕ) → ℕ
  unfolding do_compare
  larger array cnt child max =
      if leb child cnt && is_gt (do_compare array child max) then child else max

  pub largest : (ℕ → A) → (i cnt : ℕ) → ℕ
  largest array i cnt = larger array cnt (2 * i + 1) (larger array cnt (2 * i) i)

  -- The loop of heapify, on fuel.
  pub heapify : ℕ → (ℕ → A) → (i cnt : ℕ) → Option (ℕ → A)
  heapify zero array i cnt = none
  heapify (suc fuel) array i cnt =
      let max = largest array i cnt in
      elim (max == i) [ true ↦ some array | false ↦ heapify fuel (do_swap array i max) max cnt ]

  -- "Build a heap", from index `i` down to 1.
  pub build_loop : (i cnt : ℕ) → (ℕ → A) → Option (ℕ → A)
  build_loop zero cnt array = some array
  build_loop (suc i) cnt array = do
    array' ← heapify (suc cnt) array (suc i) cnt
    build_loop i cnt array'

  -- "Sort the heap", from index `i` down to 2; `left` is i - 1.
  pub drain_loop : (left : ℕ) → (ℕ → A) → Option (ℕ → A)
  drain_loop zero array = some array
  drain_loop (suc left) array = do
    array' ← heapify (suc (suc left)) (do_swap array 1 (suc (suc left))) 1 (suc left)
    drain_loop left array'

  pub sort : (ℕ → A) → (cnt : ℕ) → Option (ℕ → A)
  sort array cnt = do heap ← build_loop (cnt / 2) cnt array; drain_loop (cnt - 1) heap

module _ {ℓ κ} {K : Type κ} {A : Type ℓ} (compare : K → A → Ordering) where
  -- The loop of binary_search between the indices `first` and `last`.
  pub search_loop : ℕ → K → (ℕ → A) → (first last : ℕ) → Option (Option ℕ)
  search_loop zero key array first last = none
  search_loop (suc fuel) key array first last =
      let middle = first + (last - first) / 2 in
      elim (ltb first last) [
        | false ↦ some none
        | true ↦ elim (compare key (array middle)) [
          | Ordering.lt ↦ search_loop fuel key array first middle
          | Ordering.gt ↦ search_loop fuel key array (suc middle) last
          | Ordering.eq ↦ some (some middle)
        ]
      ]

  -- `none` inside is NULL.
  pub binary_search : K → (ℕ → A) → (cnt : ℕ) → Option (Option ℕ)
  binary_search key array cnt = search_loop (suc cnt) key array 0 cnt
