-- ===== src/Stdlib/Tests.antt =====
-- Runs of pintos/src/lib/stdlib.c on arrays of numbers.
use Prim.Native.Nat.{Ordering, compare}
use course_cs439_operating_s.Base.{
  ℕ, ◌*◌, ◌<◌, Bool, Option, none, some, List, [], ◌∷◌, ◌==◌, if◌then◌else◌, ◌≡◌, refl, arith,
  ◌>>=◌,
}
use course_cs439_operating_s.Stdlib.{
  do_compare, do_swap, larger, largest, heapify, build_loop, drain_loop, sort, search_loop,
  binary_search,
}
use course_cs439_operating_s.Stdlib.Swaps.{count}
use course_cs439_operating_s.Stdlib.Order.{IsOrder}
use course_cs439_operating_s.Stdlib.Sort.{IsSorted, sort-IsSorted}
use course_cs439_operating_s.Stdlib.Total.{sort_ends}
use course_cs439_operating_s.Stdlib.Search.{MayMatch, binary_search-MayMatch}

numbers-IsOrder : IsOrder compare
numbers-IsOrder = record { asym = λ x y h. ground arith; trans = λ x y z h k. ground arith }

-- 5, 2, 9, 2 at the indices 1 to 4, and 1 elsewhere.
abbrev four : ℕ → ℕ
four k = if k == 1 then 5 else if k == 2 then 2 else if k == 3 then 9 else if k == 4 then 2 else 1

abbrev first_six : (ℕ → ℕ) → List ℕ
first_six a = a 0 ∷ a 1 ∷ a 2 ∷ a 3 ∷ a 4 ∷ a 5 ∷ []

sort-four : (do a ← sort compare four 4; some (first_six a)) ≡ some (1 ∷ 2 ∷ 2 ∷ 5 ∷ 9 ∷ 1 ∷ [])
unfolding sort build_loop drain_loop heapify largest larger do_compare do_swap
sort-four = refl

-- 0, 10, 20 and so on.
abbrev tens : ℕ → ℕ
tens k = k * 10

search_thirty : binary_search compare 30 tens 6 ≡ some (some 3)
unfolding binary_search search_loop
search_thirty = refl

search_five : binary_search compare 5 tens 6 ≡ some none
unfolding binary_search search_loop
search_five = refl

sort-IsSorted_example :
    (array : ℕ → ℕ) × (sort compare four 4 ≡ some array)
    × IsSorted compare numbers-IsOrder array 4
    × ((p : ℕ → Bool) → count p array 4 ≡ count p four 4)
    × ((k : ℕ) → 4 < k → array k ≡ four k)
    × (array 0 ≡ four 0)
sort-IsSorted_example = sort-IsSorted compare numbers-IsOrder four 4

sort_ends_example :
    (array : ℕ → ℕ) × (sort (λ x y. Ordering.gt) four 4 ≡ some array)
    × ((p : ℕ → Bool) → count p array 4 ≡ count p four 4)
    × ((k : ℕ) → 4 < k → array k ≡ four k)
sort_ends_example = sort_ends (λ x y. Ordering.gt) four 4

binary_search-MayMatch_example :
    (r : Option ℕ) × (binary_search compare 5 four 5 ≡ some r) × MayMatch compare 5 four 5 r
binary_search-MayMatch_example = binary_search-MayMatch compare 5 four 5
