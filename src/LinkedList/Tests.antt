-- ===== src/LinkedList/Tests.antt =====
-- Runs on the list of the elements 10 and 14, between the sentinels 1 and 2.
use course_cs439_operating_s.Base.{
  ℕ, ◌≡◌, refl, true, false, Option, none, some, [], ◌∷◌, ◌++◌, arith, ltb, ◌==◌, if◌then◌else◌,
  ◌>>=◌,
}
use mathlib.Core.Option
use course_cs439_operating_s.LinkedList.{
  Links, LinkedList, set_next, set_prev, is_head, is_interior, is_tail, list_init, list_begin,
  list_next, list_end, list_prev, list_insert, list_splice, list_push_front, list_push_back,
  list_remove, list_empty, list_back, list_pop_back, size_loop, list_size, max_loop, list_max,
  list_insert_ordered,
}
use course_cs439_operating_s.LinkedList.Nodes.{Holds}
use course_cs439_operating_s.LinkedList.Refine.{Elsewhere, list_remove-Holds}
use course_cs439_operating_s.LinkedList.Stale.{list_remove-twice}
use course_cs439_operating_s.LinkedList.Search.{Spot, IsSorted, list_insert_ordered-Spot}

abbrev two : LinkedList
two = record { head = 1; tail = 2 }

abbrev links : Links
links = record {
  prev = λ a. if a == 10 then 1 else if a == 14 then 10 else if a == 2 then 14 else 0;
  next = λ a. if a == 1 then 10 else if a == 10 then 14 else if a == 14 then 2 else 0;
}

two-Holds : Holds links two (10 ∷ 14 ∷ [])
two-Holds = record {
  front = refl;
  back = refl;
  linked = (refl, refl, (refl, refl, (refl, refl, tt)));
  distinct = omega arith;
  valid = omega arith;
}

runs : ℕ
unfolding list_init list_push_front list_push_back list_insert list_begin list_end is_interior
    is_tail is_head set_next set_prev list_size size_loop list_next list_pop_back list_back
    list_empty list_remove list_max max_loop list_splice list_prev
runs = 0

abbrev built : Option Links
built = do
  let s = list_init (record { prev = λ a. 0; next = λ a. 0 }) two
  s1 ← list_push_back s two 14
  list_push_front s1 two 10

built_size : (built >>= λ s. list_size 3 s two) ≡ some 2
unfolding runs
built_size = refl

built_max : (built >>= λ s. list_max 3 ltb s two) ≡ some 14
unfolding runs
built_max = refl

abbrev forward : Option Links → Option (ℕ × ℕ × ℕ)
forward none = none
forward (some s) = some (s.next 1, s.next 10, s.next 14)

popped : (built >>= λ s. Option.map (λ (_, e). e) (list_pop_back s two)) ≡ some 14
unfolding runs
popped = refl

-- 14 moves before 10.
spliced : forward (list_splice links 10 14 2) ≡ some (14, 2, 10)
unfolding runs
spliced = refl

list_remove-Holds_example :
    (s' : Links) × (list_remove links 14 ≡ some (s', 2))
    × Holds s' two (10 ∷ [])
    × Elsewhere (λ a. ⊥) links s' 10 2
list_remove-Holds_example = list_remove-Holds links two (10 ∷ []) [] 14 two-Holds

list_remove-twice_example :
    (s1 : Links) × (s2 : Links) × (s3 : Links) × (list_remove links 14 ≡ some (s1, 2))
    × (list_insert s1 2 17 ≡ some s2)
    × Holds s2 two (10 ∷ 17 ∷ [])
    × (list_remove s2 14 ≡ some (s3, 2))
    × Holds s3 two (10 ∷ [])
list_remove-twice_example =
    list_remove-twice links two (10 ∷ []) [] 14 17 two-Holds (omega arith) (omega arith)
      (omega arith)

ltb_order : (a b c : ℕ) → ltb a b ≡ true → ltb c b ≡ false → ltb c a ≡ false
ltb_order a b c h k = ground arith

ltb_irreflexive : (a : ℕ) → ltb a a ≡ false
ltb_irreflexive a = ground arith

list_insert_ordered-Spot_example :
    (spot : Spot ltb 12 (10 ∷ 14 ∷ [])) × (s' : Links) × (list_insert_ordered 3 ltb links two 12
      ≡ some s')
    × Holds s' two (spot.ahead ++ 12 ∷ spot.behind)
    × IsSorted ltb (spot.ahead ++ 12 ∷ spot.behind)
list_insert_ordered-Spot_example =
    list_insert_ordered-Spot ltb 12 ltb_order ltb_irreflexive 3 links two (10 ∷ 14 ∷ []) two-Holds
      (omega arith) (omega arith) (omega arith) ((refl, tt), (tt, tt))
