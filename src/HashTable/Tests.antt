-- ===== src/HashTable/Tests.antt =====
-- Runs on a table of four buckets that holds numbers, each its own hash.

use course_cs439_operating_s.Base.{
  ℕ, ◌<◌, ◌≡◌, refl, true, false, ◌&&◌, Option, some, [], ◌∷◌, arith, ltb, ◌==◌, if◌then◌else◌, inl,
  inr, Bool-cases,
}
use course_cs439_operating_s.HashTable.{
  Table, find_bucket, is_equal, hash_insert, hash_delete, hash_find, find_elem, hash_apply,
  bucket_loop, hash_init, hash_clear,
}
use course_cs439_operating_s.HashTable.Buckets.{IsValid, IsKeyed, has, contains, total}
use course_cs439_operating_s.HashTable.Find.{Found}
use course_cs439_operating_s.HashTable.Insert.{Inserted, hash_insert-Inserted}
use course_cs439_operating_s.HashTable.Update.{Deleted, hash_delete-Deleted}

abbrev numbers : Table
numbers = record { elem_cnt = 0; bucket_cnt = 4; buckets = λ i. []; hash = λ a. a; less = ltb }

numbers-IsValid : IsValid numbers
unfolding has contains total
numbers-IsValid = record {
  positive = omega arith;
  counted = refl;
  placed = λ i x h. ground arith;
  distinct = λ i h. tt;
}

numbers-IsKeyed : IsKeyed numbers
unfolding is_equal
numbers-IsKeyed = record { hashed = λ a b h. ground arith; irreflexive = λ a. ground arith }

initially :
    hash_init true (λ i. 7 ∷ []) (λ a. a) ltb
    ≡ (record numbers { buckets = λ i. if ltb i 4 then [] else 7 ∷ [] }, true)
unfolding hash_init hash_clear
initially = refl

hash_insert-Inserted_example :
    (h' : Table) × (r : Option ℕ) × (hash_insert true numbers 9 ≡ some (h', r))
    × Found numbers 9 r
    × Inserted numbers 9 h' r
    × IsValid h'
    × IsKeyed h'
hash_insert-Inserted_example = hash_insert-Inserted true numbers 9 numbers-IsValid numbers-IsKeyed

-- The element 9 in its bucket.
abbrev nine : Table
nine = record numbers { elem_cnt = 1; buckets = λ i. if i == 1 then 9 ∷ [] else [] }

nine_bucket : (x : ℕ) → (9 == x) ≡ true → find_bucket nine x ≡ 1
unfolding find_bucket
nine_bucket x h = let e : x ≡ 9 = ground arith in rw e refl

nine-placed :
    (i x : ℕ) → i < 4 → has x (nine.buckets i) ≡ ((i == find_bucket nine x) && contains nine x)
unfolding has contains
nine-placed i x h = elim (Bool-cases (9 == x)) [
  | inl same ↦ rw (nine_bucket x same) (ground (arith, same))
  | inr apart ↦ ground (arith, apart)
]

nine-IsValid : IsValid nine
unfolding total has
nine-IsValid = record {
  positive = omega arith;
  counted = refl;
  placed = nine-placed;
  distinct = λ i h. elim (Bool-cases (i == 1)) [ inl e ↦ rw e (refl, tt) | inr e ↦ rw e tt ];
}

nine-IsKeyed : IsKeyed nine
unfolding is_equal
nine-IsKeyed = record { hashed = λ a b h. ground arith; irreflexive = λ a. ground arith }

hash_delete-Deleted_example :
    (h' : Table) × (r : Option ℕ) × (hash_delete false nine 9 ≡ some (h', r))
    × Found nine 9 r
    × Deleted nine h' r
    × IsValid h'
    × IsKeyed h'
hash_delete-Deleted_example = hash_delete-Deleted false nine 9 nine-IsValid nine-IsKeyed

found_again : hash_find nine 9 ≡ some 9
unfolding hash_find find_elem is_equal find_bucket
found_again = refl

visited : hash_apply nine ≡ 9 ∷ []
unfolding hash_apply bucket_loop
visited = refl
