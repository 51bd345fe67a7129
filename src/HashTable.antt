-- ===== src/HashTable.antt =====
-- Hash tables: pintos/src/lib/kernel/hash.c and hash.h. An element is known by its address and a bucket is
-- the list of its elements; `hash` and `less` stand for the functions of the table with their
-- auxiliary data. `memory` tells whether the next call of malloc succeeds, and `none` is a loop that
-- took more rounds than its fuel.
pub mod Buckets
pub mod Rounds
pub mod Rehash
pub mod Find
pub mod Insert
pub mod Update
mod Tests
use Prim.Native.Nat.{bit_and}
use course_cs439_operating_s.Base.{
  ℕ, zero, suc, ◌+◌, ◌-◌, ◌*◌, ◌/◌, ◌%◌, Bool, true, false, ◌&&◌, ◌||◌, not, Option, none, some,
  List, [], ◌∷◌, ◌++◌, ltb, ◌==◌, if◌then◌else◌, ◌>>=◌,
}

pub record Table : Type 0 where
  pub elem_cnt : ℕ
  pub bucket_cnt : ℕ
  pub buckets : ℕ → List ℕ
  pub hash : ℕ → ℕ
  pub less : ℕ → ℕ → Bool

abbrev pub put : (ℕ → List ℕ) → ℕ → List ℕ → ℕ → List ℕ
put buckets i bucket j = if j == i then bucket else buckets j

-- The index of the bucket for an element.
pub find_bucket : Table → ℕ → ℕ
find_bucket h e = bit_and (h.hash e) (h.bucket_cnt - 1)

pub is_equal : Table → ℕ → ℕ → Bool
is_equal h a b = not (h.less a b) && not (h.less b a)

pub find_elem : Table → List ℕ → ℕ → Option ℕ
find_elem h [] e = none
find_elem h (hi ∷ bucket) e =
    let rest = find_elem h bucket e in if is_equal h hi e then some hi else rest

pub turn_off_least_1bit : ℕ → ℕ
turn_off_least_1bit x = bit_and x (x - 1)

pub is_power_of_2 : ℕ → Bool
is_power_of_2 x = not (x == 0) && (turn_off_least_1bit x == 0)

-- The loop that rounds a number of buckets down to a power of 2.
pub round_loop : (fuel : ℕ) → ℕ → Option ℕ
round_loop zero n = none
round_loop (suc fuel) n = elim (is_power_of_2 n) [
  | true ↦ some n
  | false ↦ round_loop fuel (turn_off_least_1bit n)
]

-- The elements of an old bucket move to the front of their new ones.
pub move_bucket : Table → List ℕ → Table
move_bucket h [] = h
move_bucket h (elem ∷ bucket) =
    let i = find_bucket h elem in
    move_bucket (record h { buckets = put h.buckets i (elem ∷ h.buckets i) }) bucket

pub move_loop : (cnt i : ℕ) → (old : ℕ → List ℕ) → Table → Table
move_loop zero i old h = h
move_loop (suc cnt) i old h = move_loop cnt (suc i) old (move_bucket h (old i))

abbrev pub wanted_cnt : Table → ℕ
wanted_cnt h = if ltb (h.elem_cnt / 2) 4 then 4 else h.elem_cnt / 2

pub rehash : (memory : Bool) → Table → Option Table
rehash memory h = do
  new_bucket_cnt ← round_loop (wanted_cnt h) (wanted_cnt h)
  some (
      if new_bucket_cnt == h.bucket_cnt || not memory
      then h
      else move_loop h.bucket_cnt 0 h.buckets
          (record h { bucket_cnt = new_bucket_cnt; buckets = λ i. [] }))

pub insert_elem : Table → (bucket e : ℕ) → Table
insert_elem h bucket e = record h {
  elem_cnt = suc h.elem_cnt;
  buckets = put h.buckets bucket (e ∷ h.buckets bucket);
}

-- list_remove of the element in its bucket.
pub without : ℕ → List ℕ → List ℕ
without e [] = []
without e (x ∷ bucket) = if x == e then bucket else x ∷ without e bucket

pub remove_elem : Table → ℕ → Table
remove_elem h e =
    let i = find_bucket h e in
    record h { elem_cnt = h.elem_cnt - 1; buckets = put h.buckets i (without e (h.buckets i)) }

pub hash_insert : (memory : Bool) → Table → ℕ → Option (Table × Option ℕ)
hash_insert memory h e = do
  let bucket = find_bucket h e
  let old = find_elem h (h.buckets bucket) e
  h' ← rehash memory (elim old [ none ↦ insert_elem h bucket e | some _ ↦ h ])
  some (h', old)

pub hash_replace : (memory : Bool) → Table → ℕ → Option (Table × Option ℕ)
hash_replace memory h e = do
  let bucket = find_bucket h e
  let old = find_elem h (h.buckets bucket) e
  h' ← rehash memory (insert_elem (elim old [ none ↦ h | some x ↦ remove_elem h x ]) bucket e)
  some (h', old)

pub hash_find : Table → ℕ → Option ℕ
hash_find h e = find_elem h (h.buckets (find_bucket h e)) e

pub hash_delete : (memory : Bool) → Table → ℕ → Option (Table × Option ℕ)
unfolding hash_find
hash_delete memory h e = elim (hash_find h e) [
  | none ↦ some (h, none)
  | some x ↦ do h' ← rehash memory (remove_elem h x); some (h', some x)
]

-- The loop over the buckets: the elements in the order in which they are met.
pub bucket_loop : (cnt i : ℕ) → (ℕ → List ℕ) → List ℕ
bucket_loop zero i buckets = []
bucket_loop (suc cnt) i buckets = buckets i ++ bucket_loop cnt (suc i) buckets

-- The elements for which `action` is called, in order.
pub hash_apply : Table → List ℕ
hash_apply h = bucket_loop h.bucket_cnt 0 h.buckets

-- The table, and the elements for which the destructor is called, if there is one.
pub hash_clear : Table → (destructor : Bool) → Table × List ℕ
hash_clear h destructor = (
  record h { elem_cnt = 0; buckets = λ i. if ltb i h.bucket_cnt then [] else h.buckets i },
  if destructor then bucket_loop h.bucket_cnt 0 h.buckets else [],
)

-- The elements for which hash_destroy calls the destructor, before it frees the buckets.
pub hash_destroy : Table → (destructor : Bool) → List ℕ
hash_destroy h destructor = if destructor then (hash_clear h true).1 else []

pub hash_init : (memory : Bool) → (ℕ → List ℕ) → (ℕ → ℕ) → (ℕ → ℕ → Bool) → Table × Bool
unfolding hash_clear
hash_init memory garbage hash less =
    let h : Table = record {
      elem_cnt = 0;
      bucket_cnt = 4;
      buckets = garbage;
      hash = hash;
      less = less;
    } in
    if memory then ((hash_clear h false).0, true) else (h, false)

pub hash_size : Table → ℕ
hash_size h = h.elem_cnt

pub hash_empty : Table → Bool
hash_empty h = h.elem_cnt == 0
