-- ===== src/LinkedList.antt =====
-- Doubly linked lists with their links: pintos/src/lib/kernel/list.c and list.h. An element is known by its
-- address, 0 being NULL. `none` is a failed ASSERT, or a loop that meets more elements than `fuel`.
pub mod Nodes
pub mod Update
pub mod Place
pub mod Refine
pub mod Stale
pub mod Search
mod Tests
use course_cs439_operating_s.Base.{
  ℕ, zero, suc, Bool, true, false, ◌&&◌, ◌||◌, not, Option, none, some, ◌==◌, if◌then◌else◌, ◌>>=◌,
  ◌>>◌, assert,
}

-- struct list_elem: the links of each element.
pub record Links : Type 0 where
  pub prev : ℕ → ℕ
  pub next : ℕ → ℕ

-- struct list: the addresses of its two sentinels.
pub record LinkedList : Type 0 where
  pub head : ℕ
  pub tail : ℕ

abbrev pub put : (ℕ → ℕ) → ℕ → ℕ → ℕ → ℕ
put f a v b = if b == a then v else f b

pub set_next : ℕ → ℕ → Links → Links
set_next a v s = record s { next = put s.next a v }

pub set_prev : ℕ → ℕ → Links → Links
set_prev a v s = record s { prev = put s.prev a v }

pub is_head : Links → ℕ → Bool
is_head s elem = not (elem == 0) && (s.prev elem == 0) && not (s.next elem == 0)

pub is_interior : Links → ℕ → Bool
is_interior s elem = not (elem == 0) && not (s.prev elem == 0) && not (s.next elem == 0)

pub is_tail : Links → ℕ → Bool
is_tail s elem = not (elem == 0) && not (s.prev elem == 0) && (s.next elem == 0)

pub list_init : Links → LinkedList → Links
unfolding set_next set_prev
list_init s l =
    set_next l.tail 0 (set_prev l.tail l.head (set_next l.head l.tail (set_prev l.head 0 s)))

pub list_begin : Links → LinkedList → ℕ
list_begin s l = s.next l.head

pub list_next : Links → ℕ → Option ℕ
list_next s elem = do assert (is_head s elem || is_interior s elem); some (s.next elem)

pub list_end : LinkedList → ℕ
list_end l = l.tail

pub list_prev : Links → ℕ → Option ℕ
list_prev s elem = do assert (is_interior s elem || is_tail s elem); some (s.prev elem)

-- The four assignments of list_insert, in their order.
pub list_insert : Links → (before elem : ℕ) → Option Links
unfolding set_next set_prev
list_insert s before elem = do
  assert (is_interior s before || is_tail s before)
  assert (not (elem == 0))
  let s1 = set_prev elem (s.prev before) s
  let s2 = set_next elem before s1
  let s3 = set_next (s2.prev before) elem s2
  some (set_prev before elem s3)

pub list_splice : Links → (before first last : ℕ) → Option Links
unfolding set_next set_prev
list_splice s before first last = do
  assert (is_interior s before || is_tail s before)
  elim (first == last) [
    | true ↦ some s
    | false ↦ do
      last' ← list_prev s last
      assert (is_interior s first)
      assert (is_interior s last')
      let s1 = set_next (s.prev first) (s.next last') s
      let s2 = set_prev (s1.next last') (s1.prev first) s1
      let s3 = set_prev first (s2.prev before) s2
      let s4 = set_next last' before s3
      let s5 = set_next (s4.prev before) first s4
      some (set_prev before last' s5)
  ]

pub list_push_front : Links → LinkedList → ℕ → Option Links
list_push_front s l elem = list_insert s (list_begin s l) elem

pub list_push_back : Links → LinkedList → ℕ → Option Links
list_push_back s l elem = list_insert s (list_end l) elem

pub list_remove : Links → ℕ → Option (Links × ℕ)
unfolding set_next set_prev
list_remove s elem = do
  assert (is_interior s elem)
  let s1 = set_next (s.prev elem) (s.next elem) s
  let s2 = set_prev (s1.next elem) (s1.prev elem) s1
  some (s2, s2.next elem)

pub list_empty : Links → LinkedList → Bool
list_empty s l = list_begin s l == list_end l

pub list_front : Links → LinkedList → Option ℕ
list_front s l = do assert (not (list_empty s l)); some (s.next l.head)

pub list_back : Links → LinkedList → Option ℕ
list_back s l = do assert (not (list_empty s l)); some (s.prev l.tail)

pub list_pop_front : Links → LinkedList → Option (Links × ℕ)
list_pop_front s l = do front ← list_front s l; (s', _) ← list_remove s front; some (s', front)

pub list_pop_back : Links → LinkedList → Option (Links × ℕ)
list_pop_back s l = do back ← list_back s l; (s', _) ← list_remove s back; some (s', back)

pub size_loop : (fuel : ℕ) → Links → (e end cnt : ℕ) → Option ℕ
size_loop zero s e end cnt = none
size_loop (suc fuel) s e end cnt = elim (e == end) [
  | true ↦ some cnt
  | false ↦ do e' ← list_next s e; size_loop fuel s e' end (suc cnt)
]

pub list_size : (fuel : ℕ) → Links → LinkedList → Option ℕ
list_size fuel s l = size_loop fuel s (list_begin s l) (list_end l) 0

-- The first element that `elem` is less than, or the end.
pub place_loop : (fuel : ℕ) → (ℕ → ℕ → Bool) → Links → (elem e end : ℕ) → Option ℕ
place_loop zero less s elem e end = none
place_loop (suc fuel) less s elem e end = elim (e == end) [
  | true ↦ some e
  | false ↦ elim (less elem e) [
    | true ↦ some e
    | false ↦ do e' ← list_next s e; place_loop fuel less s elem e' end
  ]
]

pub list_insert_ordered : (fuel : ℕ) → (less : ℕ → ℕ → Bool) → Links → LinkedList → ℕ → Option Links
list_insert_ordered fuel less s l elem = do
  e ← place_loop fuel less s elem (list_begin s l) (list_end l)
  list_insert s e elem

pub max_loop : (fuel : ℕ) → (ℕ → ℕ → Bool) → Links → (max e end : ℕ) → Option ℕ
max_loop zero less s max e end = none
max_loop (suc fuel) less s max e end = elim (e == end) [
  | true ↦ some max
  | false ↦ do e' ← list_next s e; max_loop fuel less s (if less max e then e else max) e' end
]

pub list_max : (fuel : ℕ) → (less : ℕ → ℕ → Bool) → Links → LinkedList → Option ℕ
list_max fuel less s l = elim (list_begin s l == list_end l) [
  | true ↦ some (list_begin s l)
  | false ↦ do
    e ← list_next s (list_begin s l)
    max_loop fuel less s (list_begin s l) e (list_end l)
]

pub list_min : (fuel : ℕ) → (less : ℕ → ℕ → Bool) → Links → LinkedList → Option ℕ
list_min fuel less s l = list_max fuel (λ a b. less b a) s l
