-- ===== src/HashTable/Find.antt =====
-- What hash_find of pintos/src/lib/kernel/hash.c finds.

use course_cs439_operating_s.Base.{
  ℕ, ◌≡◌, refl, sym, ap, ◌∙◌, inl, inr, true, false, Option, none, some, Bool-cases,
}
use course_cs439_operating_s.HashTable.{Table, find_bucket, is_equal, find_elem, hash_find}
use course_cs439_operating_s.HashTable.Buckets.{
  has, contains, IsValid, IsKeyed, find_elem-some, find_elem-none,
}

-- Equal elements belong in one bucket.
equal_bucket :
    (h : Table) (x e : ℕ) → IsKeyed h → is_equal h x e ≡ true → find_bucket h x ≡ find_bucket h e
unfolding find_bucket
equal_bucket h x e k q = rw (k.hashed x e q) refl

-- The result of a search.
abbrev pub Found : Table → ℕ → Option ℕ → Type 0
Found h e none = (x : ℕ) → contains h x ≡ true → is_equal h x e ≡ false
Found h e (some x) = (contains h x ≡ true) × (is_equal h x e ≡ true)

found :
    (h : Table) (e : ℕ) (r : Option ℕ)
    → IsValid h
    → IsKeyed h
    → find_elem h (h.buckets (find_bucket h e)) e ≡ r
    → Found h e r
unfolding contains
found h e none v k f = λ x c. elim (Bool-cases (is_equal h x e)) [
  | inr other ↦ other
  | inl same ↦
      find_elem-none h (h.buckets (find_bucket h e)) e x f
        (ap (λ i. has x (h.buckets i)) (sym (equal_bucket h x e k same)) ∙ c)
]
found h e (some x) v k f =
    let (m, same) = find_elem-some h (h.buckets (find_bucket h e)) e x f in
    (ap (λ i. has x (h.buckets i)) (equal_bucket h x e k same) ∙ m, same)

-- hash_find finds an element of the table that is equal to the one asked for, if there is any.
pub hash_find-Found : (h : Table) (e : ℕ) → IsValid h → IsKeyed h → Found h e (hash_find h e)
unfolding hash_find
hash_find-Found h e v k = found h e (find_elem h (h.buckets (find_bucket h e)) e) v k refl

pub equal_self : (h : Table) (e : ℕ) → IsKeyed h → is_equal h e e ≡ true
unfolding is_equal
equal_self h e k = rw (k.irreflexive e) refl
