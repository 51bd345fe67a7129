-- ===== src/HashTable/Update.antt =====
-- What hash_delete of pintos/src/lib/kernel/hash.c does to what a table contains.
use mathlib.Core.Path.{subst}
use course_cs439_operating_s.Base.{
  ℕ, suc, ◌≡◌, refl, ap, ◌∙◌, Bool, ◌&&◌, not, Option, none, some, ◌==◌,
}
use course_cs439_operating_s.HashTable.{Table, remove_elem, rehash, hash_find, hash_delete}
use course_cs439_operating_s.HashTable.Buckets.{contains, IsValid, IsKeyed}
use course_cs439_operating_s.HashTable.Rehash.{rehash-Rehashed}
use course_cs439_operating_s.HashTable.Find.{Found, hash_find-Found}
use course_cs439_operating_s.HashTable.Insert.{
  taken, taken-contains, taken-IsValid, taken-counted, taken_rest, IsKeyed-same,
}

-- What hash_delete changes, by its result.
abbrev pub Deleted : Table → Table → Option ℕ → Type 0
Deleted h h' none = h' ≡ h
Deleted h h' (some y) =
    ((x : ℕ) → contains h' x ≡ (not (y == x) && contains h x)) × (suc h'.elem_cnt ≡ h.elem_cnt)

delete_nothing :
    (memory : Bool) (h : Table) (e : ℕ)
    → hash_find h e ≡ none
    → hash_delete memory h e ≡ some (h, none)
unfolding hash_delete hash_find
delete_nothing memory h e f = rw (hash_delete, f) refl

delete_runs :
    (memory : Bool) (h h' : Table) (e x : ℕ)
    → hash_find h e ≡ some x
    → rehash memory (remove_elem h x) ≡ some h'
    → hash_delete memory h e ≡ some (h', some x)
unfolding hash_delete hash_find
delete_runs memory h h' e x f moved = rw (hash_delete, f, moved) refl

-- hash_delete always ends, whether or not memory is left: if an element of the table is equal to the one asked
-- for, it is the result, and the table contains the others only; otherwise the result is NULL and the
-- table is as it was. The table stays well formed.
pub hash_delete-Deleted :
    (memory : Bool) (h : Table) (e : ℕ)
    → IsValid h
    → IsKeyed h
    → (h' : Table) × (r : Option ℕ) × (hash_delete memory h e ≡ some (h', r))
      × Found h e r
      × Deleted h h' r
      × IsValid h'
      × IsKeyed h'
hash_delete-Deleted memory h e v k = by_result (hash_find h e) refl
  where
    by_result :
        (r : Option ℕ)
        → hash_find h e ≡ r
        → (h' : Table) × (r : Option ℕ) × (hash_delete memory h e ≡ some (h', r))
          × Found h e r
          × Deleted h h' r
          × IsValid h'
          × IsKeyed h'
    by_result none f = (
      h,
      none,
      delete_nothing memory h e f,
      subst (Found h e) f (hash_find-Found h e v k),
      refl,
      v,
      k,
    )
    by_result (some x) f =
        let there : Found h e (some x) = subst (Found h e) f (hash_find-Found h e v k) in
        let (h', runs, w) =
          rehash-Rehashed memory (taken h x v there.0) (taken-IsValid h x v there.0) in
        let (hash, less) = taken_rest h x v there.0 in
        (
          h',
          some x,
          delete_runs memory h h' e x f runs,
          there,
          (
            λ y. w.kept y ∙ taken-contains h x v there.0 y,
            ap suc w.elem_cnt ∙ taken-counted h x v there.0,
          ),
          w.valid,
          IsKeyed-same h h' (w.hash ∙ hash) (w.less ∙ less) k,
        )
