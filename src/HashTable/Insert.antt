-- ===== src/HashTable/Insert.antt =====
-- What hash_insert of pintos/src/lib/kernel/hash.c does to what a table contains.
use mathlib.Core.Path.{subst}
use course_cs439_operating_s.Base.{
  ℕ, suc, ◌<◌, ◌≡◌, refl, sym, ap, ◌∙◌, inl, inr, Bool, true, false, ◌&&◌, ◌||◌, not, Option, none,
  some, ◌∷◌, arith, ◌==◌, Bool-cases, ==_refl,
}
use course_cs439_operating_s.HashTable.{
  Table, find_bucket, is_equal, insert_elem, remove_elem, without, rehash, hash_insert, hash_find,
}
use course_cs439_operating_s.HashTable.Buckets.{
  has, contains, Distinct, IsValid, IsKeyed, find_bucket-lt, total-put, has-without,
  Distinct-without, length-without,
}
use course_cs439_operating_s.HashTable.Rehash.{rehash-Rehashed}
use course_cs439_operating_s.HashTable.Find.{Found, hash_find-Found, equal_self}

-- Inserting an element that is not there.
module _ (h : Table) (e : ℕ) (v : IsValid h) (new : contains h e ≡ false) where
  abbrev added : Table
  added = insert_elem h (find_bucket h e) e

  added-bucket : (x : ℕ) → find_bucket added x ≡ find_bucket h x
  unfolding insert_elem find_bucket
  added-bucket x = refl

  added-holds :
      (i x : ℕ)
      → i < h.bucket_cnt
      → has x (added.buckets i) ≡ ((i == find_bucket h x) && ((e == x) || contains h x))
  unfolding insert_elem has
  added-holds i x lt = elim (Bool-cases (e == x)) [
    | inl same ↦
        let eq : e ≡ x = ground arith in
        ground (arith, v.placed i x lt, ap (find_bucket h) eq, ap (contains h) eq, new)
    | inr apart ↦ ground (
      arith,
      v.placed i x lt,
      apart,
      v.placed (find_bucket h e) x (find_bucket-lt h e v.positive),
    )
  ]

  added-contains : (x : ℕ) → contains added x ≡ ((e == x) || contains h x)
  unfolding contains
  added-contains x =
      ap (λ i. has x (added.buckets i)) (added-bucket x)
      ∙ added-holds (find_bucket h x) x (find_bucket-lt h x v.positive)
      ∙ ap (λ b. b && ((e == x) || contains h x)) (==_refl (find_bucket h x))

  added-IsValid : IsValid added
  unfolding insert_elem has contains
  added-IsValid = record {
    positive = v.positive;
    counted =
        let grown =
          total-put h.buckets (find_bucket h e) (e ∷ h.buckets (find_bucket h e)) h.bucket_cnt
            (find_bucket-lt h e v.positive) in
        omega (arith, grown, v.counted);
    placed = λ i x lt.
        added-holds i x lt
        ∙ ap (λ j. (i == j) && ((e == x) || contains h x)) (sym (added-bucket x))
        ∙ ap (λ b. (i == find_bucket added x) && b) (sym (added-contains x));
    distinct = λ i lt. elim (Bool-cases (i == find_bucket h e)) [
      | inl same ↦ rw same (new, v.distinct (find_bucket h e) (find_bucket-lt h e v.positive))
      | inr other ↦ rw other (v.distinct i lt)
    ];
  }

  added_rest : (added.elem_cnt ≡ suc h.elem_cnt) × (added.hash ≡ h.hash) × (added.less ≡ h.less)
  unfolding insert_elem
  added_rest = (refl, refl, refl)

-- Taking out an element that is there.
module _ (h : Table) (e : ℕ) (v : IsValid h) (old : contains h e ≡ true) where
  abbrev pub taken : Table
  taken = remove_elem h e

  own_bucket : Distinct (h.buckets (find_bucket h e))
  own_bucket = v.distinct (find_bucket h e) (find_bucket-lt h e v.positive)

  taken-bucket : (x : ℕ) → find_bucket taken x ≡ find_bucket h x
  unfolding remove_elem find_bucket
  taken-bucket x = refl

  taken-holds :
      (i x : ℕ)
      → i < h.bucket_cnt
      → has x (taken.buckets i) ≡ ((i == find_bucket h x) && (not (e == x) && contains h x))
  unfolding remove_elem
  taken-holds i x lt = elim (Bool-cases (i == find_bucket h e)) [
    | inl same ↦
        let eq : i ≡ find_bucket h e = ground arith in
        rw same (
          has-without x e (h.buckets (find_bucket h e)) own_bucket
          ∙ ground (arith, v.placed (find_bucket h e) x (find_bucket-lt h e v.positive), eq))
    | inr other ↦ rw other (
        v.placed i x lt ∙ elim (Bool-cases (e == x)) [
          | inl here ↦
              let eq : e ≡ x = ground arith in
              let far : (i == find_bucket h x) ≡ false =
                ap (λ y. i == find_bucket h y) (sym eq) ∙ other in
              rw far refl
          | inr apart ↦ rw apart refl
        ])
  ]

  pub taken-contains : (x : ℕ) → contains taken x ≡ (not (e == x) && contains h x)
  unfolding contains
  taken-contains x =
      ap (λ i. has x (taken.buckets i)) (taken-bucket x)
      ∙ taken-holds (find_bucket h x) x (find_bucket-lt h x v.positive)
      ∙ ap (λ b. b && (not (e == x) && contains h x)) (==_refl (find_bucket h x))

  pub taken-IsValid : IsValid taken
  unfolding remove_elem contains
  taken-IsValid = record {
    positive = v.positive;
    counted =
        let shrunk =
          total-put h.buckets (find_bucket h e) (without e (h.buckets (find_bucket h e)))
            h.bucket_cnt (find_bucket-lt h e v.positive) in
        omega (arith, shrunk, v.counted, length-without e (h.buckets (find_bucket h e)) old);
    placed = λ i x lt.
        taken-holds i x lt
        ∙ ap (λ j. (i == j) && (not (e == x) && contains h x)) (sym (taken-bucket x))
        ∙ ap (λ b. (i == find_bucket taken x) && b) (sym (taken-contains x));
    distinct = λ i lt. elim (Bool-cases (i == find_bucket h e)) [
      | inl same ↦ rw same (Distinct-without e (h.buckets (find_bucket h e)) own_bucket)
      | inr other ↦ rw other (v.distinct i lt)
    ];
  }

  pub taken-counted : suc taken.elem_cnt ≡ h.elem_cnt
  unfolding remove_elem contains
  taken-counted =
      let shrunk =
        total-put h.buckets (find_bucket h e) (without e (h.buckets (find_bucket h e))) h.bucket_cnt
          (find_bucket-lt h e v.positive) in
      omega (arith, shrunk, v.counted, length-without e (h.buckets (find_bucket h e)) old)

  pub taken_rest : (taken.hash ≡ h.hash) × (taken.less ≡ h.less)
  unfolding remove_elem
  taken_rest = (refl, refl)

pub IsKeyed-same : (h h' : Table) → h'.hash ≡ h.hash → h'.less ≡ h.less → IsKeyed h → IsKeyed h'
unfolding is_equal
IsKeyed-same h h' eh el k = record {
  hashed = λ a b q.
      ap (λ f. f a) eh
      ∙ k.hashed a b (ap (λ f. not (f a b) && not (f b a)) (sym el) ∙ q)
      ∙ sym (ap (λ f. f b) eh);
  irreflexive = λ a. ap (λ f. f a a) el ∙ k.irreflexive a;
}

-- What hash_insert changes, by its result.
abbrev pub Inserted : Table → ℕ → Table → Option ℕ → Type 0
Inserted h e h' none =
    ((x : ℕ) → contains h' x ≡ ((e == x) || contains h x)) × (h'.elem_cnt ≡ suc h.elem_cnt)
Inserted h e h' (some x) = ((x : ℕ) → contains h' x ≡ contains h x) × (h'.elem_cnt ≡ h.elem_cnt)

insert_runs :
    (memory : Bool) (h h' : Table) (e : ℕ) (r : Option ℕ)
    → hash_find h e ≡ r
    → rehash memory (elim r [ none ↦ insert_elem h (find_bucket h e) e | some _ ↦ h ]) ≡ some h'
    → hash_insert memory h e ≡ some (h', r)
unfolding hash_insert hash_find
insert_runs memory h h' e r f moved = rw (f, moved) refl

-- hash_insert always ends, whether or not memory is left: if no element of the table is equal to the new one, the
-- new one is added and the result is NULL; otherwise the result is such an element and the table contains
-- what it did. The table stays well formed.
pub hash_insert-Inserted :
    (memory : Bool) (h : Table) (e : ℕ)
    → IsValid h
    → IsKeyed h
    → (h' : Table) × (r : Option ℕ) × (hash_insert memory h e ≡ some (h', r))
      × Found h e r
      × Inserted h e h' r
      × IsValid h'
      × IsKeyed h'
hash_insert-Inserted memory h e v k = by_result (hash_find h e) refl
  where
    by_result :
        (r : Option ℕ)
        → hash_find h e ≡ r
        → (h' : Table) × (r : Option ℕ) × (hash_insert memory h e ≡ some (h', r))
          × Found h e r
          × Inserted h e h' r
          × IsValid h'
          × IsKeyed h'
    by_result (some x) f =
        let (h', runs, w) = rehash-Rehashed memory h v in
        (
          h',
          some x,
          insert_runs memory h h' e (some x) f runs,
          subst (Found h e) f (hash_find-Found h e v k),
          (w.kept, w.elem_cnt),
          w.valid,
          IsKeyed-same h h' w.hash w.less k,
        )
    by_result none f =
        let nothing : Found h e none = subst (Found h e) f (hash_find-Found h e v k) in
        let new : contains h e ≡ false = elim (Bool-cases (contains h e)) [
          | inl there ↦ absurd (ground (arith, equal_self h e k, nothing e there))
          | inr away ↦ away
        ] in
        let (h', runs, w) = rehash-Rehashed memory (added h e v new) (added-IsValid h e v new) in
        let (count, hash, less) = added_rest h e v new in
        (
          h',
          none,
          insert_runs memory h h' e none f runs,
          nothing,
          (λ x. w.kept x ∙ added-contains h e v new x, w.elem_cnt ∙ count),
          w.valid,
          IsKeyed-same h h' (w.hash ∙ hash) (w.less ∙ less) k,
        )
