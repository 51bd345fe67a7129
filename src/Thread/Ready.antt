-- ===== src/Thread/Ready.antt =====
-- The ready list: ordered by falling priority, and a permutation under both insertions.
use course_cs439_operating_s.Base.{
  ℕ, suc, ◌≤◌, ◌<◌, ◌≡◌, refl, ap, inl, inr, Bool, false, List, [], ◌∷◌, ◌++◌, arith, ltb, leb,
  ◌==◌, if◌then◌else◌, Bool-cases, length, All,
}
use course_cs439_operating_s.Thread.{Tid, insert_unblocked, insert_yielded}

module _ (priority : Tid → ℕ) where
  -- No thread of the list has a priority above `p`.
  abbrev pub AtMost : ℕ → List Tid → Type 0
  AtMost p ts = All (λ t. priority t ≤ p) ts

  -- Priorities do not rise along the list.
  abbrev pub Descending : List Tid → Type 0
  Descending [] = Unit {0}
  Descending (t ∷ ts) = AtMost (priority t) ts × Descending ts

  -- No thread of the list has the priority `p` or more.
  abbrev pub Below : ℕ → List Tid → Type 0
  Below p ts = All (λ t. priority t < p) ts

  pub AtMost-mono : (p q : ℕ) (ts : List Tid) → p ≤ q → AtMost p ts → AtMost q ts
  AtMost-mono p q [] h a = tt
  AtMost-mono p q (t ∷ ts) h a = (omega arith, AtMost-mono p q ts h a.1)

  AtMost-Below : (p q : ℕ) (ts : List Tid) → p < q → AtMost p ts → Below q ts
  AtMost-Below p q [] h a = tt
  AtMost-Below p q (t ∷ ts) h a = (omega arith, AtMost-Below p q ts h a.1)

  -- A place for a new thread in the list.
  abbrev pub Place :
      (Tid → List Tid → Type 0) → (ℕ → ℕ → Type 0) → Tid → List Tid → List Tid → Type 0
  Place Back Front t ts out =
      (front : List Tid) × (back : List Tid) × (ts ≡ front ++ back)
      × (out ≡ front ++ t ∷ back)
      × All (λ u. Front (priority t) (priority u)) front
      × Back t back

  -- In a list of falling priority thread_unblock puts the thread behind those of higher priority and in
  -- front of all others, those of its own priority too, and moves no other thread.
  pub insert_unblocked-Place :
      (t : Tid) (ts : List Tid)
      → Descending ts
      → Place (λ t. AtMost (priority t)) ◌<◌ t ts (insert_unblocked priority t ts)
  unfolding insert_unblocked
  insert_unblocked-Place t [] d = ([], [], refl, refl, tt, tt)
  insert_unblocked-Place t (u ∷ ts) d = elim (Bool-cases (leb (priority u) (priority t))) [
    | inl le ↦
        let le' : priority u ≤ priority t = ground arith in
        ([], u ∷ ts, refl, rw le, tt, (le', AtMost-mono (priority u) (priority t) ts le' d.0))
    | inr gt ↦
        let (front, back, e, f, above, rest) = insert_unblocked-Place t ts d.1 in
        (u ∷ front, back, ap (◌∷◌ u) e, rw gt (ap (◌∷◌ u) f), (ground arith, above), rest)
  ]

  -- In a list of falling priority thread_yield puts the thread behind those of its own priority or higher
  -- and in front of the others, and moves no other thread.
  pub insert_yielded-Place :
      (t : Tid) (ts : List Tid)
      → Descending ts
      → Place (λ t. Below (priority t)) ◌≤◌ t ts (insert_yielded priority t ts)
  unfolding insert_yielded
  insert_yielded-Place t [] d = ([], [], refl, refl, tt, tt)
  insert_yielded-Place t (u ∷ ts) d = elim (Bool-cases (ltb (priority u) (priority t))) [
    | inl lt ↦
        let lt' : priority u < priority t = ground arith in
        ([], u ∷ ts, refl, rw lt, tt, (lt', AtMost-Below (priority u) (priority t) ts lt' d.0))
    | inr ge ↦
        let (front, back, e, f, above, rest) = insert_yielded-Place t ts d.1 in
        (u ∷ front, back, ap (◌∷◌ u) e, rw ge (ap (◌∷◌ u) f), (ground arith, above), rest)
  ]

-- Both insertions put the thread at some place.
pub insert_by : (Tid → Bool) → Tid → List Tid → List Tid
insert_by here t [] = t ∷ []
insert_by here t (u ∷ ts) = if here u then t ∷ u ∷ ts else u ∷ insert_by here t ts

insert_unblocked-by :
    (priority : Tid → ℕ) (t : Tid) (ts : List Tid)
    → insert_unblocked priority t ts ≡ insert_by (λ u. leb (priority u) (priority t)) t ts
unfolding insert_unblocked insert_by
insert_unblocked-by priority t [] = refl
insert_unblocked-by priority t (u ∷ ts) = rw (insert_unblocked-by priority t ts)

insert_yielded-by :
    (priority : Tid → ℕ) (t : Tid) (ts : List Tid)
    → insert_yielded priority t ts ≡ insert_by (λ u. ltb (priority u) (priority t)) t ts
unfolding insert_yielded insert_by
insert_yielded-by priority t [] = refl
insert_yielded-by priority t (u ∷ ts) = rw (insert_yielded-by priority t ts)

All-insert_by :
    (P : Tid → Type 0) (here : Tid → Bool) (t : Tid) (ts : List Tid)
    → P t
    → All P ts
    → All P (insert_by here t ts)
unfolding insert_by
All-insert_by P here t [] p h = (p, tt)
All-insert_by P here t (u ∷ ts) p h = elim (Bool-cases (here u)) [
  | inl e ↦ rw e (p, h)
  | inr e ↦ rw e (h.0, All-insert_by P here t ts p h.1)
]

length-insert_by :
    (here : Tid → Bool) (t : Tid) (ts : List Tid) → length (insert_by here t ts) ≡ suc (length ts)
unfolding insert_by
length-insert_by here t [] = refl
length-insert_by here t (u ∷ ts) = ground (arith, length-insert_by here t ts)

abbrev pub Absent : Tid → List Tid → Type 0
Absent t ts = All (λ u. (u == t) ≡ false) ts

abbrev pub Distinct : List Tid → Type 0
Distinct [] = Unit {0}
Distinct (t ∷ ts) = Absent t ts × Distinct ts

Distinct-insert_by :
    (here : Tid → Bool) (t : Tid) (ts : List Tid)
    → Absent t ts
    → Distinct ts
    → Distinct (insert_by here t ts)
unfolding insert_by
Distinct-insert_by here t [] a d = (tt, tt)
Distinct-insert_by here t (u ∷ ts) a d = elim (Bool-cases (here u)) [
  | inl e ↦ rw e (a, d)
  | inr e ↦ rw e (
    All-insert_by (λ v. (v == u) ≡ false) here t ts (ground arith) d.0,
    Distinct-insert_by here t ts a.1 d.1,
  )
]

-- What both insertions keep, whatever the order.
pub record Inserted (t : Tid) (ts out : List Tid) : Type 1 where
  pub all : (P : Tid → Type 0) → P t → All P ts → All P out
  pub counted : length out ≡ suc (length ts)
  pub distinct : Absent t ts → Distinct ts → Distinct out

Inserted-by : (here : Tid → Bool) (t : Tid) (ts : List Tid) → Inserted t ts (insert_by here t ts)
Inserted-by here t ts = record {
  all = λ P. All-insert_by P here t ts;
  counted = length-insert_by here t ts;
  distinct = Distinct-insert_by here t ts;
}

pub insert_unblocked-Inserted :
    (priority : Tid → ℕ) (t : Tid) (ts : List Tid) → Inserted t ts (insert_unblocked priority t ts)
insert_unblocked-Inserted priority t ts = rw insert_unblocked-by (Inserted-by _ t ts)

pub insert_yielded-Inserted :
    (priority : Tid → ℕ) (t : Tid) (ts : List Tid) → Inserted t ts (insert_yielded priority t ts)
insert_yielded-Inserted priority t ts = rw insert_yielded-by (Inserted-by _ t ts)

-- The ready list stays ordered.
module _ (priority : Tid → ℕ) where
  pub insert_unblocked-Descending :
      (t : Tid) (ts : List Tid)
      → Descending priority ts
      → Descending priority (insert_unblocked priority t ts)
  unfolding insert_unblocked
  insert_unblocked-Descending t [] d = (tt, tt)
  insert_unblocked-Descending t (u ∷ ts) d = ground (
    arith,
    AtMost-mono priority (priority u) (priority t) ts,
    (insert_unblocked-Inserted priority t ts).all (λ v. priority v ≤ priority u),
    insert_unblocked-Descending t ts d.1,
  )

  pub insert_yielded-Descending :
      (t : Tid) (ts : List Tid)
      → Descending priority ts
      → Descending priority (insert_yielded priority t ts)
  unfolding insert_yielded
  insert_yielded-Descending t [] d = (tt, tt)
  insert_yielded-Descending t (u ∷ ts) d = ground (
    arith,
    AtMost-mono priority (priority u) (priority t) ts,
    (insert_yielded-Inserted priority t ts).all (λ v. priority v ≤ priority u),
    insert_yielded-Descending t ts d.1,
  )
