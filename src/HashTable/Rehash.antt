-- ===== src/HashTable/Rehash.antt =====
-- rehash of pintos/src/lib/kernel/hash.c moves the elements of a table to other buckets and no more.
use course_cs439_operating_s.Base.{
  ℕ, zero, suc, ◌+◌, ◌<◌, ◌≡◌, refl, sym, ap, ◌∙◌, inl, inr, Bool, true, false, ◌&&◌, ◌||◌, not,
  some, List, [], ◌∷◌, arith, ltb, ◌==◌, Bool-cases, ==_refl, length,
}
use course_cs439_operating_s.HashTable.{
  Table, put, find_bucket, move_bucket, move_loop, wanted_cnt, rehash,
}
use course_cs439_operating_s.HashTable.Buckets.{
  has, contains, total, Distinct, IsValid, find_bucket-lt, total-put,
}
use course_cs439_operating_s.HashTable.Rounds.{round_loop_ends}

-- The buckets hold the elements of `members`, each in its place, `count` of them.
record Moved (h : Table) (members : ℕ → Bool) (count : ℕ) : Type 0 where
  holds : (i x : ℕ) → has x (h.buckets i) ≡ ((i == find_bucket h x) && members x)
  distinct : (i : ℕ) → Distinct (h.buckets i)
  counted : total h.buckets h.bucket_cnt ≡ count

-- All but the buckets themselves.
record Same (h h' : Table) : Type 0 where
  elem_cnt : h'.elem_cnt ≡ h.elem_cnt
  bucket_cnt : h'.bucket_cnt ≡ h.bucket_cnt
  hash : h'.hash ≡ h.hash
  less : h'.less ≡ h.less

Same-trans : {a b c : Table} → Same a b → Same b c → Same a c
Same-trans f g = record {
  elem_cnt = g.elem_cnt ∙ f.elem_cnt;
  bucket_cnt = g.bucket_cnt ∙ f.bucket_cnt;
  hash = g.hash ∙ f.hash;
  less = g.less ∙ f.less;
}

Moved-ext :
    {h : Table} {p q : ℕ → Bool} {m n : ℕ}
    → ((x : ℕ) → p x ≡ q x)
    → m ≡ n
    → Moved h p m
    → Moved h q n
Moved-ext {h} e c w = record {
  holds = λ i x. w.holds i x ∙ ap (λ b. (i == find_bucket h x) && b) (e x);
  distinct = w.distinct;
  counted = w.counted ∙ c;
}

abbrev pushed : Table → ℕ → Table
pushed h e = record h {
  buckets = put h.buckets (find_bucket h e) (e ∷ h.buckets (find_bucket h e));
}

pushed-holds :
    (h : Table) (members : ℕ → Bool) (n e : ℕ)
    → Moved h members n
    → (i x : ℕ)
    → has x ((pushed h e).buckets i) ≡ ((i == find_bucket h x) && ((e == x) || members x))
unfolding has
pushed-holds h members n e w i x = elim (Bool-cases (e == x)) [
  | inl same ↦
      let eq : e ≡ x = ground arith in
      ground (arith, w.holds i x, ap (find_bucket h) eq, w.holds (find_bucket h e) x)
  | inr apart ↦ ground (arith, w.holds i x, apart, w.holds (find_bucket h e) x)
]

pushed-Moved :
    (h : Table) (members : ℕ → Bool) (n e : ℕ)
    → 0 < h.bucket_cnt
    → members e ≡ false
    → Moved h members n
    → Moved (pushed h e) (λ x. (e == x) || members x) (suc n)
unfolding find_bucket
pushed-Moved h members n e p new w = record {
  holds = pushed-holds h members n e w;
  distinct = λ i. elim (Bool-cases (i == find_bucket h e)) [
    | inl same ↦
        rw same (ground (arith, w.holds (find_bucket h e) e, new), w.distinct (find_bucket h e))
    | inr other ↦ rw other (w.distinct i)
  ];
  counted =
      let grown =
        total-put h.buckets (find_bucket h e) (e ∷ h.buckets (find_bucket h e)) h.bucket_cnt
          (find_bucket-lt h e p) in
      omega (arith, grown, w.counted);
}

move_bucket-Moved :
    (h : Table) (members : ℕ → Bool) (n : ℕ) (xs : List ℕ)
    → 0 < h.bucket_cnt
    → Distinct xs
    → ((x : ℕ) → has x xs ≡ true → members x ≡ false)
    → Moved h members n
    → Moved (move_bucket h xs) (λ x. has x xs || members x) (n + length xs)
      × Same h (move_bucket h xs)
unfolding move_bucket has
move_bucket-Moved h members n [] p d new w = (
  Moved-ext (λ x. refl) (omega arith) w,
  record { elem_cnt = refl; bucket_cnt = refl; hash = refl; less = refl },
)
move_bucket-Moved h members n (e ∷ xs) p d new w =
    let w1 = pushed-Moved h members n e p (new e (ground (arith, ==_refl e))) w in
    let apart : (x : ℕ) → has x xs ≡ true → ((e == x) || members x) ≡ false = λ x m.
      elim (Bool-cases (e == x)) [
        | inl same ↦
            let eq : e ≡ x = ground arith in absurd (ground (arith, ap (λ y. has y xs) eq, d.0, m))
        | inr other ↦ rw other (new x (ground (arith, m)))
      ] in
    let (w2, f) =
      move_bucket-Moved (pushed h e) (λ x. (e == x) || members x) (suc n) xs p d.1 apart w1 in
    (
      Moved-ext (λ x. ground arith) (omega arith) w2,
      record { elem_cnt = f.elem_cnt; bucket_cnt = f.bucket_cnt; hash = f.hash; less = f.less },
    )

-- The old buckets: `place` is the index of each element, `members` what they hold.
module _ (old : ℕ → List ℕ) (place : ℕ → ℕ) (members : ℕ → Bool) where
  move_loop-Moved :
      (cnt i : ℕ) (h : Table)
      → 0 < h.bucket_cnt
      → ((j x : ℕ) → j < i + cnt → has x (old j) ≡ ((j == place x) && members x))
      → ((j : ℕ) → j < i + cnt → Distinct (old j))
      → Moved h (λ x. ltb (place x) i && members x) (total old i)
      → Moved
          (move_loop cnt i old h)
          (λ x. ltb (place x) (i + cnt) && members x)
          (total old (i + cnt))
        × Same h (move_loop cnt i old h)
  unfolding move_loop total
  move_loop-Moved zero i h p placed d w =
      let e : i ≡ i + 0 = omega arith in
      (
        Moved-ext (λ x. ap (λ j. ltb (place x) j && members x) e) (ap (total old) e) w,
        record { elem_cnt = refl; bucket_cnt = refl; hash = refl; less = refl },
      )
  move_loop-Moved (suc cnt) i h p placed d w =
      let (w1, f1) =
        move_bucket-Moved h (λ x. ltb (place x) i && members x) (total old i) (old i) p
          (d i (omega arith)) (λ x m. ground (arith, placed i x, m)) w in
      let (w2, f2) =
        move_loop-Moved cnt (suc i) (move_bucket h (old i)) (omega (arith, f1.bucket_cnt, p))
          (λ j x lt. placed j x (omega (arith, lt))) (λ j lt. d j (omega (arith, lt)))
          (Moved-ext (λ x. ground (arith, placed i x)) refl w1) in
      let e : suc i + cnt ≡ i + suc cnt = omega arith in
      (
        Moved-ext (λ x. ap (λ j. ltb (place x) j && members x) e) (ap (total old) e) w2,
        Same-trans f1 f2,
      )

total-empty : (n : ℕ) → total (λ i. []) n ≡ 0
unfolding total
total-empty zero = refl
total-empty (suc n) = omega (arith, total-empty n)

abbrev emptied : Table → ℕ → Table
emptied h n = record h { bucket_cnt = n; buckets = λ i. [] }

emptied-Moved :
    (h : Table) (place : ℕ → ℕ) (members : ℕ → Bool) (n : ℕ)
    → Moved (emptied h n) (λ x. ltb (place x) 0 && members x) 0
unfolding has
emptied-Moved h place members n = record {
  holds = λ i x. ground arith;
  distinct = λ i. tt;
  counted = total-empty n;
}

-- What rehash keeps.
pub record Rehashed (h h' : Table) : Type 0 where
  pub valid : IsValid h'
  pub kept : (x : ℕ) → contains h' x ≡ contains h x
  pub elem_cnt : h'.elem_cnt ≡ h.elem_cnt
  pub hash : h'.hash ≡ h.hash
  pub less : h'.less ≡ h.less

rehashed :
    (h : Table) (n : ℕ)
    → 0 < n
    → IsValid h
    → Rehashed h (move_loop h.bucket_cnt 0 h.buckets (emptied h n))
unfolding contains total
rehashed h n p v =
    let h' = move_loop h.bucket_cnt 0 h.buckets (emptied h n) in
    let (w, f) =
      move_loop-Moved h.buckets (find_bucket h) (contains h) h.bucket_cnt 0 (emptied h n) p
        (λ j x lt. v.placed j x (omega (arith, lt))) (λ j lt. v.distinct j (omega (arith, lt)))
        (emptied-Moved h (find_bucket h) (contains h) n) in
    let kept : (x : ℕ) → contains h' x ≡ contains h x = λ x.
      w.holds (find_bucket h' x) x
      ∙ ground (arith, ==_refl (find_bucket h' x), find_bucket-lt h x v.positive) in
    record {
      valid = record {
        positive = omega (arith, f.bucket_cnt, p);
        counted =
            let e : h.bucket_cnt ≡ 0 + h.bucket_cnt = omega arith in
            f.elem_cnt ∙ v.counted ∙ ap (total h.buckets) e ∙ sym w.counted;
        placed = λ i x lt.
            w.holds i x
            ∙ ap (λ b. (i == find_bucket h' x) && b)
                (let e : (ltb (find_bucket h x) (0 + h.bucket_cnt) && contains h x)
                      ≡ contains h' x =
                    ground (arith, kept x, find_bucket-lt h x v.positive) in
                  e);
        distinct = λ i lt. w.distinct i;
      };
      kept = kept;
      elem_cnt = f.elem_cnt;
      hash = f.hash;
      less = f.less;
    }

-- rehash always ends, whether or not memory is left: the table is well formed again and contains the same
-- elements.
pub rehash-Rehashed :
    (memory : Bool) (h : Table)
    → IsValid h
    → (h' : Table) × (rehash memory h ≡ some h') × Rehashed h h'
unfolding rehash
rehash-Rehashed memory h v =
    let (n, rounded, p) =
      round_loop_ends (wanted_cnt h) (wanted_cnt h) (omega arith) (ground arith) in
    elim (Bool-cases ((n == h.bucket_cnt) || not memory)) [
      | inl stays ↦ (
        h,
        rw (rounded, stays) refl,
        record { valid = v; kept = λ x. refl; elem_cnt = refl; hash = refl; less = refl },
      )
      | inr moves ↦ (
        move_loop h.bucket_cnt 0 h.buckets (emptied h n),
        rw (rounded, moves) refl,
        rehashed h n p v,
      )
    ]
