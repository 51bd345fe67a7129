-- ===== src/HashTable/Buckets.antt =====
-- When a table of pintos/src/lib/kernel/hash.c is well formed, and what it contains.
use course_cs439_operating_s.Base.{
  ℕ, zero, suc, ◌+◌, ◌-◌, ◌<◌, ◌≤◌, ◌≡◌, refl, sym, ap, ◌∙◌, inl, inr, Bool, true, false, ◌&&◌,
  ◌||◌, not, none, some, List, [], ◌∷◌, arith, ◌==◌, Bool-cases, ==_refl, length,
}
use course_cs439_operating_s.Bitmap.Bits.{bit_and-le}
use course_cs439_operating_s.HashTable.{Table, put, find_bucket, is_equal, find_elem, without}

unfoldable pub has : ℕ → List ℕ → Bool
has x [] = false
has x (y ∷ ys) = (y == x) || has x ys

unfoldable pub contains : Table → ℕ → Bool
contains h x = has x (h.buckets (find_bucket h x))

-- The elements of the first `n` buckets.
unfoldable pub total : (ℕ → List ℕ) → ℕ → ℕ
total buckets zero = 0
total buckets (suc n) = total buckets n + length (buckets n)

abbrev pub Distinct : List ℕ → Type 0
Distinct [] = Unit {0}
Distinct (x ∷ xs) = (has x xs ≡ false) × Distinct xs

-- Each element stands once in its bucket and nowhere else, and all are counted.
pub record IsValid (h : Table) : Type 0 where
  pub positive : 0 < h.bucket_cnt
  pub counted : h.elem_cnt ≡ total h.buckets h.bucket_cnt
  pub placed :
      (i x : ℕ) → i < h.bucket_cnt → has x (h.buckets i) ≡ ((i == find_bucket h x) && contains h x)
  pub distinct : (i : ℕ) → i < h.bucket_cnt → Distinct (h.buckets i)

-- What a table asks of its functions: equal elements have one hash, and no element is less than itself.
pub record IsKeyed (h : Table) : Type 0 where
  pub hashed : (a b : ℕ) → is_equal h a b ≡ true → h.hash a ≡ h.hash b
  pub irreflexive : (a : ℕ) → h.less a a ≡ false

pub find_bucket-lt : (h : Table) (x : ℕ) → 0 < h.bucket_cnt → find_bucket h x < h.bucket_cnt
unfolding find_bucket
find_bucket-lt h x p = omega (arith, bit_and-le (h.hash x) (h.bucket_cnt - 1))

pub put_self : (f : ℕ → List ℕ) (i : ℕ) (b : List ℕ) → put f i b i ≡ b
put_self f i b = rw (==_refl i) refl

pub put_other : (f : ℕ → List ℕ) (i j : ℕ) (b : List ℕ) → (j == i) ≡ false → put f i b j ≡ f j
put_other f i j b e = rw e refl

total_above :
    (f : ℕ → List ℕ) (i : ℕ) (b : List ℕ) (n : ℕ) → n ≤ i → total (put f i b) n ≡ total f n
unfolding total
total_above f i b zero h = refl
total_above f i b (suc n) h =
    let e : (n == i) ≡ false = ground (arith, h) in
    let ih = total_above f i b n (omega (arith, h)) in
    let same = ap length (put_other f i n b e) in omega (arith, ih, same)

-- One bucket changes, and the total with it.
pub total-put :
    (f : ℕ → List ℕ) (i : ℕ) (b : List ℕ) (n : ℕ)
    → i < n
    → total (put f i b) n + length (f i) ≡ total f n + length b
unfolding total
total-put f i b zero h = absurd (omega (arith, h))
total-put f i b (suc n) h = elim (Bool-cases (n == i)) [
  | inl same ↦
      let e : n ≡ i = ground arith in
      let ends : length (put f i b n) ≡ length b = rw same refl in
      omega (arith, total_above f i b n (omega (arith, e)), ends, ap (λ j. length (f j)) e)
  | inr other ↦
      let lt : i < n = ground (arith, h) in
      omega (arith, total-put f i b n lt, ap length (put_other f i n b other))
]

-- A search meets an equal element, or there is none.
pub find_elem-some :
    (h : Table) (xs : List ℕ) (e x : ℕ)
    → find_elem h xs e ≡ some x
    → (has x xs ≡ true) × (is_equal h x e ≡ true)
unfolding find_elem has
find_elem-some h [] e x f = absurd cc
find_elem-some h (y ∷ ys) e x f = ground (arith, find_elem-some h ys e x)

pub find_elem-none :
    (h : Table) (xs : List ℕ) (e x : ℕ)
    → find_elem h xs e ≡ none
    → has x xs ≡ true
    → is_equal h x e ≡ false
unfolding find_elem has
find_elem-none h [] e x f m = absurd cc
find_elem-none h (y ∷ ys) e x f m = elim (Bool-cases (is_equal h y e)) [
  | inl found ↦ absurd (ground (arith, found, f))
  | inr other ↦ elim (Bool-cases (y == x)) [
    | inl same ↦ let eq : y ≡ x = ground arith in rw (sym eq) other
    | inr apart ↦ find_elem-none h ys e x (ground (arith, other, f)) (ground (arith, apart, m))
  ]
]

pub has-without :
    (x e : ℕ) (xs : List ℕ) → Distinct xs → has x (without e xs) ≡ (not (e == x) && has x xs)
unfolding has without
has-without x e [] d = ground arith
has-without x e (y ∷ ys) d = ground (arith, has-without x e ys d.1, d.0)

pub Distinct-without : (e : ℕ) (xs : List ℕ) → Distinct xs → Distinct (without e xs)
unfolding without
Distinct-without e [] d = tt
Distinct-without e (y ∷ ys) d = elim (Bool-cases (y == e)) [
  | inl same ↦ rw same d.1
  | inr apart ↦ rw apart (has-without y e ys d.1 ∙ ground (arith, d.0), Distinct-without e ys d.1)
]

pub length-without :
    (e : ℕ) (xs : List ℕ) → has e xs ≡ true → suc (length (without e xs)) ≡ length xs
unfolding has without
length-without e [] h = absurd cc
length-without e (y ∷ ys) h = ground (arith, length-without e ys)
