-- ===== src/Stdlib/Search.antt =====
-- binary_search in pintos/src/lib/stdlib.c.
use Prim.Native.Nat.{Ordering}
use native.Mathlib.Decide.{dec_lt}
use course_cs439_operating_s.Base.{
  ℕ, zero, suc, ◌+◌, ◌-◌, ◌/◌, ◌≤◌, ◌<◌, true, false, Option, none, some, ltb, ◌≡◌, ◌≢◌, ◌⊎◌, inl,
  inr, refl, ◌∙◌, arith,
}
use course_cs439_operating_s.Stdlib.{search_loop, binary_search}

Ordering-cases : (x : Ordering) → (x ≡ Ordering.lt) ⊎ (x ≡ Ordering.eq) ⊎ (x ≡ Ordering.gt)
Ordering-cases Ordering.lt = inl refl
Ordering-cases Ordering.eq = inr (inl refl)
Ordering-cases Ordering.gt = inr (inr refl)

lt-ne-eq : (x : Ordering) → x ≡ Ordering.lt → x ≢ Ordering.eq
lt-ne-eq x e f = cc

gt-ne-eq : (x : Ordering) → x ≡ Ordering.gt → x ≢ Ordering.eq
gt-ne-eq x e f = cc

module _ {ℓ κ} {K : Type κ} {A : Type ℓ} (compare : K → A → Ordering) (key : K)
    (array : ℕ → A) where
  -- Along the array the key is above the elements, then equal to them, then below.
  abbrev pub IsPartitioned : ℕ → Type 0
  IsPartitioned cnt =
      (i j : ℕ)
      → i ≤ j
      → j < cnt
      → (compare key (array i) ≡ Ordering.lt → compare key (array j) ≡ Ordering.lt)
        × (compare key (array j) ≡ Ordering.gt → compare key (array i) ≡ Ordering.gt)

  -- A match, or none if there is none.
  abbrev pub IsMatch : ℕ → Option ℕ → Type 0
  IsMatch cnt none = (i : ℕ) → i < cnt → compare key (array i) ≢ Ordering.eq
  IsMatch cnt (some i) = (i < cnt) × (compare key (array i) ≡ Ordering.eq)

  search_end :
      (fuel first last : ℕ)
      → last ≤ first
      → search_loop compare (suc fuel) key array first last ≡ some none
  unfolding search_loop
  search_end fuel first last h =
      let e : ltb first last ≡ false = ground arith in rw (search_loop, e) refl

  module _ (fuel first last : ℕ) (h : first < last) where
    abbrev middle : ℕ
    middle = first + (last - first) / 2

    going : ltb first last ≡ true
    going = ground arith

    search_lt :
        compare key (array middle) ≡ Ordering.lt
        → search_loop compare (suc fuel) key array first last
          ≡ search_loop compare fuel key array first middle
    unfolding search_loop
    search_lt e = rw (search_loop, going, e) refl

    search_gt :
        compare key (array middle) ≡ Ordering.gt
        → search_loop compare (suc fuel) key array first last
          ≡ search_loop compare fuel key array (suc middle) last
    unfolding search_loop
    search_gt e = rw (search_loop, going, e) refl

    search_eq :
        compare key (array middle) ≡ Ordering.eq
        → search_loop compare (suc fuel) key array first last ≡ some (some middle)
    unfolding search_loop
    search_eq e = rw (search_loop, going, e) refl

  search_loop-IsMatch :
      (fuel first last cnt : ℕ)
      → last < fuel + first
      → first ≤ last
      → last ≤ cnt
      → IsPartitioned cnt
      → ((i : ℕ) → i < first → i < cnt → compare key (array i) ≡ Ordering.gt)
      → ((i : ℕ) → last ≤ i → i < cnt → compare key (array i) ≡ Ordering.lt)
      → (r : Option ℕ) × (search_loop compare fuel key array first last ≡ some r) × IsMatch cnt r
  search_loop-IsMatch zero first last cnt enough le inside p above below = absurd (omega arith)
  search_loop-IsMatch (suc fuel) first last cnt enough le inside p above below =
      elim (dec_lt first last) [
        | no done ↦ (
          none,
          search_end fuel first last (omega arith),
          λ i h. elim (dec_lt i first) [
            | yes before ↦ gt-ne-eq _ (above i before h)
            | no after ↦ lt-ne-eq _ (below i (omega arith) h)
          ],
        )
        | yes h ↦
            let m = middle fuel first last h in
            elim (Ordering-cases (compare key (array m))) [
              | inl e ↦
                  let (r, es, found) =
                    search_loop-IsMatch fuel first m cnt (omega arith) (omega arith) (omega arith) p
                      above (λ i lo hi. (p m i lo hi).0 e) in
                  (r, search_lt fuel first last h e ∙ es, found)
              | inr (inl e) ↦ (some m, search_eq fuel first last h e, (omega arith, e))
              | inr (inr e) ↦
                  let (r, es, found) =
                    search_loop-IsMatch fuel (suc m) last cnt (omega arith) (omega arith) inside p
                      (λ i lo hi. (p i m (omega arith) (omega arith)).1 e) below in
                  (r, search_gt fuel first last h e ∙ es, found)
            ]
      ]

  -- In an array ordered for the key, binary_search ends within its rounds and returns an element that matches, or
  -- NULL if none does.
  pub binary_search-IsMatch :
      (cnt : ℕ)
      → IsPartitioned cnt
      → (r : Option ℕ) × (binary_search compare key array cnt ≡ some r) × IsMatch cnt r
  unfolding binary_search
  binary_search-IsMatch cnt p =
      search_loop-IsMatch (suc cnt) 0 cnt cnt (omega arith) (omega arith) (omega arith) p
        (λ i lo hi. absurd (omega arith)) (λ i lo hi. absurd (omega arith))

  -- An element within the array that matches, or NULL.
  abbrev pub MayMatch : ℕ → Option ℕ → Type 0
  MayMatch cnt none = Unit
  MayMatch cnt (some i) = (i < cnt) × (compare key (array i) ≡ Ordering.eq)

  search_loop-MayMatch :
      (fuel first last cnt : ℕ)
      → last < fuel + first
      → first ≤ last
      → last ≤ cnt
      → (r : Option ℕ) × (search_loop compare fuel key array first last ≡ some r) × MayMatch cnt r
  search_loop-MayMatch zero first last cnt enough le inside = absurd (omega arith)
  search_loop-MayMatch (suc fuel) first last cnt enough le inside = elim (dec_lt first last) [
    | no done ↦ (none, search_end fuel first last (omega arith), tt)
    | yes h ↦
        let m = middle fuel first last h in
        elim (Ordering-cases (compare key (array m))) [
          | inl e ↦
              let (r, es, found) =
                search_loop-MayMatch fuel first m cnt (omega arith) (omega arith) (omega arith) in
              (r, search_lt fuel first last h e ∙ es, found)
          | inr (inl e) ↦ (some m, search_eq fuel first last h e, (omega arith, e))
          | inr (inr e) ↦
              let (r, es, found) =
                search_loop-MayMatch fuel (suc m) last cnt (omega arith) (omega arith) inside in
              (r, search_gt fuel first last h e ∙ es, found)
        ]
  ]

  -- binary_search ends within its rounds whatever the array holds and `compare` returns, and an element that it
  -- returns is within the array and matches.
  pub binary_search-MayMatch :
      (cnt : ℕ) → (r : Option ℕ) × (binary_search compare key array cnt ≡ some r) × MayMatch cnt r
  unfolding binary_search
  binary_search-MayMatch cnt =
      search_loop-MayMatch (suc cnt) 0 cnt cnt (omega arith) (omega arith) (omega arith)
