-- ===== src/LinkedList/Search.antt =====
-- The loops over a list: list_size and list_insert_ordered of pintos/src/lib/kernel/list.c.
use mathlib.Core.Path.{subst}
use course_cs439_operating_s.Base.{
  ℕ, zero, suc, ◌+◌, ◌<◌, ◌≡◌, ◌≢◌, refl, sym, ap, ◌∙◌, inl, inr, Bool, true, false, some, List, [],
  ◌∷◌, ◌++◌, arith, ◌==◌, ==_refl, Bool-cases, All, All-append, length, ◌>>=◌,
}
use course_cs439_operating_s.LinkedList.{
  Links, LinkedList, is_head, is_interior, list_begin, list_next, list_end, list_insert, size_loop,
  list_size, place_loop, list_insert_ordered,
}
use course_cs439_operating_s.LinkedList.Nodes.{
  Linked, nodes, Holds, All-map, All-front, All-back, Distinct-apart,
}
use course_cs439_operating_s.LinkedList.Place.{first}
use course_cs439_operating_s.LinkedList.Refine.{list_insert-Holds}

next_runs :
    (s : Links) (x : ℕ) → x ≢ 0 → s.prev x ≢ 0 → s.next x ≢ 0 → list_next s x ≡ some (s.next x)
unfolding list_next is_head is_interior
next_runs s x hx hp hn =
    let ex : (x == 0) ≡ false = ground (arith, hx) in
    let ep : (s.prev x == 0) ≡ false = ground (arith, hp) in
    let en : (s.next x == 0) ≡ false = ground (arith, hn) in rw (ex, ep, en) refl

-- The elements `xs` from some place on to the tail `t`, with the address `p` before them.
record Ahead (s : Links) (p : ℕ) (xs : List ℕ) (t : ℕ) : Type 0 where
  linked : Linked s (p ∷ (xs ++ t ∷ []))
  valid : All (λ a. a ≢ 0) (p ∷ (xs ++ t ∷ []))
  apart : All (λ a. a ≢ t) xs

step :
    (s : Links) (p x : ℕ) (xs : List ℕ) (t : ℕ)
    → Ahead s p (x ∷ xs) t
    → (list_next s x ≡ some (first xs t)) × Ahead s x xs t
step s p x [] t a = (
  next_runs s x a.valid.1.0 (λ z. a.valid.0 (sym a.linked.1 ∙ z))
        (λ z. a.valid.1.1.0 (sym a.linked.2.0 ∙ z))
      ∙ ap some a.linked.2.0,
  record { linked = a.linked.2; valid = a.valid.1; apart = tt },
)
step s p x (y ∷ xs) t a = (
  next_runs s x a.valid.1.0 (λ z. a.valid.0 (sym a.linked.1 ∙ z))
        (λ z. a.valid.1.1.0 (sym a.linked.2.0 ∙ z))
      ∙ ap some a.linked.2.0,
  record { linked = a.linked.2; valid = a.valid.1; apart = a.apart.1 },
)

begins : (s : Links) (p : ℕ) (xs : List ℕ) (t : ℕ) → Ahead s p xs t → s.next p ≡ first xs t
begins s p [] t a = a.linked.0
begins s p (x ∷ xs) t a = a.linked.0

Holds-Ahead : (s : Links) (l : LinkedList) (xs : List ℕ) → Holds s l xs → Ahead s l.head xs l.tail
Holds-Ahead s l xs h = record {
  linked = h.linked;
  valid = h.valid;
  apart = (Distinct-apart xs (l.tail ∷ []) h.distinct.1).0;
}

size_stop : (fuel : ℕ) (s : Links) (t cnt : ℕ) → size_loop (suc fuel) s t t cnt ≡ some cnt
unfolding size_loop
size_stop fuel s t cnt = rw (size_loop, ==_refl t) refl

size_step :
    (fuel : ℕ) (s : Links) (e e' t cnt : ℕ)
    → e ≢ t
    → list_next s e ≡ some e'
    → size_loop (suc fuel) s e t cnt ≡ size_loop fuel s e' t (suc cnt)
unfolding size_loop
size_step fuel s e e' t cnt ne h =
    let b : (e == t) ≡ false = ground (arith, ne) in rw (size_loop, b, h) refl

size_loop-length :
    (fuel : ℕ) (s : Links) (p : ℕ) (xs : List ℕ) (t cnt : ℕ)
    → length xs < fuel
    → Ahead s p xs t
    → size_loop fuel s (first xs t) t cnt ≡ some (cnt + length xs)
unfolding size_loop
size_loop-length zero s p xs t cnt lt a = absurd (omega (arith, lt))
size_loop-length (suc fuel) s p [] t cnt lt a = size_stop fuel s t cnt ∙ (ap some (omega arith))
size_loop-length (suc fuel) s p (x ∷ xs) t cnt lt a =
    let (next, a') = step s p x xs t a in
    size_step fuel s x (first xs t) t cnt a.apart.0 next
    ∙ size_loop-length fuel s x xs t (suc cnt) (omega (arith, lt)) a'
    ∙ ap some (omega arith)

-- list_size of a list counts its elements, with one round more than there are.
pub list_size-length :
    (fuel : ℕ) (s : Links) (l : LinkedList) (xs : List ℕ)
    → Holds s l xs
    → length xs < fuel
    → list_size fuel s l ≡ some (length xs)
unfolding list_size list_begin list_end
list_size-length fuel s l xs h lt =
    let a = Holds-Ahead s l xs h in
    ap (λ e. size_loop fuel s e l.tail 0) (begins s l.head xs l.tail a)
    ∙ size_loop-length fuel s l.head xs l.tail 0 lt a
    ∙ ap some (omega arith)

-- No element is less than one before it.
abbrev pub IsSorted : (ℕ → ℕ → Bool) → List ℕ → Type 0
IsSorted less [] = Unit {0}
IsSorted less (x ∷ xs) = All (λ y. less y x ≡ false) xs × IsSorted less xs

abbrev Stops : (ℕ → ℕ → Bool) → ℕ → List ℕ → Type 0
Stops less e [] = Unit {0}
Stops less e (z ∷ zs) = less e z ≡ true

-- The place of a new element: behind all that it is not less than, up to the first that it is less than.
pub record Spot (less : ℕ → ℕ → Bool) (e : ℕ) (xs : List ℕ) : Type 0 where
  pub ahead : List ℕ
  pub behind : List ℕ
  pub split : xs ≡ ahead ++ behind
  pub passed : All (λ x. less e x ≡ false) ahead
  pub stops : Stops less e behind

place_end :
    (fuel : ℕ) (less : ℕ → ℕ → Bool) (s : Links) (elem t : ℕ)
    → place_loop (suc fuel) less s elem t t ≡ some t
unfolding place_loop
place_end fuel less s elem t = rw (place_loop, ==_refl t) refl

place_stop :
    (fuel : ℕ) (less : ℕ → ℕ → Bool) (s : Links) (elem e t : ℕ)
    → e ≢ t
    → less elem e ≡ true
    → place_loop (suc fuel) less s elem e t ≡ some e
unfolding place_loop
place_stop fuel less s elem e t ne h =
    let b : (e == t) ≡ false = ground (arith, ne) in rw (place_loop, b, h) refl

place_step :
    (fuel : ℕ) (less : ℕ → ℕ → Bool) (s : Links) (elem e e' t : ℕ)
    → e ≢ t
    → less elem e ≡ false
    → list_next s e ≡ some e'
    → place_loop (suc fuel) less s elem e t ≡ place_loop fuel less s elem e' t
unfolding place_loop
place_step fuel less s elem e e' t ne h k =
    let b : (e == t) ≡ false = ground (arith, ne) in rw (place_loop, b, h, k) refl

place_loop-Spot :
    (fuel : ℕ) (less : ℕ → ℕ → Bool) (s : Links) (elem p : ℕ) (xs : List ℕ) (t : ℕ)
    → length xs < fuel
    → Ahead s p xs t
    → (spot : Spot less elem xs) × (place_loop fuel less s elem (first xs t) t
        ≡ some (first spot.behind t))
unfolding place_loop
place_loop-Spot zero less s elem p xs t lt a = absurd (omega (arith, lt))
place_loop-Spot (suc fuel) less s elem p [] t lt a = (
  record { ahead = []; behind = []; split = refl; passed = tt; stops = tt },
  place_end fuel less s elem t,
)
place_loop-Spot (suc fuel) less s elem p (x ∷ xs) t lt a =
    let (next, a') = step s p x xs t a in
    elim (Bool-cases (less elem x)) [
      | inl below ↦ (
        record { ahead = []; behind = x ∷ xs; split = refl; passed = tt; stops = below },
        place_stop fuel less s elem x t a.apart.0 below,
      )
      | inr above ↦
          let (spot, found) = place_loop-Spot fuel less s elem x xs t (omega (arith, lt)) a' in
          (
            record {
              ahead = x ∷ spot.ahead;
              behind = spot.behind;
              split = ap (◌∷◌ x) spot.split;
              passed = (above, spot.passed);
              stops = spot.stops;
            },
            place_step fuel less s elem x (first xs t) t a.apart.0 above next ∙ found,
          )
    ]

module _ (less : ℕ → ℕ → Bool) (elem : ℕ)
    (order : (a b c : ℕ) → less a b ≡ true → less c b ≡ false → less c a ≡ false)
    (irreflexive : (a : ℕ) → less a a ≡ false) where
  behind-not_less :
      (zs : List ℕ) → Stops less elem zs → IsSorted less zs → All (λ z. less z elem ≡ false) zs
  behind-not_less [] h k = tt
  behind-not_less (z ∷ zs) h k =
      (order elem z z h (irreflexive z), All-map zs (λ y low. order elem z y h low) k.0)

  insert-IsSorted :
      (ys zs : List ℕ)
      → All (λ y. less elem y ≡ false) ys
      → Stops less elem zs
      → IsSorted less (ys ++ zs)
      → IsSorted less (ys ++ elem ∷ zs)
  insert-IsSorted [] zs h k d = (behind-not_less zs k d, d)
  insert-IsSorted (y ∷ ys) zs h k d = (
    All-append _ ys (elem ∷ zs) (All-front _ ys zs d.0) (h.0, All-back _ ys zs d.0),
    insert-IsSorted ys zs h.1 k d.1,
  )

  -- list_insert_ordered of a new element into a sorted list succeeds with one round more than there are
  -- elements: the element comes behind all that it is not less than and before the first that it is
  -- less than, and the list is sorted again.
  pub list_insert_ordered-Spot :
      (fuel : ℕ) (s : Links) (l : LinkedList) (xs : List ℕ)
      → Holds s l xs
      → length xs < fuel
      → elem ≢ 0
      → All (λ a. a ≢ elem) (nodes l xs)
      → IsSorted less xs
      → (spot : Spot less elem xs) × (s' : Links) × (list_insert_ordered fuel less s l elem
          ≡ some s')
        × Holds s' l (spot.ahead ++ elem ∷ spot.behind)
        × IsSorted less (spot.ahead ++ elem ∷ spot.behind)
  unfolding list_insert_ordered list_begin list_end
  list_insert_ordered-Spot fuel s l xs h lt he fresh sorted =
      let a = Holds-Ahead s l xs h in
      let (spot, found) = place_loop-Spot fuel less s elem l.head xs l.tail lt a in
      let (s', runs, h', _) =
        list_insert-Holds s l spot.ahead spot.behind elem (subst (Holds s l) spot.split h) he
          (subst (λ ys. All (λ b. b ≢ elem) (nodes l ys)) spot.split fresh) in
      (
        spot,
        s',
        ap (λ e. place_loop fuel less s elem e l.tail >>= λ b. list_insert s b elem)
              (begins s l.head xs l.tail a)
            ∙ ap (λ r. r >>= λ b. list_insert s b elem) found
            ∙ runs,
        h',
        insert-IsSorted spot.ahead spot.behind spot.passed spot.stops
            (subst (IsSorted less) spot.split sorted),
      )
