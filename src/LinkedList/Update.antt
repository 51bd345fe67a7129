-- ===== src/LinkedList/Update.antt =====
-- The assignments of list_insert and list_remove in pintos/src/lib/kernel/list.c, on the addresses around
-- the place of the change.
use mathlib.Core.List.{append_assoc}
use mathlib.Core.Path.{subst}
use course_cs439_operating_s.Base.{
  ℕ, ◌≡◌, ◌≢◌, refl, sym, ◌∙◌, false, some, List, [], ◌∷◌, ◌++◌, arith, ◌==◌, ==_refl, All, ◌>>◌,
  assert, Bool, true, not, ◌&&◌, ◌||◌,
}
use course_cs439_operating_s.LinkedList.{
  Links, put, set_next, set_prev, is_interior, is_tail, list_insert, list_remove,
}
use course_cs439_operating_s.LinkedList.Nodes.{
  Linked, Distinct, All-map, Distinct-back, Distinct-apart, Linked-front, Linked-back, Linked-join,
  Linked-front_frame, Linked-back_frame,
}

pub put_at : (f : ℕ → ℕ) (a v : ℕ) → put f a v a ≡ v
put_at f a v = rw (==_refl a) refl

pub put_off : (f : ℕ → ℕ) (a v b : ℕ) → b ≢ a → put f a v b ≡ f b
put_off f a v b ne = let e : (b == a) ≡ false = ground (arith, ne) in rw e refl

-- `y` comes to follow `x`.
abbrev join : Links → ℕ → ℕ → Links
join s x y = record { prev = put s.prev y x; next = put s.next x y }

-- What comes before a place, and from there on.
module _ (s : Links) (xs : List ℕ) (x y : ℕ) (ys : List ℕ) (d : Distinct (xs ++ x ∷ y ∷ ys)) where
  front_apart : All (λ z. z ≢ y) (xs ++ x ∷ [])
  front_apart =
      (Distinct-apart (xs ++ x ∷ []) (y ∷ ys)
        (subst Distinct (sym (append_assoc xs (x ∷ []) (y ∷ ys))) d)).0

  front_join : Linked s (xs ++ x ∷ []) → Linked (join s x y) (xs ++ x ∷ [])
  front_join h =
      Linked-front_frame s (join s x y) xs x
        (All-map xs (λ a ne. put_off s.next x y a ne) (Distinct-apart xs (x ∷ y ∷ ys) d).0)
        (All-map (xs ++ x ∷ []) (λ a ne. put_off s.prev y x a ne) front_apart) h

  back_join : Linked s (y ∷ ys) → Linked (join s x y) (y ∷ ys)
  back_join h =
      let (nx, (ny, _)) = Distinct-back xs (x ∷ y ∷ ys) d in
      Linked-back_frame s (join s x y) y ys (All-map (y ∷ ys) (λ a ne. put_off s.next x y a ne) nx)
        (All-map ys (λ a ne. put_off s.prev y x a ne) ny) h

  pub join-Linked :
      Linked s (xs ++ x ∷ []) → Linked s (y ∷ ys) → Linked (join s x y) (xs ++ x ∷ y ∷ ys)
  join-Linked h k =
      Linked-join (join s x y) xs x (y ∷ ys) (front_join h)
        (put_at s.next x y, put_at s.prev y x, back_join k)

Linked-ext :
    (s s' : Links) (xs : List ℕ)
    → ((a : ℕ) → s'.next a ≡ s.next a)
    → ((a : ℕ) → s'.prev a ≡ s.prev a)
    → Linked s xs
    → Linked s' xs
Linked-ext s s' [] n p h = tt
Linked-ext s s' (x ∷ []) n p h = tt
Linked-ext s s' (x ∷ y ∷ r) n p h = (n x ∙ h.0, p y ∙ h.1, Linked-ext s s' (y ∷ r) n p h.2)

-- The links after list_insert of `e` before `y`.
abbrev pub inserted : Links → (y e : ℕ) → Links
inserted s y e = record {
  prev = put (put s.prev e (s.prev y)) y e;
  next = put (put s.next e y) (put s.prev e (s.prev y) y) e;
}

pub insert_runs :
    (s : Links) (y e : ℕ) → y ≢ 0 → s.prev y ≢ 0 → e ≢ 0 → list_insert s y e ≡ some (inserted s y e)
unfolding list_insert set_next set_prev is_interior is_tail
insert_runs s y e hy hp he =
    let ey : (y == 0) ≡ false = ground (arith, hy) in
    let ep : (s.prev y == 0) ≡ false = ground (arith, hp) in
    let ee : (e == 0) ≡ false = ground (arith, he) in either (s.next y == 0) ey ep ee
  where
    either :
        (b : Bool)
        → (y == 0) ≡ false
        → (s.prev y == 0) ≡ false
        → (e == 0) ≡ false
        → (do
          assert (
              (not (y == 0) && not (s.prev y == 0) && not b)
              || (not (y == 0) && not (s.prev y == 0) && b))
          assert (not (e == 0))
          some (inserted s y e))
          ≡ some (inserted s y e)
    either true ey ep ee = rw (ey, ep, ee) refl
    either false ey ep ee = rw (ey, ep, ee) refl

-- The links after list_remove of `e`.
abbrev pub removed : Links → ℕ → Links
removed s e = record {
  prev = put s.prev (put s.next (s.prev e) (s.next e) e) (s.prev e);
  next = put s.next (s.prev e) (s.next e);
}

pub remove_runs :
    (s : Links) (e : ℕ)
    → e ≢ 0
    → s.prev e ≢ 0
    → s.next e ≢ 0
    → list_remove s e ≡ some (removed s e, (removed s e).next e)
unfolding list_remove set_next set_prev is_interior
remove_runs s e he hp hn =
    let ee : (e == 0) ≡ false = ground (arith, he) in
    let ep : (s.prev e == 0) ≡ false = ground (arith, hp) in
    let en : (s.next e == 0) ≡ false = ground (arith, hn) in rw (ee, ep, en) refl

module _ (s : Links) (xs : List ℕ) (x y : ℕ) (ys : List ℕ) where
  -- list_insert before `y`, where `x` stands before it.
  pub inserted-Linked :
      (e : ℕ)
      → Linked s (xs ++ x ∷ y ∷ ys)
      → Distinct (xs ++ x ∷ e ∷ y ∷ ys)
      → s.prev y ≡ x
      → Linked (inserted s y e) (xs ++ x ∷ e ∷ y ∷ ys)
  inserted-Linked e h d before =
      let d1 : Distinct ((xs ++ x ∷ []) ++ e ∷ y ∷ ys) =
        subst Distinct (sym (append_assoc xs (x ∷ []) (e ∷ y ∷ ys))) d in
      let (apart, _) = Distinct-back (xs ++ x ∷ []) (e ∷ y ∷ ys) d1 in
      let s1 = join s e y in
      let front : Linked s1 (xs ++ x ∷ []) =
        Linked-front_frame s s1 xs x
          (All-map xs (λ a ne. put_off s.next e y a ne) (Distinct-apart xs (x ∷ e ∷ y ∷ ys) d).1.0)
          (All-map (xs ++ x ∷ []) (λ a ne. put_off s.prev y e a ne)
            (Distinct-apart (xs ++ x ∷ []) (e ∷ y ∷ ys) d1).1.0)
          (Linked-front s xs x (y ∷ ys) h) in
      let back : Linked s1 (e ∷ y ∷ ys) =
        join-Linked s [] e y ys (Distinct-back (xs ++ x ∷ []) (e ∷ y ∷ ys) d1) tt
          (Linked-back s xs x (y ∷ ys) h).2 in
      Linked-ext (join s1 x e) (inserted s y e) (xs ++ x ∷ e ∷ y ∷ ys)
        (λ a. ground (arith, before, apart.0)) (λ a. ground (arith, before, apart.0))
        (join-Linked s1 xs x e (y ∷ ys) d front back)

  -- list_remove of an element whose links lead to `x` and `y` leaves out what stands between them.
  pub removed-Linked :
      (e : ℕ) (ms : List ℕ)
      → Linked s (xs ++ x ∷ (ms ++ y ∷ ys))
      → Distinct (xs ++ x ∷ y ∷ ys)
      → s.prev e ≡ x
      → s.next e ≡ y
      → Linked (removed s e) (xs ++ x ∷ y ∷ ys)
  removed-Linked e ms h d before after =
      Linked-ext (join s x y) (removed s e) (xs ++ x ∷ y ∷ ys) (λ a. ground (arith, before, after))
        (λ a. ground (arith, before, after))
        (join-Linked s xs x y ys d (Linked-front s xs x (ms ++ y ∷ ys) h)
          (Linked-back s (x ∷ ms) y ys (Linked-back s xs x (ms ++ y ∷ ys) h)))
