-- ===== src/LinkedList/Refine.antt =====
-- list_insert and list_remove of pintos/src/lib/kernel/list.c as changes to the list of elements.

use mathlib.Core.Path.{subst}
use course_cs439_operating_s.Base.{
  ℕ, ◌≡◌, ◌≢◌, sym, ap, ◌∙◌, some, List, [], ◌∷◌, ◌++◌, arith, All, All-append,
}
use course_cs439_operating_s.LinkedList.{Links, LinkedList, put, list_insert, list_remove}
use course_cs439_operating_s.LinkedList.Nodes.{
  Linked, Distinct, nodes, Holds, All-back, Distinct-back, Distinct-apart, Distinct-add,
  Linked-back,
}
use course_cs439_operating_s.LinkedList.Update.{
  put_off, inserted, insert_runs, inserted-Linked, removed, remove_runs, removed-Linked,
}
use course_cs439_operating_s.LinkedList.Place.{
  last, but_last, first, after, All-last, All-first, All-end, nodes-append, nodes_around, parts,
  valid_parts, outside, valid_back, valid_front, place, around-Linked,
}

-- Two states agree on the links that do not join `before` and `behind`, but for those of new elements.
pub record Elsewhere (new : ℕ → Type 0) (s s' : Links) (before behind : ℕ) : Type 0 where
  pub prev : (a : ℕ) → (new a → ⊥) → a ≢ behind → s'.prev a ≡ s.prev a
  pub next : (a : ℕ) → (new a → ⊥) → a ≢ before → s'.next a ≡ s.next a

-- list_insert before the elements `zs` of a list `ys ++ zs`, or before its tail if there are none,
-- succeeds for an element that is not in the list, puts it between `ys` and `zs` and changes no other
-- links.
pub list_insert-Holds :
    (s : Links) (l : LinkedList) (ys zs : List ℕ) (e : ℕ)
    → Holds s l (ys ++ zs)
    → e ≢ 0
    → All (λ a. a ≢ e) (nodes l (ys ++ zs))
    → (s' : Links) × (list_insert s (first zs l.tail) e ≡ some s')
      × Holds s' l (ys ++ e ∷ zs)
      × Elsewhere (λ a. a ≡ e) s s' (last l.head ys) (first zs l.tail)
list_insert-Holds s l ys zs e h he fresh =
    let y = first zs l.tail in
    let x = last l.head ys in
    let p = place s l ys [] zs h in
    let linked = around-Linked s l ys [] zs h in
    let before : s.prev y ≡ x =
      (Linked-back s (but_last l.head ys) x (y ∷ after zs l.tail) linked).1 in
    let fresh' = subst (All (λ a. a ≢ e)) (nodes-append l ys zs) fresh in
    let distinct : Distinct (nodes l (ys ++ e ∷ zs)) =
      subst Distinct (sym (nodes-append l ys (e ∷ zs)))
        (Distinct-add (l.head ∷ ys) e (zs ++ l.tail ∷ []) fresh' (parts s l ys [] zs h)) in
    let y_fresh : y ≢ e =
      All-first _ zs l.tail (All-back _ (l.head ∷ ys) (zs ++ l.tail ∷ []) fresh') in
    let tail_fresh : l.tail ≢ e =
      All-end _ zs l.tail (All-back _ (l.head ∷ ys) (zs ++ l.tail ∷ []) fresh') in
    (
      inserted s y e,
      insert_runs s y e p.after_valid (λ z. p.before_valid (sym before ∙ z)) he,
      record {
        front =
            put_off (put s.prev e (s.prev y)) y e l.head p.head_apart
            ∙ put_off s.prev e (s.prev y) l.head fresh.0
            ∙ h.front;
        back =
            put_off (put s.next e y) (put s.prev e (s.prev y) y) e l.tail
              (λ z. p.tail_apart (z ∙ put_off s.prev e (s.prev y) y y_fresh ∙ before))
            ∙ put_off s.next e y l.tail tail_fresh
            ∙ h.back;
        linked = subst (Linked (inserted s y e)) (sym (nodes_around l ys (e ∷ []) zs)) (
            inserted-Linked s (but_last l.head ys) x y (after zs l.tail) e linked
              (subst Distinct (nodes_around l ys (e ∷ []) zs) distinct) before);
        distinct = distinct;
        valid = subst (All (λ a. a ≢ 0)) (sym (nodes-append l ys (e ∷ zs))) (
            All-append _ (l.head ∷ ys) (e ∷ zs ++ l.tail ∷ []) (valid_front s l ys [] zs h)
              (he, valid_back s l ys [] zs h));
      },
      record {
        prev = λ a ne ny.
            put_off (put s.prev e (s.prev y)) y e a ny ∙ put_off s.prev e (s.prev y) a ne;
        next = λ a ne nx.
            put_off (put s.next e y) (put s.prev e (s.prev y) y) e a
              (λ z. nx (z ∙ put_off s.prev e (s.prev y) y y_fresh ∙ before))
            ∙ put_off s.next e y a ne;
      },
    )

-- list_remove of an element whose links lead to the neighbours of the elements `ms` succeeds, gives the
-- neighbour behind them and takes all of `ms` out of the list, whether or not the element is one of
-- them; no other links change.
pub list_remove-between :
    (s : Links) (l : LinkedList) (ys ms zs : List ℕ) (e : ℕ)
    → Holds s l (ys ++ (ms ++ zs))
    → e ≢ 0
    → s.prev e ≡ last l.head ys
    → s.next e ≡ first zs l.tail
    → (s' : Links) × (list_remove s e ≡ some (s', first zs l.tail))
      × Holds s' l (ys ++ zs)
      × Elsewhere (λ a. ⊥) s s' (last l.head ys) (first zs l.tail)
list_remove-between s l ys ms zs e h he before behind =
    let y = first zs l.tail in
    let x = last l.head ys in
    let p = place s l ys ms zs h in
    let distinct : Distinct (nodes l (ys ++ zs)) =
      subst Distinct (sym (nodes-append l ys zs)) (outside s l ys ms zs h) in
    let same : (removed s e).next e ≡ y = ground (arith, behind) in
    let neighbour : put s.next (s.prev e) (s.next e) e ≡ y = ground (arith, behind) in
    (
      removed s e,
      remove_runs s e he (λ z. p.before_valid (sym before ∙ z))
            (λ z. p.after_valid (sym behind ∙ z))
          ∙ ap (λ a. some (removed s e, a)) same,
      record {
        front =
            put_off s.prev (put s.next (s.prev e) (s.next e) e) (s.prev e) l.head
              (λ z. p.head_apart (z ∙ neighbour))
            ∙ h.front;
        back =
            put_off s.next (s.prev e) (s.next e) l.tail (λ z. p.tail_apart (z ∙ before)) ∙ h.back;
        linked = subst (Linked (removed s e)) (sym (nodes_around l ys [] zs)) (
            removed-Linked s (but_last l.head ys) x y (after zs l.tail) e ms
              (around-Linked s l ys ms zs h) (subst Distinct (nodes_around l ys [] zs) distinct)
              before behind);
        distinct = distinct;
        valid = subst (All (λ a. a ≢ 0)) (sym (nodes-append l ys zs)) (
            All-append _ (l.head ∷ ys) (zs ++ l.tail ∷ []) (valid_front s l ys ms zs h)
              (valid_back s l ys ms zs h));
      },
      record {
        prev = λ a _ ny.
            put_off s.prev (put s.next (s.prev e) (s.next e) e) (s.prev e) a
              (λ z. ny (z ∙ neighbour));
        next = λ a _ nx. put_off s.next (s.prev e) (s.next e) a (λ z. nx (z ∙ before));
      },
    )

-- The links of an element of a list.
pub record Around (s : Links) (l : LinkedList) (ys zs : List ℕ) (e : ℕ) : Type 0 where
  pub valid : e ≢ 0
  pub before : s.prev e ≡ last l.head ys
  pub behind : s.next e ≡ first zs l.tail
  pub before_behind : e ≢ first zs l.tail
  pub behind_before : e ≢ last l.head ys

pub links_of :
    (s : Links) (l : LinkedList) (ys zs : List ℕ) (e : ℕ)
    → Holds s l (ys ++ e ∷ zs)
    → Around s l ys zs e
links_of s l ys zs e h =
    let linked = around-Linked s l ys (e ∷ []) zs h in
    let around =
      Linked-back s (but_last l.head ys) (last l.head ys) (e ∷ first zs l.tail ∷ after zs l.tail)
        linked in
    let d = parts s l ys (e ∷ []) zs h in
    let apart = Distinct-apart (l.head ∷ ys) (e ∷ zs ++ l.tail ∷ []) d in
    record {
      valid =
          (All-back _ (l.head ∷ ys) (e ∷ zs ++ l.tail ∷ []) (valid_parts s l ys (e ∷ []) zs h)).0;
      before = around.1;
      behind = around.2.0;
      before_behind = λ z.
          All-first (λ y. y ≢ e) zs l.tail (Distinct-back (l.head ∷ ys) (e ∷ zs ++ l.tail ∷ []) d).0
            (sym z);
      behind_before = λ z. All-last (λ x. x ≢ e) l.head ys apart.0 (sym z);
    }

-- list_remove of an element of a list succeeds, gives the address behind it, leaves the other elements
-- as they were and changes no links but those of its neighbours.
pub list_remove-Holds :
    (s : Links) (l : LinkedList) (ys zs : List ℕ) (e : ℕ)
    → Holds s l (ys ++ e ∷ zs)
    → (s' : Links) × (list_remove s e ≡ some (s', first zs l.tail))
      × Holds s' l (ys ++ zs)
      × Elsewhere (λ a. ⊥) s s' (last l.head ys) (first zs l.tail)
list_remove-Holds s l ys zs e h =
    let a = links_of s l ys zs e h in
    list_remove-between s l ys (e ∷ []) zs e h a.valid a.before a.behind
