-- ===== src/LinkedList/Place.antt =====
-- The addresses on both sides of a place in a list: pintos/src/lib/kernel/list.c.
use mathlib.Core.List.{append_assoc}
use mathlib.Core.Path.{subst}
use course_cs439_operating_s.Base.{ℕ, ◌≡◌, ◌≢◌, refl, sym, ap, ◌∙◌, List, [], ◌∷◌, ◌++◌, All}
use course_cs439_operating_s.LinkedList.{Links, LinkedList}
use course_cs439_operating_s.LinkedList.Nodes.{
  Linked, Distinct, nodes, Holds, All-front, All-back, Distinct-apart, Distinct-skip,
}

-- The last of some addresses, and those before it.
abbrev pub last : ℕ → List ℕ → ℕ
last h [] = h
last h (y ∷ ys) = last y ys

abbrev pub but_last : ℕ → List ℕ → List ℕ
but_last h [] = []
but_last h (y ∷ ys) = h ∷ but_last y ys

-- The first of the elements before a tail, and those after it.
abbrev pub first : List ℕ → ℕ → ℕ
first [] t = t
first (z ∷ zs) t = z

abbrev pub after : List ℕ → ℕ → List ℕ
after [] t = []
after (z ∷ zs) t = zs ++ t ∷ []

split_last : (h : ℕ) (ys : List ℕ) → h ∷ ys ≡ but_last h ys ++ last h ys ∷ []
split_last h [] = refl
split_last h (y ∷ ys) = ap (◌∷◌ h) (split_last y ys)

split_first : (zs : List ℕ) (t : ℕ) → zs ++ t ∷ [] ≡ first zs t ∷ after zs t
split_first [] t = refl
split_first (z ∷ zs) t = refl

pub All-last : (P : ℕ → Type 0) (h : ℕ) (ys : List ℕ) → All P (h ∷ ys) → P (last h ys)
All-last P h [] a = a.0
All-last P h (y ∷ ys) a = All-last P y ys a.1

pub All-first : (P : ℕ → Type 0) (zs : List ℕ) (t : ℕ) → All P (zs ++ t ∷ []) → P (first zs t)
All-first P [] t a = a.0
All-first P (z ∷ zs) t a = a.0

pub All-end : (P : ℕ → Type 0) (zs : List ℕ) (t : ℕ) → All P (zs ++ t ∷ []) → P t
All-end P zs t a = (All-back P zs (t ∷ []) a).0

pub nodes-append :
    (l : LinkedList) (ys zs : List ℕ) → nodes l (ys ++ zs) ≡ (l.head ∷ ys) ++ (zs ++ l.tail ∷ [])
nodes-append l ys zs = ap (◌∷◌ l.head) (append_assoc ys zs (l.tail ∷ []))

-- The addresses around the elements `ms`.
pub nodes_around :
    (l : LinkedList) (ys ms zs : List ℕ)
    → nodes l (ys ++ (ms ++ zs))
      ≡ but_last l.head ys ++ last l.head ys ∷ (ms ++ first zs l.tail ∷ after zs l.tail)
nodes_around l ys ms zs =
    nodes-append l ys (ms ++ zs)
    ∙ ap (λ r. (l.head ∷ ys) ++ r)
        (append_assoc ms zs (l.tail ∷ []) ∙ ap (λ r. ms ++ r) (split_first zs l.tail))
    ∙ ap (λ r. r ++ (ms ++ first zs l.tail ∷ after zs l.tail)) (split_last l.head ys)
    ∙ append_assoc (but_last l.head ys) (last l.head ys ∷ [])
        (ms ++ first zs l.tail ∷ after zs l.tail)

-- What a list with a place between `ys` and `zs` says of the addresses on both sides.
pub record Place (s : Links) (l : LinkedList) (ys zs : List ℕ) : Type 0 where
  pub before_valid : last l.head ys ≢ 0
  pub after_valid : first zs l.tail ≢ 0
  pub head_apart : l.head ≢ first zs l.tail
  pub tail_apart : l.tail ≢ last l.head ys

module _ (s : Links) (l : LinkedList) (ys ms zs : List ℕ) (h : Holds s l (ys ++ (ms ++ zs))) where
  pub parts : Distinct ((l.head ∷ ys) ++ (ms ++ (zs ++ l.tail ∷ [])))
  parts =
      subst Distinct
        (nodes-append l ys (ms ++ zs)
          ∙ ap (λ r. (l.head ∷ ys) ++ r) (append_assoc ms zs (l.tail ∷ [])))
        h.distinct

  pub valid_parts : All (λ a. a ≢ 0) ((l.head ∷ ys) ++ (ms ++ (zs ++ l.tail ∷ [])))
  valid_parts =
      subst (All (λ a. a ≢ 0))
        (nodes-append l ys (ms ++ zs)
          ∙ ap (λ r. (l.head ∷ ys) ++ r) (append_assoc ms zs (l.tail ∷ [])))
        h.valid

  pub outside : Distinct ((l.head ∷ ys) ++ (zs ++ l.tail ∷ []))
  outside = Distinct-skip (l.head ∷ ys) ms (zs ++ l.tail ∷ []) parts

  pub valid_back : All (λ a. a ≢ 0) (zs ++ l.tail ∷ [])
  valid_back =
      All-back _ ms (zs ++ l.tail ∷ [])
        (All-back _ (l.head ∷ ys) (ms ++ (zs ++ l.tail ∷ [])) valid_parts)

  pub valid_front : All (λ a. a ≢ 0) (l.head ∷ ys)
  valid_front = All-front _ (l.head ∷ ys) (ms ++ (zs ++ l.tail ∷ [])) valid_parts

  pub place : Place s l ys zs
  place =
      let apart = Distinct-apart (l.head ∷ ys) (zs ++ l.tail ∷ []) outside in
      record {
        before_valid = All-last _ l.head ys valid_front;
        after_valid = All-first _ zs l.tail valid_back;
        head_apart = (All-first _ zs l.tail apart).0;
        tail_apart = λ e. All-last _ l.head ys (All-end _ zs l.tail apart) (sym e);
      }

  pub around-Linked :
      Linked s (but_last l.head ys ++ last l.head ys ∷ (ms ++ first zs l.tail ∷ after zs l.tail))
  around-Linked = subst (Linked s) (nodes_around l ys ms zs) h.linked
