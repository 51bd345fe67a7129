-- ===== src/LinkedList/Nodes.antt =====
-- When the links of pintos/src/lib/kernel/list.c hold a list, and which links that depends on.

use course_cs439_operating_s.Base.{ℕ, ◌≡◌, ◌≢◌, sym, ◌∙◌, List, [], ◌∷◌, ◌++◌, All, All-append}
use course_cs439_operating_s.LinkedList.{Links, LinkedList}

-- Each address is linked to the one after it, in both directions.
abbrev pub Linked : Links → List ℕ → Type 0
Linked s [] = Unit {0}
Linked s (x ∷ []) = Unit {0}
Linked s (x ∷ y ∷ r) = (s.next x ≡ y) × (s.prev y ≡ x) × Linked s (y ∷ r)

abbrev pub Distinct : List ℕ → Type 0
Distinct [] = Unit {0}
Distinct (x ∷ xs) = All (λ y. y ≢ x) xs × Distinct xs

-- The sentinels of a list with its elements between them.
abbrev pub nodes : LinkedList → List ℕ → List ℕ
nodes l xs = l.head ∷ (xs ++ l.tail ∷ [])

-- The list `l` has the elements `xs`.
pub record Holds (s : Links) (l : LinkedList) (xs : List ℕ) : Type 0 where
  pub front : s.prev l.head ≡ 0
  pub back : s.next l.tail ≡ 0
  pub linked : Linked s (nodes l xs)
  pub distinct : Distinct (nodes l xs)
  pub valid : All (λ x. x ≢ 0) (nodes l xs)

module _ {ℓ} {A : Type ℓ} where
  pub All-map {κ κ'} :
      {P : A → Type κ} {Q : A → Type κ'} (xs : List A) → ((x : A) → P x → Q x) → All P xs → All Q xs
  All-map [] f a = tt
  All-map (x ∷ xs) f a = (f x a.0, All-map xs f a.1)

  pub All-front {κ} : (P : A → Type κ) (xs ys : List A) → All P (xs ++ ys) → All P xs
  All-front P [] ys a = tt
  All-front P (x ∷ xs) ys a = (a.0, All-front P xs ys a.1)

  pub All-back {κ} : (P : A → Type κ) (xs ys : List A) → All P (xs ++ ys) → All P ys
  All-back P [] ys a = a
  All-back P (x ∷ xs) ys a = All-back P xs ys a.1

pub Distinct-back : (xs ys : List ℕ) → Distinct (xs ++ ys) → Distinct ys
Distinct-back [] ys d = d
Distinct-back (x ∷ xs) ys d = Distinct-back xs ys d.1

-- No element of the front is one of the back.
pub Distinct-apart : (xs ys : List ℕ) → Distinct (xs ++ ys) → All (λ y. All (λ x. x ≢ y) xs) ys
Distinct-apart xs [] d = tt
Distinct-apart xs (y ∷ ys) d = (apart xs d, Distinct-apart xs ys (without xs d))
  where
    apart : (xs : List ℕ) → Distinct (xs ++ y ∷ ys) → All (λ x. x ≢ y) xs
    apart [] d = tt
    apart (x ∷ xs) d = (λ e. (All-back _ xs (y ∷ ys) d.0).0 (sym e), apart xs d.1)

    without : (xs : List ℕ) → Distinct (xs ++ y ∷ ys) → Distinct (xs ++ ys)
    without [] d = d.1
    without (x ∷ xs) d = (
      All-append (λ z. z ≢ x) xs ys (All-front _ xs (y ∷ ys) d.0) (All-back _ xs (y ∷ ys) d.0).1,
      without xs d.1,
    )

-- Without the part in the middle.
pub Distinct-skip : (xs ms ys : List ℕ) → Distinct (xs ++ (ms ++ ys)) → Distinct (xs ++ ys)
Distinct-skip [] ms ys d = Distinct-back ms ys d
Distinct-skip (x ∷ xs) ms ys d = (
  All-append (λ z. z ≢ x) xs ys (All-front _ xs (ms ++ ys) d.0)
      (All-back _ ms ys (All-back _ xs (ms ++ ys) d.0)),
  Distinct-skip xs ms ys d.1,
)

-- With a new element in the middle.
pub Distinct-add :
    (xs : List ℕ) (e : ℕ) (ys : List ℕ)
    → All (λ y. y ≢ e) (xs ++ ys)
    → Distinct (xs ++ ys)
    → Distinct (xs ++ e ∷ ys)
Distinct-add [] e ys n d = (n, d)
Distinct-add (x ∷ xs) e ys n d = (
  All-append (λ z. z ≢ x) xs (e ∷ ys) (All-front _ xs ys d.0)
      ((λ h. n.0 (sym h)), All-back _ xs ys d.0),
  Distinct-add xs e ys n.1 d.1,
)

pub Linked-front :
    (s : Links) (xs : List ℕ) (x : ℕ) (ys : List ℕ)
    → Linked s (xs ++ x ∷ ys)
    → Linked s (xs ++ x ∷ [])
Linked-front s [] x ys h = tt
Linked-front s (a ∷ []) x ys h = (h.0, h.1, tt)
Linked-front s (a ∷ b ∷ xs) x ys h = (h.0, h.1, Linked-front s (b ∷ xs) x ys h.2)

pub Linked-back :
    (s : Links) (xs : List ℕ) (x : ℕ) (ys : List ℕ) → Linked s (xs ++ x ∷ ys) → Linked s (x ∷ ys)
Linked-back s [] x ys h = h
Linked-back s (a ∷ []) x ys h = h.2
Linked-back s (a ∷ b ∷ xs) x ys h = Linked-back s (b ∷ xs) x ys h.2

pub Linked-join :
    (s : Links) (xs : List ℕ) (x : ℕ) (ys : List ℕ)
    → Linked s (xs ++ x ∷ [])
    → Linked s (x ∷ ys)
    → Linked s (xs ++ x ∷ ys)
Linked-join s [] x ys h k = k
Linked-join s (a ∷ []) x ys h k = (h.0, h.1, k)
Linked-join s (a ∷ b ∷ xs) x ys h k = (h.0, h.1, Linked-join s (b ∷ xs) x ys h.2 k)

-- The links of the front are those of other states that agree on it.
pub Linked-front_frame :
    (s s' : Links) (xs : List ℕ) (x : ℕ)
    → All (λ a. s'.next a ≡ s.next a) xs
    → All (λ a. s'.prev a ≡ s.prev a) (xs ++ x ∷ [])
    → Linked s (xs ++ x ∷ [])
    → Linked s' (xs ++ x ∷ [])
Linked-front_frame s s' [] x n p h = tt
Linked-front_frame s s' (a ∷ []) x n p h = (n.0 ∙ h.0, p.1.0 ∙ h.1, tt)
Linked-front_frame s s' (a ∷ b ∷ xs) x n p h =
    (n.0 ∙ h.0, p.1.0 ∙ h.1, Linked-front_frame s s' (b ∷ xs) x n.1 p.1 h.2)

pub Linked-back_frame :
    (s s' : Links) (y : ℕ) (ys : List ℕ)
    → All (λ a. s'.next a ≡ s.next a) (y ∷ ys)
    → All (λ a. s'.prev a ≡ s.prev a) ys
    → Linked s (y ∷ ys)
    → Linked s' (y ∷ ys)
Linked-back_frame s s' y [] n p h = tt
Linked-back_frame s s' y (a ∷ ys) n p h =
    (n.0 ∙ h.0, p.0 ∙ h.1, Linked-back_frame s s' a ys n.1 p.1 h.2)
