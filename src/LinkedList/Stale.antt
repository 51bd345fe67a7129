-- ===== src/LinkedList/Stale.antt =====
-- list_remove of an element that is not in a list any more: pintos/src/lib/kernel/list.c.
use course_cs439_operating_s.Base.{ℕ, ◌≡◌, ◌≢◌, ◌∙◌, some, List, [], ◌∷◌, ◌++◌, All}
use course_cs439_operating_s.LinkedList.{Links, LinkedList, list_insert, list_remove}
use course_cs439_operating_s.LinkedList.Nodes.{nodes, Holds}
use course_cs439_operating_s.LinkedList.Place.{first}
use course_cs439_operating_s.LinkedList.Refine.{
  list_insert-Holds, list_remove-Holds, list_remove-between, links_of,
}

-- If an element is removed from a list, another one is put in its place and the first one is removed once more,
-- every call succeeds and the other one is lost: the list is as after the first removal.
pub list_remove-twice :
    (s : Links) (l : LinkedList) (ys zs : List ℕ) (e other : ℕ)
    → Holds s l (ys ++ e ∷ zs)
    → other ≢ 0
    → e ≢ other
    → All (λ a. a ≢ other) (nodes l (ys ++ zs))
    → (s1 : Links) × (s2 : Links) × (s3 : Links) × (list_remove s e ≡ some (s1, first zs l.tail))
      × (list_insert s1 (first zs l.tail) other ≡ some s2)
      × Holds s2 l (ys ++ other ∷ zs)
      × (list_remove s2 e ≡ some (s3, first zs l.tail))
      × Holds s3 l (ys ++ zs)
list_remove-twice s l ys zs e other h ho ne fresh =
    let a = links_of s l ys zs e h in
    let (s1, r1, h1, k1) = list_remove-Holds s l ys zs e h in
    let (s2, r2, h2, k2) = list_insert-Holds s1 l ys zs other h1 ho fresh in
    let (s3, r3, h3, _) =
      list_remove-between s2 l ys (other ∷ []) zs e h2 a.valid
        (k2.prev e ne a.before_behind ∙ k1.prev e (λ z. z) a.before_behind ∙ a.before)
        (k2.next e ne a.behind_before ∙ k1.next e (λ z. z) a.behind_before ∙ a.behind) in
    (s1, s2, s3, r1, r2, h2, r3, h3)
