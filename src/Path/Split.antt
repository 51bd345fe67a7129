-- ===== src/Path/Split.antt =====
-- path_dirname and path_basename take an absolute path apart, and path_join2 puts it together.
use course_cs439_operating_s.Base.{◌≡◌, refl, ap, ◌∙◌, true, none, some, List, [], ◌∷◌, ◌++◌}
use mathlib.Core.Path.{subst}
use course_cs439_operating_s.CString.{Str, Ptr, ok, malloc, tokens}
use course_cs439_operating_s.Path.{
  slash, path_isabs, path_join2, path_dirname, last_token, path_basename,
}
use course_cs439_operating_s.Path.Norm.{
  IsComponent, IsComponents, render, drop_last, path_join2-render, path_dirname-abs,
  tokens-IsComponents, drop_last-IsComponents, copy-plenty,
}

-- The last entry of a list that is not empty.
pub last {ℓ} : {A : Type ℓ} → A → List A → A
last a [] = a
last a (b ∷ r) = last b r

last_token-last : (t : Str) (ts : List Str) (ret : Ptr) → last_token (t ∷ ts) ret ≡ some (last t ts)
unfolding last_token last
last_token-last t [] ret = refl
last_token-last t (u ∷ us) ret = last_token-last u us (some t)

drop_last-append-last : (t : Str) (ts : List Str) → drop_last (t ∷ ts) ++ last t ts ∷ [] ≡ t ∷ ts
unfolding drop_last last
drop_last-append-last t [] = refl
drop_last-append-last t (u ∷ us) = ap (◌∷◌ t) (drop_last-append-last u us)

last-IsComponent : (t : Str) (ts : List Str) → IsComponents (t ∷ ts) → IsComponent (last t ts)
unfolding last
last-IsComponent t [] h = h.0
last-IsComponent t (u ∷ us) h = last-IsComponent u us h.1

-- With memory to spare, an absolute path that is not just separators has a directory part and a
-- base name, and joining them gives the path with single separators.
pub dirname-basename-join :
    (p t : Str) (ts : List Str)
    → path_isabs (some p) ≡ true
    → tokens (slash ∷ []) p ≡ t ∷ ts
    → (path_dirname (some p) [] ≡ ok (some (render (drop_last (t ∷ ts)))) [])
      × (path_basename (some p) [] ≡ ok (some (last t ts)) [])
      × (path_join2 (some (render (drop_last (t ∷ ts)))) (some (last t ts)) []
          ≡ ok (some (render (t ∷ ts))) [])
unfolding path_basename malloc
dirname-basename-join p t ts h e =
    let c = subst IsComponents e (tokens-IsComponents p h) in
    (
      path_dirname-abs p h ∙ ap (λ l. ok (some (render (drop_last l))) []) e,
      rw (e, last_token-last t ts none) (copy-plenty _),
      path_join2-render (drop_last (t ∷ ts)) (last t ts) (drop_last-IsComponents (t ∷ ts) c)
            (last-IsComponent t ts c)
          ∙ ap (λ l. ok (some (render l)) []) (drop_last-append-last t ts),
    )
