-- ===== src/Path/Resolve.antt =====
-- path_normpath against a specification on components: `.` is dropped and `..` drops the component
-- before it.
use course_cs439_operating_s.Base.{
  ◌≡◌, refl, ap, sym, ◌∙◌, ◌⊎◌, inl, inr, Bool, true, false, ◌&&◌, none, some, List, [], ◌∷◌, ◌++◌,
  arith, ◌==◌, if◌then◌else◌, Bool-cases, All, All-append,
}
use mathlib.Core.List.{append-nil, append_assoc}
use course_cs439_operating_s.CString.{Str, Ptr, ok, malloc, tokens}
use course_cs439_operating_s.Path.{
  slash, dot, path_isvalid, path_isabs, path_isdot, path_isdotdot, path_dirname, normpath_round,
  normpath_loop, path_normpath, or_default,
}
use course_cs439_operating_s.Path.Norm.{
  IsComponent, IsComponents, render, render-nil, drop_last, path_isabs-render, tokens-render,
  path_join2-render, path_dirname-abs, tokens-IsComponents, drop_last-IsComponents, copy-plenty,
  all_path_chars-All, join-root,
}

abbrev pub is_here : Str → Bool
is_here [] = false
is_here (c ∷ []) = c == dot
is_here (c ∷ d ∷ t) = false

abbrev pub is_up : Str → Bool
is_up [] = false
is_up (c ∷ []) = false
is_up (c ∷ d ∷ []) = (c == dot) && (d == dot)
is_up (c ∷ d ∷ e ∷ t) = false

-- The component stack after one more component.
pub enter : List Str → Str → List Str
enter ts t = if is_up t then drop_last ts else if is_here t then ts else ts ++ t ∷ []

unfoldable pub resolve : List Str → List Str → List Str
resolve ts [] = ts
resolve ts (t ∷ rest) = resolve (enter ts t) rest

pub path_isvalid-component : (t : Str) → IsComponent t → path_isvalid (some t) ≡ true
unfolding path_isvalid
path_isvalid-component [] h = absurd (omega arith)
path_isvalid-component (c ∷ t) h = ground (arith, all_path_chars-All (c ∷ t) h.1)

path_isdot-is_here : (t : Str) → IsComponent t → path_isdot (some t) ≡ is_here t
unfolding path_isdot
path_isdot-is_here [] h = absurd (omega arith)
path_isdot-is_here (c ∷ []) h = rw (path_isvalid-component (c ∷ []) h)
path_isdot-is_here (c ∷ d ∷ t) h = rw (path_isvalid-component (c ∷ d ∷ t) h) (ground arith)

path_isdotdot-is_up : (t : Str) → IsComponent t → path_isdotdot (some t) ≡ is_up t
unfolding path_isdotdot
path_isdotdot-is_up [] h = absurd (omega arith)
path_isdotdot-is_up (c ∷ []) h = rw (path_isvalid-component (c ∷ []) h)
path_isdotdot-is_up (c ∷ d ∷ []) h = rw (path_isvalid-component (c ∷ d ∷ []) h)
path_isdotdot-is_up (c ∷ d ∷ e ∷ t) h = rw (path_isvalid-component (c ∷ d ∷ e ∷ t) h) (ground arith)

pub enter-IsComponents :
    (ts : List Str) (t : Str) → IsComponents ts → IsComponent t → IsComponents (enter ts t)
unfolding enter
enter-IsComponents ts t c k =
    ground (arith, drop_last-IsComponents ts c, All-append IsComponent ts (t ∷ []) c (k, tt))

pub dirname-render :
    (ts : List Str)
    → IsComponents ts
    → path_dirname (some (render ts)) [] ≡ ok (some (render (drop_last ts))) []
dirname-render ts c =
    path_dirname-abs (render ts) (path_isabs-render ts c)
    ∙ ap (λ l. ok (some (render (drop_last l))) []) (tokens-render ts c)

round-some :
    (p t : Str) (ts : List Str)
    → IsComponents ts
    → IsComponent t
    → normpath_round p t (some (render ts)) [] ≡ ok (some (some (render (enter ts t)))) []
unfolding normpath_round enter
round-some p t ts c k =
    rw (path_isdotdot-is_up t k, path_isdot-is_here t k)
      (ground (arith, dirname-render ts c, path_join2-render ts t c k))

-- `ret` after a round that starts with NULL.
first_ret : Str → Ptr
first_ret t =
    if is_up t then some (slash ∷ []) else if is_here t then none else some (render (t ∷ []))

round-none :
    (p t : Str)
    → path_isabs (some p) ≡ true
    → IsComponent t
    → normpath_round p t none [] ≡ ok (some (first_ret t)) []
unfolding normpath_round first_ret
round-none p t h k =
    rw (path_isdotdot-is_up t k, path_isdot-is_here t k, h) (ground (arith, join-root t k))

first_ret-cases :
    (t : Str)
    → ((first_ret t ≡ none) × (enter [] t ≡ [])) ⊎ (first_ret t ≡ some (render (enter [] t)))
unfolding first_ret enter drop_last
first_ret-cases t = ground (arith, render-nil)

loop-some :
    (p : Str) (rest ts : List Str)
    → IsComponents ts
    → IsComponents rest
    → normpath_loop p rest (some (render ts)) [] ≡ ok (some (some (render (resolve ts rest)))) []
unfolding normpath_loop resolve
loop-some p [] ts c k = refl
loop-some p (t ∷ rest) ts c k =
    rw (round-some p t ts c k.0) (loop-some p rest (enter ts t) (enter-IsComponents ts t c k.0) k.1)

-- The loop from NULL: it ends, and with the default for NULL its result is the resolved path.
loop-none :
    (p : Str) (rest : List Str)
    → path_isabs (some p) ≡ true
    → IsComponents rest
    → (ret : Ptr) × (normpath_loop p rest none [] ≡ ok (some ret) [])
      × (or_default p ret ≡ render (resolve [] rest))
unfolding normpath_loop resolve
loop-none p [] h k = (none, refl, rw h (sym render-nil))
loop-none p (t ∷ rest) h k = rw (round-none p t h k.0) (elim (first_ret-cases t) [
  | inl (e, f) ↦ rw (e, f) (loop-none p rest h k.1)
  | inr e ↦ rw e (
    some (render (resolve (enter [] t) rest)),
    loop-some p rest (enter [] t) (enter-IsComponents [] t tt k.0) k.1,
    refl,
  )
])

-- With memory to spare, path_normpath of an absolute path is the path of its components with each
-- `.` dropped and each `..` dropping the component before it (none at the root).
pub path_normpath-resolve :
    (p : Str)
    → path_isabs (some p) ≡ true
    → path_normpath (some p) [] ≡ ok (some (render (resolve [] (tokens (slash ∷ []) p)))) []
unfolding path_normpath malloc
path_normpath-resolve p h =
    let (ret, ran, is) = loop-none p (tokens (slash ∷ []) p) h (tokens-IsComponents p h) in
    rw (ran, is) (copy-plenty _)

-- A component that is neither `.` nor `..`.
abbrev pub IsName : Str → Type 0
IsName t = (is_here t ≡ false) × (is_up t ≡ false)

drop_last-IsName : (ts : List Str) → All IsName ts → All IsName (drop_last ts)
unfolding drop_last
drop_last-IsName [] h = tt
drop_last-IsName (t ∷ []) h = tt
drop_last-IsName (t ∷ u ∷ ts) h = (h.0, drop_last-IsName (u ∷ ts) h.1)

enter-IsName : (ts : List Str) (t : Str) → All IsName ts → All IsName (enter ts t)
unfolding enter
enter-IsName ts t h = elim (Bool-cases (is_up t)) [
  | inl up ↦ rw up (drop_last-IsName ts h)
  | inr not_up ↦ rw not_up (elim (Bool-cases (is_here t)) [
    | inl here ↦ rw here h
    | inr name ↦ rw name (All-append IsName ts (t ∷ []) h ((name, not_up), tt))
  ])
]

pub resolve-IsName : (ts rest : List Str) → All IsName ts → All IsName (resolve ts rest)
unfolding resolve
resolve-IsName ts [] h = h
resolve-IsName ts (t ∷ rest) h = resolve-IsName (enter ts t) rest (enter-IsName ts t h)

pub resolve-IsComponents :
    (ts rest : List Str) → IsComponents ts → IsComponents rest → IsComponents (resolve ts rest)
unfolding resolve
resolve-IsComponents ts [] c k = c
resolve-IsComponents ts (t ∷ rest) c k =
    resolve-IsComponents (enter ts t) rest (enter-IsComponents ts t c k.0) k.1

-- Names alone are all kept, in order.
pub resolve-names : (ts rest : List Str) → All IsName rest → resolve ts rest ≡ ts ++ rest
unfolding resolve enter
resolve-names ts [] h = sym (append-nil ts)
resolve-names ts (t ∷ rest) h =
    rw (h.0.0, h.0.1) (resolve-names (ts ++ t ∷ []) rest h.1 ∙ append_assoc ts (t ∷ []) rest)

-- With memory to spare, normalising an absolute path gives an absolute path whose components are
-- names, neither `.` nor `..`, and normalising that changes nothing.
pub path_normpath_idempotent :
    (p : Str)
    → path_isabs (some p) ≡ true
    → (q : Str) × (path_normpath (some p) [] ≡ ok (some q) [])
      × (path_isabs (some q) ≡ true)
      × All IsName (tokens (slash ∷ []) q)
      × (path_normpath (some q) [] ≡ ok (some q) [])
path_normpath_idempotent p h =
    let c = resolve-IsComponents [] _ tt (tokens-IsComponents p h) in
    let n = resolve-IsName [] (tokens (slash ∷ []) p) tt in
    let q = render (resolve [] (tokens (slash ∷ []) p)) in
    let again = tokens-render _ c in
    (
      q,
      path_normpath-resolve p h,
      path_isabs-render _ c,
      rw again n,
      path_normpath-resolve q (path_isabs-render _ c)
          ∙ ap (λ l. ok (some (render l)) []) (ap (resolve []) again ∙ resolve-names [] _ n),
    )
