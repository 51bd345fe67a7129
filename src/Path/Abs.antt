-- ===== src/Path/Abs.antt =====
-- path_abspath against the specification on components.

use course_cs439_operating_s.Base.{
  ◌≡◌, refl, ap, ◌∙◌, true, false, some, List, [], ◌∷◌, ◌++◌, arith, All,
}
use course_cs439_operating_s.CString.{Str, ok, malloc, copy, tokens}
use course_cs439_operating_s.CString.Tokens.{tokens-flat_append, flat}
use course_cs439_operating_s.Path.{
  slash, path_isvalid, path_isabs, ends_with_slash, path_join2, path_abspath, first_is,
}
use course_cs439_operating_s.Path.Norm.{
  IsPathChar, IsComponents, render, render-nil, render-cons, All-tokens, copy-plenty,
  all_path_chars-All, All-all_path_chars, All-append_chars, slash-IsPathChar, flat-chars,
  ends-render,
}
use course_cs439_operating_s.Path.Resolve.{
  IsName, enter, resolve, resolve-names, path_normpath-resolve,
}

resolve-append : (ts us vs : List Str) → resolve ts (us ++ vs) ≡ resolve (resolve ts us) vs
unfolding resolve
resolve-append ts [] vs = refl
resolve-append ts (u ∷ us) vs = resolve-append (enter ts u) us vs

-- What path_join2 makes of a directory in normal form and a relative path.
below : List Str → Str → Str
below ws q = flat slash ws ++ slash ∷ q

join-root_below :
    (q : Str)
    → path_isabs (some q) ≡ false
    → path_join2 (some (slash ∷ [])) (some q) [] ≡ ok (some (below [] q)) []
unfolding path_join2 below flat ends_with_slash copy malloc
join-root_below q h = rw h

tokens-below :
    (ws : List Str) (q : Str)
    → IsComponents ws
    → tokens (slash ∷ []) (below ws q) ≡ ws ++ tokens (slash ∷ []) q
unfolding below
tokens-below ws q c = tokens-flat_append slash ws q (All-tokens ws c)

join-below :
    (ws : List Str) (q : Str)
    → IsComponents ws
    → path_isabs (some q) ≡ false
    → path_join2 (some (render ws)) (some q) [] ≡ ok (some (below ws q)) []
unfolding path_join2 below
join-below [] q c h = rw render-nil (join-root_below q h)
join-below (w ∷ ws) q c h = rw (h, ends-render w ws [] c, render-cons w ws) (copy-plenty _)

starts-below : (ws : List Str) (q : Str) → first_is slash (below ws q) ≡ true
unfolding below flat
starts-below [] q = refl
starts-below (w ∷ ws) q = refl

path_isabs-of : (s : Str) → All IsPathChar s → first_is slash s ≡ true → path_isabs (some s) ≡ true
unfolding path_isabs path_isvalid
path_isabs-of [] h k = cc
path_isabs-of (c ∷ s) h k = ground (arith, all_path_chars-All (c ∷ s) h)

below-chars :
    (ws : List Str) (q : Str) → IsComponents ws → All IsPathChar q → All IsPathChar (below ws q)
unfolding below
below-chars ws q c h =
    All-append_chars (flat slash ws) (slash ∷ q) (flat-chars ws c) (slash-IsPathChar, h)

valid-chars : (q : Str) → path_isvalid (some q) ≡ true → All IsPathChar q
unfolding path_isvalid
valid-chars q v = All-all_path_chars q (ground arith)

-- With memory to spare and the working directory in normal form, a valid relative path stands for
-- the path reached from the working directory: each name enters, each `..` leaves.
pub path_abspath-relative :
    (ws : List Str) (q : Str)
    → IsComponents ws
    → All IsName ws
    → path_isvalid (some q) ≡ true
    → path_isabs (some q) ≡ false
    → path_abspath (render ws) (some q) []
      ≡ ok (some (render (resolve ws (tokens (slash ∷ []) q)))) []
unfolding path_abspath
path_abspath-relative ws q c n v h = rw (join-below ws q c h) (
    path_normpath-resolve (below ws q)
      (path_isabs-of (below ws q) (below-chars ws q c (valid-chars q v)) (starts-below ws q))
    ∙ ap (λ l. ok (some (render l)) [])
        (ap (resolve []) (tokens-below ws q c)
          ∙ resolve-append [] ws (tokens (slash ∷ []) q)
          ∙ ap (λ l. resolve l (tokens (slash ∷ []) q)) (resolve-names [] ws n)))

-- With memory to spare, a valid absolute path stands for itself, whatever the working directory.
pub path_abspath-absolute :
    (cwd q : Str)
    → path_isabs (some q) ≡ true
    → path_abspath cwd (some q) [] ≡ ok (some (render (resolve [] (tokens (slash ∷ []) q)))) []
unfolding path_abspath path_join2
path_abspath-absolute cwd q h = rw (h, copy-plenty q) (path_normpath-resolve q h)
