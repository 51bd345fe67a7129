-- ===== src/Path/Norm.antt =====
-- Absolute paths in normal form, and what path_dirname, path_basename and path_join2 do with them.
use course_cs439_operating_s.Base.{
  ℕ, ◌<◌, ◌≡◌, refl, ap, sym, ◌∙◌, true, false, none, some, List, [], ◌∷◌, ◌++◌, arith, length, All,
  All-append,
}
use mathlib.Core.List.{append-nil, append_assoc}
use course_cs439_operating_s.CString.{Str, Ptr, Memory, ok, malloc, copy, tokens}
use course_cs439_operating_s.CString.Chars.{tokens-All}
use course_cs439_operating_s.CString.Tokens.{IsToken, flat, tokens-flat, tokens-IsToken}
use course_cs439_operating_s.Path.{
  slash, is_path_char, all_path_chars, path_isvalid, path_isabs, ends_with_slash, path_join2,
  dirname_loop, path_dirname, or_default,
}

abbrev pub IsPathChar : ℕ → Type 0
IsPathChar c = is_path_char c ≡ true

-- A component: nonempty, of path characters, without a slash.
abbrev pub IsComponent : Str → Type 0
IsComponent t = IsToken slash t × All IsPathChar t

abbrev pub IsComponents : List Str → Type 0
IsComponents ts = All IsComponent ts

-- The absolute path with these components, and no separator to spare.
pub render : List Str → Str
render [] = slash ∷ []
render (t ∷ ts) = flat slash (t ∷ ts)

pub all_path_chars-All : (s : Str) → All IsPathChar s → all_path_chars s ≡ true
unfolding all_path_chars
all_path_chars-All [] h = refl
all_path_chars-All (c ∷ s) h = rw h.0 (all_path_chars-All s h.1)

pub All-all_path_chars : (s : Str) → all_path_chars s ≡ true → All IsPathChar s
unfolding all_path_chars
All-all_path_chars [] h = tt
All-all_path_chars (c ∷ s) h = ground (arith, All-all_path_chars s)

pub All-tokens : (ts : List Str) → IsComponents ts → All (IsToken slash) ts
All-tokens [] h = tt
All-tokens (t ∷ ts) h = (h.0.0, All-tokens ts h.1)

pub All-append_chars : (s t : Str) → All IsPathChar s → All IsPathChar t → All IsPathChar (s ++ t)
All-append_chars [] t hs ht = ht
All-append_chars (c ∷ s) t hs ht = (hs.0, All-append_chars s t hs.1 ht)

pub slash-IsPathChar : is_path_char slash ≡ true
unfolding is_path_char
slash-IsPathChar = refl

pub flat-chars : (ts : List Str) → IsComponents ts → All IsPathChar (flat slash ts)
unfolding flat
flat-chars [] h = tt
flat-chars (t ∷ ts) h =
    (slash-IsPathChar, All-append_chars t (flat slash ts) h.0.1 (flat-chars ts h.1))

-- A path in normal form is absolute.
pub path_isabs-render : (ts : List Str) → IsComponents ts → path_isabs (some (render ts)) ≡ true
unfolding path_isabs path_isvalid render flat all_path_chars
path_isabs-render [] h = rw slash-IsPathChar refl
path_isabs-render (t ∷ ts) h =
    ground (arith, all_path_chars-All (flat slash (t ∷ ts)) (flat-chars (t ∷ ts) h))

-- Its tokens are its components.
pub tokens-render : (ts : List Str) → IsComponents ts → tokens (slash ∷ []) (render ts) ≡ ts
unfolding render tokens
tokens-render [] h = refl
tokens-render (t ∷ ts) h = tokens-flat slash (t ∷ ts) (All-tokens (t ∷ ts) h)

-- A component is not an absolute path.
path_isabs-component : (t : Str) → IsComponent t → path_isabs (some t) ≡ false
unfolding path_isabs
path_isabs-component [] h = absurd (omega arith)
path_isabs-component (c ∷ t) h = ground arith

-- The list without its last entry.
unfoldable pub drop_last {ℓ} : {A : Type ℓ} → List A → List A
drop_last [] = []
drop_last (x ∷ []) = []
drop_last (x ∷ y ∷ r) = x ∷ drop_last (y ∷ r)

ends-append :
    (s t : Str) (m : Memory) → 0 < length t → ends_with_slash (s ++ t) m ≡ ends_with_slash t m
unfolding ends_with_slash
ends-append s [] m h = elim h [ ]
ends-append [] (c ∷ t) m h = refl
ends-append (d ∷ []) (c ∷ t) m h = refl
ends-append (d ∷ e ∷ s) (c ∷ t) m h = ends-append (e ∷ s) (c ∷ t) m h

ends-Free : (t : Str) (m : Memory) → IsToken slash t → ends_with_slash t m ≡ ok false m
unfolding ends_with_slash
ends-Free [] m h = absurd (omega arith)
ends-Free (c ∷ []) m h = ground arith
ends-Free (c ∷ d ∷ t) m h = ends-Free (d ∷ t) m (omega arith, h.1.1)

ends-flat :
    (t : Str) (ts : List Str) (m : Memory)
    → IsComponents (t ∷ ts)
    → ends_with_slash (flat slash (t ∷ ts)) m ≡ ok false m
unfolding flat
ends-flat t [] m h = rw append-nil (ends-append (slash ∷ []) t m h.0.0.0 ∙ ends-Free t m h.0.0)
ends-flat t (u ∷ us) m h =
    ends-append (slash ∷ t) (flat slash (u ∷ us)) m (omega arith) ∙ ends-flat u us m h.1

flat-append : (ts us : List Str) → flat slash (ts ++ us) ≡ flat slash ts ++ flat slash us
unfolding flat
flat-append [] us = refl
flat-append (t ∷ ts) us = ap (◌∷◌ slash) (rw (flat-append ts us, append_assoc) refl)

render-append :
    (ts : List Str) (t u : Str) → render ((u ∷ ts) ++ t ∷ []) ≡ render (u ∷ ts) ++ slash ∷ t
unfolding render flat
render-append ts t u =
    rw (flat-append ts (t ∷ []), append-nil)
      (ap (◌∷◌ slash) (sym (append_assoc u (flat slash ts) (slash ∷ t))))

pub copy-plenty : (s : Str) → copy s [] ≡ ok (some s) []
unfolding copy malloc
copy-plenty s = refl

pub ends-render :
    (u : Str) (ts : List Str) (m : Memory)
    → IsComponents (u ∷ ts)
    → ends_with_slash (render (u ∷ ts)) m ≡ ok false m
unfolding render
ends-render u ts m h = ends-flat u ts m h

pub render-nil : render [] ≡ slash ∷ []
unfolding render
render-nil = refl

pub render-cons : (t : Str) (ts : List Str) → render (t ∷ ts) ≡ flat slash (t ∷ ts)
unfolding render
render-cons t ts = refl

pub join-root :
    (t : Str)
    → IsComponent t
    → path_join2 (some (slash ∷ [])) (some t) [] ≡ ok (some (render (t ∷ []))) []
unfolding path_join2 ends_with_slash render flat copy malloc
join-root t k = rw (path_isabs-component t k, append-nil)

-- Joining a path in normal form with one more component adds that component.
pub path_join2-render :
    (ts : List Str) (t : Str)
    → IsComponents ts
    → IsComponent t
    → path_join2 (some (render ts)) (some t) [] ≡ ok (some (render (ts ++ t ∷ []))) []
unfolding path_join2
path_join2-render [] t h k = rw render-nil (join-root t k)
path_join2-render (u ∷ ts) t h k =
    rw (path_isabs-component t k, ends-render u ts [] h, render-append ts t u) (copy-plenty _)

-- The components of an absolute path.
pub tokens-IsComponents :
    (p : Str) → path_isabs (some p) ≡ true → IsComponents (tokens (slash ∷ []) p)
unfolding path_isabs path_isvalid
tokens-IsComponents p h =
    both (tokens (slash ∷ []) p) (tokens-IsToken slash p)
      (tokens-All slash IsPathChar p (All-all_path_chars p (ground arith)))
  where
    both : (ts : List Str) → All (IsToken slash) ts → All (All IsPathChar) ts → IsComponents ts
    both [] a b = tt
    both (t ∷ ts) a b = ((a.0, b.0), both ts a.1 b.1)

pub drop_last-IsComponents : (ts : List Str) → IsComponents ts → IsComponents (drop_last ts)
unfolding drop_last
drop_last-IsComponents [] h = tt
drop_last-IsComponents (t ∷ []) h = tt
drop_last-IsComponents (t ∷ u ∷ ts) h = (h.0, drop_last-IsComponents (u ∷ ts) h.1)

-- What `ret` is in path_dirname after the components `ts`: NULL, or the path so far.
ret_of : List Str → Ptr
ret_of [] = none
ret_of (t ∷ ts) = some (render (t ∷ ts))

ret_of-append : (ts : List Str) (t : Str) → ret_of (ts ++ t ∷ []) ≡ some (render (ts ++ t ∷ []))
unfolding ret_of
ret_of-append [] t = refl
ret_of-append (u ∷ ts) t = refl

or_default-ret_of :
    (p : Str) (ts : List Str) → path_isabs (some p) ≡ true → or_default p (ret_of ts) ≡ render ts
unfolding ret_of render
or_default-ret_of p [] h = rw h
or_default-ret_of p (t ∷ ts) h = refl

dirname_loop-abs :
    (p : Str) (rest ts : List Str) (t : Str)
    → path_isabs (some p) ≡ true
    → IsComponents ts
    → IsComponents (t ∷ rest)
    → dirname_loop p rest (some t) (ret_of ts) []
      ≡ ok (some (ret_of (ts ++ drop_last (t ∷ rest)))) []
unfolding dirname_loop drop_last ret_of
dirname_loop-abs p [] ts t h c k = rw append-nil refl
dirname_loop-abs p (u ∷ rest) [] t h c k =
    rw (h, join-root t k.0) (dirname_loop-abs p rest (t ∷ []) u h (k.0, tt) k.1)
dirname_loop-abs p (u ∷ rest) (v ∷ ts) t h c k = rw (path_join2-render (v ∷ ts) t c k.0) (
    dirname_loop-abs p rest ((v ∷ ts) ++ t ∷ []) u h
      (All-append IsComponent (v ∷ ts) (t ∷ []) c (k.0, tt)) k.1
    ∙ ap (λ l. ok (some (ret_of l)) []) (append_assoc (v ∷ ts) (t ∷ []) (drop_last (u ∷ rest))))

dirname_loop-start :
    (p : Str) (ts : List Str)
    → path_isabs (some p) ≡ true
    → IsComponents ts
    → dirname_loop p ts none none [] ≡ ok (some (ret_of (drop_last ts))) []
unfolding dirname_loop drop_last ret_of
dirname_loop-start p [] h k = refl
dirname_loop-start p (t ∷ ts) h k = dirname_loop-abs p ts [] t h tt k

-- path_dirname drops the last component of an absolute path, and normalises separators.
pub path_dirname-abs :
    (p : Str)
    → path_isabs (some p) ≡ true
    → path_dirname (some p) [] ≡ ok (some (render (drop_last (tokens (slash ∷ []) p)))) []
unfolding path_dirname malloc
path_dirname-abs p h =
    rw
      (
        dirname_loop-start p (tokens (slash ∷ []) p) h (tokens-IsComponents p h),
        or_default-ret_of p (drop_last (tokens (slash ∷ []) p)) h,
      )
      (copy-plenty _)
