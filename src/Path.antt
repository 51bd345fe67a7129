-- ===== src/Path.antt =====
-- The functions of pintos/src/filesys/path.c that work on path names. Turning interrupts off and
-- on is left out: it does not change what they return.
pub mod Norm
pub mod Resolve
pub mod Split
pub mod Abs
mod Tests
use course_cs439_operating_s.Base.{
  ℕ, Bool, true, false, ◌&&◌, ◌||◌, Option, none, some, List, [], ◌∷◌, ◌++◌, ltb, leb, ◌==◌,
  if◌then◌else◌, length,
}
use course_cs439_operating_s.CString.{
  Str, Ptr, ok, panic, fault, Cmd, pure, ◌>>=◌, malloc, copy, tokens,
}

abbrev pub slash : ℕ
slash = b'/'

abbrev pub dot : ℕ
dot = b'.'

unfoldable pub is_path_char : ℕ → Bool
is_path_char c =
    (c == 45)
    || (c == 46)
    || (c == 47)
    || (leb 48 c && leb c 57)
    || (leb 65 c && leb c 90)
    || (c == 95)
    || (leb 97 c && leb c 122)

-- The loop of path_isvalid: it stops at the first bad character.
unfoldable pub all_path_chars : Str → Bool
all_path_chars [] = true
all_path_chars (c ∷ s) = is_path_char c && all_path_chars s

unfoldable pub path_isvalid : Ptr → Bool
path_isvalid none = false
path_isvalid (some s) = ltb 0 (length s) && all_path_chars s

-- `path[0] == c` and `path[1] == c`, after the length has been tested.
abbrev pub first_is : ℕ → Str → Bool
first_is c [] = false
first_is c (d ∷ s) = d == c

abbrev pub second_is : ℕ → Str → Bool
second_is c [] = false
second_is c (d ∷ s) = first_is c s

pub path_isabs : Ptr → Bool
path_isabs none = path_isvalid none
path_isabs (some s) = path_isvalid (some s) && first_is slash s

pub path_isroot : Ptr → Bool
path_isroot none = path_isvalid none
path_isroot (some s) = path_isvalid (some s) && (length s == 1) && first_is slash s

pub path_isdot : Ptr → Bool
path_isdot none = path_isvalid none
path_isdot (some s) = path_isvalid (some s) && (length s == 1) && first_is dot s

pub path_isdotdot : Ptr → Bool
path_isdotdot none = path_isvalid none
path_isdotdot (some s) =
    path_isvalid (some s) && (length s == 2) && first_is dot s && second_is dot s

-- `path1[strlen (path1) - 1] == '/'`; the empty string is read out of bounds.
pub ends_with_slash : Str → Cmd Bool
ends_with_slash [] m = fault
ends_with_slash (c ∷ []) m = ok (c == slash) m
ends_with_slash (c ∷ d ∷ s) m = ends_with_slash (d ∷ s) m

pub path_join2 : Ptr → Ptr → Cmd Ptr
path_join2 none none = λ m. panic
path_join2 (some p) none = copy p
path_join2 none (some q) = copy q
path_join2 (some p) (some q) =
    if path_isabs (some q)
    then copy q
    else do ended ← ends_with_slash p; if ended then copy (p ++ q) else copy (p ++ slash ∷ q)

-- What path_normpath, path_dirname and path_basename return when the walk has set no result.
abbrev pub or_default : Str → Ptr → Str
or_default path (some s) = s
or_default path none = if path_isabs (some path) then slash ∷ [] else dot ∷ []

-- The loop of path_dirname over the tokens: `token` is the one before, `ret` the path so far.
-- `none` as a result is the early `return NULL`.
pub dirname_loop : Str → List Str → (token ret : Ptr) → Cmd (Option Ptr)
dirname_loop path [] token ret = pure (some ret)
dirname_loop path (sentry ∷ rest) none ret = dirname_loop path rest (some sentry) ret
dirname_loop path (sentry ∷ rest) (some token) none =
    if path_isabs (some path)
    then (do
      r ← path_join2 (some (slash ∷ [])) (some token)
      elim r [ none ↦ pure none | some s ↦ dirname_loop path rest (some sentry) (some s) ])
    else dirname_loop path rest (some sentry) (some token)
dirname_loop path (sentry ∷ rest) (some token) (some ret) = do
  r ← path_join2 (some ret) (some token)
  elim r [ none ↦ pure none | some s ↦ dirname_loop path rest (some sentry) (some s) ]

pub path_dirname : Ptr → Cmd Ptr
path_dirname none = pure none
path_dirname (some path) = do
  tempname ← malloc
  if tempname
      then (do
        r ← dirname_loop path (tokens (slash ∷ []) path) none none
        elim r [ none ↦ pure none | some ret ↦ copy (or_default path ret) ])
      else pure none

pub last_token : List Str → Ptr → Ptr
last_token [] ret = ret
last_token (token ∷ rest) ret = last_token rest (some token)

pub path_basename : Ptr → Cmd Ptr
path_basename none = pure none
path_basename (some path) = do
  tempname ← malloc
  if tempname
      then copy (or_default path (last_token (tokens (slash ∷ []) path) none))
      else pure none

-- One round of the loop of path_normpath; `none` is the early `return NULL`. A path_dirname that
-- runs out of memory leaves `ret` NULL, and the loop goes on.
pub normpath_round : Str → Str → Ptr → Cmd (Option Ptr)
normpath_round path token (some ret) =
    if path_isdotdot (some token)
    then (do r ← path_dirname (some ret); pure (some r))
    else if path_isdot (some token)
    then pure (some (some ret))
    else do
      r ← path_join2 (some ret) (some token)
      elim r [ none ↦ pure none | some s ↦ pure (some (some s)) ]
normpath_round path token none =
    if path_isdotdot (some token)
    then pure (some (some (if path_isabs (some path) then slash ∷ [] else token)))
    else if path_isdot (some token)
    then pure (some none)
    else if path_isabs (some path)
    then (do
      r ← path_join2 (some (slash ∷ [])) (some token)
      elim r [ none ↦ pure none | some s ↦ pure (some (some s)) ])
    else pure (some (some token))

pub normpath_loop : Str → List Str → Ptr → Cmd (Option Ptr)
normpath_loop path [] ret = pure (some ret)
normpath_loop path (token ∷ rest) ret = do
  r ← normpath_round path token ret
  elim r [ none ↦ pure none | some ret' ↦ normpath_loop path rest ret' ]

pub path_normpath : Ptr → Cmd Ptr
path_normpath none = pure none
path_normpath (some path) = do
  tempname ← malloc
  if tempname
      then (do
        r ← normpath_loop path (tokens (slash ∷ []) path) none
        elim r [ none ↦ pure none | some ret ↦ copy (or_default path ret) ])
      else λ m. panic

-- `cwd` is the `pwd` of the current thread, which path_cwd returns.
pub path_abspath : Str → Ptr → Cmd Ptr
path_abspath cwd path = do
  join ← path_join2 (some cwd) path
  elim join [ none ↦ pure none | some s ↦ path_normpath (some s) ]

-- The loop of path_join over its further arguments: `ret` may have become NULL.
pub join_loop : List Ptr → Ptr → Cmd Ptr
join_loop [] ret = pure ret
join_loop (p ∷ rest) ret = do r ← path_join2 ret p; join_loop rest r

pub path_join : Str → List Ptr → Cmd Ptr
path_join path1 rest = do got ← malloc; if got then join_loop rest (some path1) else λ m. panic
