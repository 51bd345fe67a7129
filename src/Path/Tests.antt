-- ===== src/Path/Tests.antt =====
-- Runs of the path functions on the examples of their comments.
use course_cs439_operating_s.Base.{ℕ, ◌≡◌, refl, some, [], ◌∷◌}
use course_cs439_operating_s.CString.{codes, ok, malloc, copy, tokens}
use course_cs439_operating_s.Path.{
  slash, is_path_char, all_path_chars, path_isvalid, path_isabs, path_isdot, path_isdotdot,
  ends_with_slash, path_join2, dirname_loop, path_dirname, last_token, path_basename,
  normpath_round, normpath_loop, path_normpath, path_abspath,
}
use course_cs439_operating_s.Path.Norm.{render}
use course_cs439_operating_s.Path.Resolve.{resolve, path_normpath-resolve}

-- Opens what a run computes with.
runs : ℕ
unfolding malloc copy tokens is_path_char all_path_chars path_isvalid path_isabs path_isdot
    path_isdotdot ends_with_slash path_join2 dirname_loop path_dirname last_token path_basename
    normpath_round normpath_loop path_normpath path_abspath
runs = 0

normpath_mixed : path_normpath (some (codes "/a/./b//../c/")) [] ≡ ok (some (codes "/a/c")) []
unfolding runs
normpath_mixed = refl

-- A relative path that leaves its start is not kept: `../..` becomes `.`.
normpath_up_twice : path_normpath (some (codes "../..")) [] ≡ ok (some (codes ".")) []
unfolding runs
normpath_up_twice = refl

-- After a relative path has been left, `.` stays in front.
normpath_relative : path_normpath (some (codes "a/../b")) [] ≡ ok (some (codes "./b")) []
unfolding runs
normpath_relative = refl

dirname_sort : path_dirname (some (codes "/usr/bin/sort")) [] ≡ ok (some (codes "/usr/bin")) []
unfolding runs
dirname_sort = refl

basename_sort : path_basename (some (codes "/usr/bin/sort")) [] ≡ ok (some (codes "sort")) []
unfolding runs
basename_sort = refl

abspath_up : path_abspath (codes "/x/y") (some (codes "../z")) [] ≡ ok (some (codes "/x/z")) []
unfolding runs
abspath_up = refl

path_normpath-resolve_example :
    path_normpath (some (codes "/a/../b")) []
    ≡ ok (some (render (resolve [] (tokens (slash ∷ []) (codes "/a/../b"))))) []
unfolding runs
path_normpath-resolve_example = path_normpath-resolve (codes "/a/../b") refl
