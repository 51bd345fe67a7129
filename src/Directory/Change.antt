-- ===== src/Directory/Change.antt =====
-- Adding and removing an entry of a directory: pintos/src/filesys/directory.c.

use course_cs439_operating_s.Base.{
  ℕ, ◌<◌, ◌≤◌, ◌≡◌, refl, sym, ap, ◌∙◌, inl, inr, Bool, true, false, ◌&&◌, Option, none, some, List,
  arith, ltb, if◌then◌else◌, Bool-cases, length,
}
use course_cs439_operating_s.CString.{Str}
use course_cs439_operating_s.Path.{path_isvalid}
use course_cs439_operating_s.Directory.{
  DirEntry, name_max, equal, cut, lookup_loop, lookup, write_entry, new_entry, add_entry, dir_add,
  dir_create, dir_remove,
}
use course_cs439_operating_s.Directory.Names.{
  equal_sound, cut-short, length-cut, find, fill, clear, write-fill, find-fill, lookup_loop-find,
  lookup_loop-some,
}
use course_cs439_operating_s.Directory.Entries.{
  IsUnique, entry, entry-lookup, IsUnique-fill, find-clear, IsUnique-clear,
}

lookup_runs :
    (dir : List DirEntry) (name : Str)
    → path_isvalid (some name) ≡ true
    → lookup dir name ≡ lookup_loop name 0 dir
unfolding lookup
lookup_runs dir name v = rw v refl

add_runs :
    (is_dir : Bool) (dir : List DirEntry) (name : Str) (sector : ℕ)
    → path_isvalid (some name) ≡ true
    → find dir name ≡ none
    → add_entry is_dir true dir name sector ≡ (fill dir (new_entry is_dir name sector), true)
unfolding add_entry
add_runs is_dir dir name sector v absent =
    let nothing : lookup dir name ≡ none =
      lookup_runs dir name v ∙ lookup_loop-find name 0 dir absent in
    rw (add_entry, nothing) (ap (λ d. (d, true)) (write-fill dir _))

-- What the directory holds with a new entry: lookup finds it by its name and for every other valid name what it
-- found before, and still no two entries in use have one name.
pub record Added (is_dir : Bool) (dir : List DirEntry) (name : Str) (sector : ℕ)
    (dir' : List DirEntry) : Type 0 where
  pub looked_up :
      (other : Str)
      → path_isvalid (some other) ≡ true
      → entry (lookup dir' other) ≡ (
          if equal other name
          then some (new_entry is_dir name sector)
          else entry (lookup dir other))
  pub unique : IsUnique dir'

add_entry-Added :
    (is_dir : Bool) (dir : List DirEntry) (name : Str) (sector : ℕ)
    → IsUnique dir
    → path_isvalid (some name) ≡ true
    → length name ≤ 14
    → entry (lookup dir name) ≡ none
    → (dir' : List DirEntry) × (add_entry is_dir true dir name sector ≡ (dir', true))
      × Added is_dir dir name sector dir'
add_entry-Added is_dir dir name sector d v short absent =
    let e = new_entry is_dir name sector in
    let whole : cut name_max name ≡ name = cut-short 14 name short in
    let free : find dir name ≡ none = sym (entry-lookup dir name v) ∙ absent in
    let free' : find dir e.name ≡ none = ap (find dir) whole ∙ free in
    (
      fill dir e,
      add_runs is_dir dir name sector v free,
      record {
        looked_up = λ other w.
            entry-lookup (fill dir e) other w
            ∙ find-fill dir e other refl free'
            ∙ ap (λ n. if equal other n then some e else find dir other) whole
            ∙ ap (λ o. if equal other name then some e else o) (sym (entry-lookup dir other w));
        unique = IsUnique-fill dir e refl free' d;
      },
    )

create_runs :
    (created : Bool) (dir dir' : List DirEntry) (name : Str) (sector : ℕ)
    → add_entry true true dir name sector ≡ (dir', true)
    → dir_create true true created dir name sector ≡ some (dir', created)
unfolding dir_create
create_runs created dir dir' name sector e = rw e refl

-- If no two entries in use have one name, a valid name of at most 14 characters is not in use and the entry is
-- written, dir_add succeeds: lookup finds the new entry by its name and for every other valid name what it found
-- before, and still no two entries in use have one name. dir_create, if inode_open gives a node too,
-- leaves a new entry in the same way, and returns what inode_create returns.
pub add_entry-lookup :
    (dir : List DirEntry) (name : Str) (sector : ℕ)
    → IsUnique dir
    → path_isvalid (some name) ≡ true
    → length name ≤ 14
    → entry (lookup dir name) ≡ none
    → ((dir' : List DirEntry) × (dir_add true dir name sector ≡ (dir', true))
        × Added false dir name sector dir')
      × ((dir' : List DirEntry) × ((created : Bool)
            → dir_create true true created dir name sector ≡ some (dir', created))
          × Added true dir name sector dir')
unfolding dir_add
add_entry-lookup dir name sector d v short absent =
    let (dir', e, added) = add_entry-Added true dir name sector d v short absent in
    (
      add_entry-Added false dir name sector d v short absent,
      (dir', (λ created. create_runs created dir dir' name sector e), added),
    )

longer : (a b : Str) → length b < length a → equal a b ≡ false
longer a b h = elim (Bool-cases (equal a b)) [
  | inr apart ↦ apart
  | inl same ↦ absurd (omega (arith, ap length (equal_sound a b same), h))
]

long_entry :
    (is_dir : Bool) (dir : List DirEntry) (name : Str) (sector : ℕ)
    → path_isvalid (some name) ≡ true
    → 14 < length name
    → find dir name ≡ none
    → find dir (cut 14 name) ≡ none
    → (dir' : List DirEntry) × (add_entry is_dir true dir name sector ≡ (dir', true))
      × (entry (lookup dir' name) ≡ none)
long_entry is_dir dir name sector v long absent free =
    let e = new_entry is_dir name sector in
    let lost : equal name (cut 14 name) ≡ false =
      longer name (cut 14 name) (omega (arith, length-cut 14 name, long)) in
    (
      fill dir e,
      add_runs is_dir dir name sector v absent,
      entry-lookup (fill dir e) name v ∙ find-fill dir e name refl free ∙ rw lost absent,
    )

-- A valid name of more than 14 characters, neither itself nor cut to 14 characters in use, is not refused: where the
-- entry is written, dir_add succeeds, and dir_create, if inode_open gives a node too, returns what
-- inode_create returns, but lookup does not find the name afterwards.
pub add_entry-long :
    (dir : List DirEntry) (name : Str) (sector : ℕ)
    → path_isvalid (some name) ≡ true
    → 14 < length name
    → find dir name ≡ none
    → find dir (cut 14 name) ≡ none
    → ((dir' : List DirEntry) × (dir_add true dir name sector ≡ (dir', true))
        × (entry (lookup dir' name) ≡ none))
      × ((dir' : List DirEntry) × ((created : Bool)
            → dir_create true true created dir name sector ≡ some (dir', created))
          × (entry (lookup dir' name) ≡ none))
unfolding dir_add
add_entry-long dir name sector v long absent free =
    let (dir', e, lost) = long_entry true dir name sector v long absent free in
    (
      long_entry false dir name sector v long absent free,
      (dir', (λ created. create_runs created dir dir' name sector e), lost),
    )

remove_runs :
    (opened : ℕ → Option (Bool × ℕ)) (dir : List DirEntry) (name : Str) (e : DirEntry)
    (is_dir : Bool) (open_cnt j : ℕ)
    → lookup dir name ≡ some (e, j)
    → opened e.inode_sector ≡ some (is_dir, open_cnt)
    → (is_dir && ltb 1 open_cnt) ≡ false
    → dir_remove opened true dir name ≡ (write_entry dir j (record e { in_use = false }), true)
unfolding dir_remove
remove_runs opened dir name e is_dir open_cnt j found o free = rw (dir_remove, found, o, free) refl

-- If no two entries in use have one name, a valid name is found, its index node can be opened and is no
-- directory that is open elsewhere too, dir_remove, where the entry is written, succeeds: lookup does
-- not find the name any more and for every other valid name finds what it found before, and still no
-- two entries in use have one name.
pub dir_remove-lookup :
    (opened : ℕ → Option (Bool × ℕ)) (dir : List DirEntry) (name : Str) (e : DirEntry)
    (is_dir : Bool) (open_cnt : ℕ)
    → IsUnique dir
    → path_isvalid (some name) ≡ true
    → entry (lookup dir name) ≡ some e
    → opened e.inode_sector ≡ some (is_dir, open_cnt)
    → (is_dir && ltb 1 open_cnt) ≡ false
    → (dir' : List DirEntry) × (dir_remove opened true dir name ≡ (dir', true))
      × ((other : Str)
          → path_isvalid (some other) ≡ true
          → entry (lookup dir' other)
            ≡ (if equal other name then none else entry (lookup dir other)))
      × IsUnique dir'
dir_remove-lookup opened dir name e is_dir open_cnt d v found o free =
    let (j, looked, write) =
      lookup_loop-some name 0 dir e (sym (entry-lookup dir name v) ∙ found) in
    let at_j : lookup dir name ≡ some (e, j) =
      lookup_runs dir name v ∙ looked ∙ ap (λ k. some (e, k)) (omega arith) in
    (
      clear dir name,
      remove_runs opened dir name e is_dir open_cnt j at_j o free ∙ ap (λ es. (es, true)) write,
      (λ other w.
          entry-lookup (clear dir name) other w
          ∙ find-clear dir name other d
          ∙ ap (λ r. if equal other name then none else r) (sym (entry-lookup dir other w))),
      IsUnique-clear dir name d,
    )
