-- ===== src/Directory/Tests.antt =====
-- Runs on a directory with the file "a" in its first entry and a free second one.
use course_cs439_operating_s.Base.{
  ◌≡◌, refl, Bool, true, false, none, some, List, [], ◌∷◌, arith, if◌then◌else◌,
}
use course_cs439_operating_s.CString.{Str, codes}
use course_cs439_operating_s.Path.{path_isvalid, all_path_chars, is_path_char}
use course_cs439_operating_s.Directory.{
  DirEntry, equal, cut, lookup, lookup_loop, dir_add, dir_create, dir_remove, dir_readdir,
  dir_is_empty,
}
use course_cs439_operating_s.Directory.Names.{find}
use course_cs439_operating_s.Directory.Entries.{IsUnique, entry}
use course_cs439_operating_s.Directory.Change.{
  Added, add_entry-lookup, add_entry-long, dir_remove-lookup,
}

abbrev file_a : DirEntry
file_a = record { inode_sector = 30; name = codes "a"; in_use = true; is_dir = false }

abbrev files : List DirEntry
files = file_a ∷ record file_a { in_use = false } ∷ []

files-IsUnique : IsUnique files
unfolding find equal
files-IsUnique = ((λ h. refl), ((λ h. refl), tt))

add_entry-lookup_example :
    ((dir' : List DirEntry) × (dir_add true files (codes "b") 31 ≡ (dir', true))
      × Added false files (codes "b") 31 dir')
    × ((dir' : List DirEntry) × ((created : Bool)
          → dir_create true true created files (codes "b") 31 ≡ some (dir', created))
        × Added true files (codes "b") 31 dir')
unfolding path_isvalid all_path_chars is_path_char lookup lookup_loop equal
add_entry-lookup_example =
    add_entry-lookup files (codes "b") 31 files-IsUnique refl (omega arith) refl

abbrev long_name : Str
long_name = codes "abcdefghijklmnopq"

add_entry-long_example :
    ((dir' : List DirEntry) × (dir_add true files long_name 31 ≡ (dir', true))
      × (entry (lookup dir' long_name) ≡ none))
    × ((dir' : List DirEntry) × ((created : Bool)
          → dir_create true true created files long_name 31 ≡ some (dir', created))
        × (entry (lookup dir' long_name) ≡ none))
unfolding path_isvalid all_path_chars is_path_char find equal cut
add_entry-long_example = add_entry-long files long_name 31 refl (omega arith) refl refl

dir_remove-lookup_example :
    (dir' : List DirEntry) × (dir_remove (λ s. some (false, 2)) true files (codes "a")
      ≡ (dir', true))
    × ((other : Str)
        → path_isvalid (some other) ≡ true
        → entry (lookup dir' other)
          ≡ (if equal other (codes "a") then none else entry (lookup files other)))
    × IsUnique dir'
unfolding path_isvalid all_path_chars is_path_char lookup lookup_loop equal
dir_remove-lookup_example =
    dir_remove-lookup (λ s. some (false, 2)) files (codes "a") file_a false 2 files-IsUnique refl
      refl refl refl

listed : dir_readdir files 0 ≡ (some (codes "a"), 1)
unfolding dir_readdir cut
listed = refl

not_empty : dir_is_empty files ≡ false
unfolding dir_is_empty
not_empty = refl
