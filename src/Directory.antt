-- ===== src/Directory.antt =====
-- The entries of a directory: lookup, and what dir_add, dir_create, dir_remove, dir_readdir and dir_is_empty do to
-- the directory that they found, in pintos/src/filesys/directory.c. A directory is the list of the whole
-- entries in its file; the offset of an entry is its index times the size of one. `written` tells
-- whether inode_write_at wrote the whole entry, and `none` as the result of dir_create is an access through NULL.
pub mod Names
pub mod Entries
pub mod Change
mod Tests
use course_cs439_operating_s.Base.{
  ℕ, zero, suc, ◌+◌, Bool, true, false, ◌&&◌, ◌||◌, not, Option, none, some, List, [], ◌∷◌, ◌++◌,
  ltb, ◌==◌, if◌then◌else◌, length, set, ◌>>=◌, ◌>>◌, assert,
}
use course_cs439_operating_s.CString.{Str}
use course_cs439_operating_s.Path.{path_isvalid}

abbrev pub name_max : ℕ
name_max = 14

pub record DirEntry : Type 0 where
  pub inode_sector : ℕ
  pub name : Str
  pub in_use : Bool
  pub is_dir : Bool

-- `!strcmp (a, b)`
pub equal : Str → Str → Bool
equal [] [] = true
equal [] (d ∷ b) = false
equal (c ∷ a) [] = false
equal (c ∷ a) (d ∷ b) = (c == d) && equal a b

-- strlcpy into a buffer of `size + 1` characters.
pub cut : (size : ℕ) → Str → Str
cut zero s = []
cut (suc size) [] = []
cut (suc size) (c ∷ s) = c ∷ cut size s

-- The loop of lookup: the entry and its index.
pub lookup_loop : Str → (ofs : ℕ) → List DirEntry → Option (DirEntry × ℕ)
lookup_loop name ofs [] = none
lookup_loop name ofs (e ∷ es) =
    let later = lookup_loop name (suc ofs) es in
    if e.in_use && equal name e.name then some (e, ofs) else later

pub lookup : List DirEntry → Str → Option (DirEntry × ℕ)
lookup dir name = if path_isvalid (some name) then lookup_loop name 0 dir else none

-- The loop that looks for a free slot, up to the end of the file.
pub free_slot : (ofs : ℕ) → List DirEntry → ℕ
free_slot ofs [] = ofs
free_slot ofs (e ∷ es) = let later = free_slot (suc ofs) es in if e.in_use then later else ofs

-- inode_write_at of a whole entry, which may grow the file by one.
pub write_entry : List DirEntry → (ofs : ℕ) → DirEntry → List DirEntry
write_entry dir ofs e = if ltb ofs (length dir) then set dir ofs e else dir ++ e ∷ []

abbrev pub new_entry : (is_dir : Bool) → Str → ℕ → DirEntry
new_entry is_dir name sector = record {
  inode_sector = sector;
  name = cut name_max name;
  in_use = true;
  is_dir = is_dir;
}

pub add_entry : (is_dir written : Bool) → List DirEntry → Str → ℕ → List DirEntry × Bool
add_entry is_dir written dir name sector = elim (lookup dir name) [
  | some _ ↦ (dir, false)
  | none ↦
      if written
      then (write_entry dir (free_slot 0 dir) (new_entry is_dir name sector), true)
      else (dir, false)
]

-- dir_add with the directory that its path leads to.
pub dir_add : (written : Bool) → List DirEntry → Str → ℕ → List DirEntry × Bool
dir_add = add_entry false

-- dir_create with the directory that its path leads to: after the entry, the index node of the new directory.
-- `opened` tells whether inode_open gives a node, whose mark is set without a test, and `created` is what
-- inode_create returns.
pub dir_create :
    (written opened created : Bool) → List DirEntry → Str → ℕ → Option (List DirEntry × Bool)
dir_create written opened created dir name sector = do
  let (dir', success) = add_entry true written dir name sector
  assert (not success || opened)
  some (dir', success && created)

-- dir_remove with the directory that its path leads to. `opened` is what inode_open gives for the entry's
-- sector: whether it is a directory, and how often it is open then.
pub dir_remove :
    (opened : ℕ → Option (Bool × ℕ)) (written : Bool) → List DirEntry → Str → List DirEntry × Bool
dir_remove opened written dir name = elim (lookup dir name) [
  | none ↦ (dir, false)
  | some (e, ofs) ↦ elim (opened e.inode_sector) [
    | none ↦ (dir, false)
    | some (is_dir, open_cnt) ↦
        if (is_dir && ltb 1 open_cnt) || not written
        then (dir, false)
        else (write_entry dir ofs (record e { in_use = false }), true)
  ]
]

-- The entries from the position on: the name that comes next, and the position after it.
pub dir_readdir : List DirEntry → (pos : ℕ) → Option Str × ℕ
dir_readdir [] pos = (none, pos)
dir_readdir (e ∷ es) pos =
    let later = dir_readdir es (suc pos) in
    if e.in_use then (some (cut name_max e.name), suc pos) else later

-- The loop of dir_is_empty.
pub dir_is_empty : List DirEntry → Bool
dir_is_empty [] = true
dir_is_empty (e ∷ es) = let rest = dir_is_empty es in if e.in_use then false else rest
