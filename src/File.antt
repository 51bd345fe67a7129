-- ===== src/File.antt =====
-- Open files on one inode: pintos/src/filesys/file.c, and the counters of an open inode in
-- pintos/src/filesys/inode.c. `none` as a result is a failed ASSERT. The list of open inodes and the release
-- of the nodes behind the first are left out.
pub mod Deny
mod Tests
use course_cs439_operating_s.Base.{
  ℕ, zero, suc, ◌+◌, ◌-◌, Bool, true, false, ◌&&◌, Option, none, some, List, [], ◌∷◌, ltb, leb,
  ◌==◌, if◌then◌else◌,
}

-- The counters of struct inode.
pub record OpenInode : Type 0 where
  pub open_cnt : ℕ
  pub deny_write_cnt : ℕ
  pub removed : Bool

-- struct file without its inode.
pub record File : Type 0 where
  pub pos : ℕ
  pub deny_write : Bool

pub inode_reopen : OpenInode → OpenInode
inode_reopen n = record n { open_cnt = suc n.open_cnt }

pub inode_remove : OpenInode → OpenInode
inode_remove n = record n { removed = true }

-- What is left of an inode that is closed: `gone` tells whether its sector was released.
pub data Closed : Type 0 where
  kept : OpenInode → Closed
  gone : (freed : Bool) → Closed

-- Of an inode that is open.
pub inode_close : OpenInode → Closed
inode_close n =
    if n.open_cnt - 1 == 0 then gone n.removed else kept (record n { open_cnt = n.open_cnt - 1 })

pub inode_deny_write : OpenInode → Option OpenInode
inode_deny_write n =
    if leb (suc n.deny_write_cnt) n.open_cnt
    then some (record n { deny_write_cnt = suc n.deny_write_cnt })
    else none

pub inode_allow_write : OpenInode → Option OpenInode
inode_allow_write n =
    if ltb 0 n.deny_write_cnt && leb n.deny_write_cnt n.open_cnt
    then some (record n { deny_write_cnt = n.deny_write_cnt - 1 })
    else none

-- file_open of an inode that is not NULL, which it closes if calloc fails.
pub file_open : (calloc_ok : Bool) → OpenInode → Closed × Option File
file_open calloc_ok n =
    if calloc_ok
    then (kept n, some (record { pos = 0; deny_write = false }))
    else (inode_close n, none)

pub file_reopen : (calloc_ok : Bool) → OpenInode → Closed × Option File
file_reopen calloc_ok n = file_open calloc_ok (inode_reopen n)

pub file_deny_write : OpenInode → File → Option (OpenInode × File)
file_deny_write n f = if f.deny_write then some (n, f) else elim (inode_deny_write n) [
  | none ↦ none
  | some n' ↦ some (n', record f { deny_write = true })
]

pub file_allow_write : OpenInode → File → Option (OpenInode × File)
file_allow_write n f =
    if f.deny_write
    then elim (inode_allow_write n) [
      | none ↦ none
      | some n' ↦ some (n', record f { deny_write = false })
    ]
    else some (n, f)

pub file_close : OpenInode → File → Option Closed
file_close n f = elim (file_allow_write n f) [ none ↦ none | some (n', f') ↦ some (inode_close n') ]

pub file_seek : File → ℕ → File
file_seek f new_pos = record f { pos = new_pos }

-- The files without the one at `i`, which file_close frees.
pub without : List File → ℕ → List File
without [] i = []
without (f ∷ fs) zero = fs
without (f ∷ fs) (suc i) = f ∷ without fs i
