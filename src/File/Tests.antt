-- ===== src/File/Tests.antt =====
-- Three files on an inode, the second of which denies writes.
use course_cs439_operating_s.Base.{◌≡◌, refl, true, false, some, List, [], ◌∷◌, arith}
use course_cs439_operating_s.File.{
  OpenInode, File, kept, gone, inode_remove, inode_close, inode_reopen, file_open, file_reopen,
  file_seek,
}
use course_cs439_operating_s.File.Deny.{Counted}

abbrev plain : File
plain = record { pos = 0; deny_write = false }

abbrev denies : File
denies = record { pos = 10; deny_write = true }

abbrev three : List File
three = plain ∷ denies ∷ plain ∷ []

abbrev inode : OpenInode
inode = record { open_cnt = 3; deny_write_cnt = 1; removed = false }

reopened : file_reopen true inode ≡ (kept (record inode { open_cnt = 4 }), some plain)
unfolding file_reopen file_open inode_reopen
reopened = refl

removed_at_last :
    inode_close (inode_remove (record { open_cnt = 1; deny_write_cnt = 0; removed = false }))
    ≡ gone true
unfolding inode_close inode_remove
removed_at_last = refl

sought : file_seek plain 10 ≡ record { pos = 10; deny_write = false }
unfolding file_seek
sought = refl

three-Counted : Counted inode three
three-Counted = record { denied = refl; opened = omega arith }
