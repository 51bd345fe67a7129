-- ===== src/File/Deny.antt =====
-- Writes to an inode are denied as often as open files deny them: file_deny_write, file_allow_write and
-- file_close of pintos/src/filesys/file.c.
use course_cs439_operating_s.Base.{
  ℕ, zero, suc, ◌+◌, ◌-◌, ◌≤◌, ◌<◌, ◌≡◌, refl, inl, inr, Bool, true, false, some, List, [], ◌∷◌,
  arith, ltb, leb, ◌==◌, Bool-cases, length, get_elem?, set, length-set,
}
use mathlib.Core.Path.{subst}
use course_cs439_operating_s.File.{
  OpenInode, File, Closed, kept, gone, inode_close, inode_deny_write, inode_allow_write,
  file_deny_write, file_allow_write, file_close, without,
}

abbrev pub one_if : Bool → ℕ
one_if true = 1
one_if false = 0

-- How many of the files deny writes.
abbrev pub denying : List File → ℕ
denying [] = 0
denying (f ∷ fs) = one_if f.deny_write + denying fs

-- The counters of an inode with these open files; it may have other openers that deny nothing.
pub record Counted (n : OpenInode) (fs : List File) : Type 0 where
  pub denied : n.deny_write_cnt ≡ denying fs
  pub opened : length fs ≤ n.open_cnt

denying-length : (fs : List File) → denying fs ≤ length fs
denying-length [] = omega arith
denying-length (f ∷ fs) = elim (Bool-cases f.deny_write) [
  | inl e ↦ rw e (omega (arith, denying-length fs))
  | inr e ↦ rw e (omega (arith, denying-length fs))
]

denying-set :
    (fs : List File) (i : ℕ) (f g : File)
    → get_elem? fs i ≡ some f
    → denying (set fs i g) + one_if f.deny_write ≡ denying fs + one_if g.deny_write
denying-set [] i f g h = cc
denying-set (x ∷ fs) zero f g h =
    let same : one_if x.deny_write ≡ one_if f.deny_write = cc in omega (arith, same)
denying-set (x ∷ fs) (suc i) f g h = omega (arith, denying-set fs i f g h)

denying-without :
    (fs : List File) (i : ℕ) (f : File)
    → get_elem? fs i ≡ some f
    → (denying (without fs i) + one_if f.deny_write ≡ denying fs)
      × (suc (length (without fs i)) ≡ length fs)
unfolding without
denying-without [] i f h = cc
denying-without (x ∷ fs) zero f h =
    let same : one_if x.deny_write ≡ one_if f.deny_write = cc in (omega (arith, same), refl)
denying-without (x ∷ fs) (suc i) f h =
    let (d, l) = denying-without fs i f h in (omega (arith, d), omega (arith, l))

-- If an inode's counters fit its open files, file_deny_write of one of them fails no ASSERT; the file then
-- denies writes, and the counters fit the files again.
pub file_deny_write-Counted :
    (n : OpenInode) (fs : List File) (i : ℕ) (f : File)
    → Counted n fs
    → get_elem? fs i ≡ some f
    → (n' : OpenInode) × (f' : File) × (file_deny_write n f ≡ some (n', f'))
      × (f'.deny_write ≡ true)
      × Counted n' (set fs i f')
unfolding file_deny_write inode_deny_write
file_deny_write-Counted n fs i f c h = elim (Bool-cases f.deny_write) [
  | inl e ↦
      let d = denying-set fs i f f h in
      (
        n,
        f,
        rw e,
        e,
        record {
          denied = omega (arith, c.denied, d);
          opened = omega (arith, c.opened, length-set fs i f);
        },
      )
  | inr e ↦
      let g : File = record f { deny_write = true } in
      let d = rw e at (denying-set fs i f g h) in
      let few = denying-length (set fs i g) in
      let room : leb (suc n.deny_write_cnt) n.open_cnt ≡ true =
        ground (arith, c.denied, c.opened, d, few, length-set fs i g) in
      (
        record n { deny_write_cnt = suc n.deny_write_cnt },
        g,
        rw (e, room),
        refl,
        record {
          denied = omega (arith, c.denied, d);
          opened = omega (arith, c.opened, length-set fs i g);
        },
      )
]

-- If an inode's counters fit its open files, file_allow_write of one of them fails no ASSERT; the file then
-- denies no writes, the counters fit the files again, and the inode is open as often and removed or
-- not as before.
pub file_allow_write-Counted :
    (n : OpenInode) (fs : List File) (i : ℕ) (f : File)
    → Counted n fs
    → get_elem? fs i ≡ some f
    → (n' : OpenInode) × (f' : File) × (file_allow_write n f ≡ some (n', f'))
      × (f'.deny_write ≡ false)
      × Counted n' (set fs i f')
      × (n'.open_cnt ≡ n.open_cnt)
      × (n'.removed ≡ n.removed)
unfolding file_allow_write inode_allow_write
file_allow_write-Counted n fs i f c h = elim (Bool-cases f.deny_write) [
  | inr e ↦
      let d = denying-set fs i f f h in
      (
        n,
        f,
        rw e,
        e,
        record {
          denied = omega (arith, c.denied, d);
          opened = omega (arith, c.opened, length-set fs i f);
        },
        refl,
        refl,
      )
  | inl e ↦
      let g : File = record f { deny_write = false } in
      let d = rw e at (denying-set fs i f g h) in
      let some_deny : ltb 0 n.deny_write_cnt ≡ true = ground (arith, c.denied, d) in
      let few : leb n.deny_write_cnt n.open_cnt ≡ true =
        ground (arith, c.denied, c.opened, denying-length fs) in
      (
        record n { deny_write_cnt = n.deny_write_cnt - 1 },
        g,
        rw (e, some_deny, few),
        refl,
        record {
          denied = omega (arith, c.denied, d);
          opened = omega (arith, c.opened, length-set fs i g);
        },
        refl,
        refl,
      )
]

-- What is left of an inode fits the files that are left.
abbrev pub Left : Closed → List File → Bool → Type 0
Left (kept n) fs removed = Counted n fs
Left (gone freed) fs removed = (fs ≡ []) × (freed ≡ removed)

close_eq :
    (n n' : OpenInode) (f f' : File)
    → file_allow_write n f ≡ some (n', f')
    → file_close n f ≡ some (inode_close n')
unfolding file_close
close_eq n n' f f' h = rw (file_close, h)

empty_of_length : (fs : List File) → length fs ≡ 0 → fs ≡ []
empty_of_length [] h = refl
empty_of_length (f ∷ fs) h = absurd (omega arith)

close-Left :
    (n : OpenInode) (fs fs' : List File)
    → Counted n fs'
    → 0 < n.open_cnt
    → length fs < n.open_cnt
    → denying fs ≡ denying fs'
    → Left (inode_close n) fs n.removed
unfolding inode_close
close-Left n fs fs' c few small d = elim (Bool-cases (n.open_cnt - 1 == 0)) [
  | inl last ↦ rw last (empty_of_length fs (ground arith), refl)
  | inr more ↦ rw more (record { denied = omega (arith, c.denied, d); opened = omega arith })
]

-- If an inode's counters fit its open files, file_close of one of them fails no ASSERT: the counters fit
-- the files that are left, and if the inode is gone then no file was left and its sector was released exactly if it had
-- been removed.
pub file_close-Left :
    (n : OpenInode) (fs : List File) (i : ℕ) (f : File)
    → Counted n fs
    → get_elem? fs i ≡ some f
    → (r : Closed) × (file_close n f ≡ some r) × Left r (without fs i) n.removed
file_close-Left n fs i f c h =
    let (n', f', allowed, quiet, c', same, removed) = file_allow_write-Counted n fs i f c h in
    let d = rw quiet at (denying-set fs i f f' h) in
    let (d', l) = denying-without fs i f h in
    let left =
      close-Left n' (without fs i) (set fs i f') c' (omega (arith, c.opened))
        (omega (arith, c.opened)) (omega (arith, d, d')) in
    (
      inode_close n',
      close_eq n n' f f' allowed,
      subst (λ b. Left (inode_close n') (without fs i) b) removed left,
    )
