-- ===== src/Inode/Reach.antt =====
-- What byte_to_inode of pintos/src/filesys/inode.c finds while prev_length is 0 in every node, which is all that
-- allocate_inode, inode_fill and inode_extend_link ever store there.
use course_cs439_operating_s.Base.{
  ℕ, ◌/◌, zero, suc, ◌-◌, ◌≤◌, ◌<◌, ◌≡◌, refl, inl, inr, true, false, Option, none, some, arith,
  ltb, leb, ◌==◌, if◌then◌else◌, Bool-cases, Option-cases,
}
use course_cs439_operating_s.Inode.{
  sector_size, byte_capacity, byte_to_sector, Node, ptr_exists, ptr_get_address, byte_to_inode,
}
use course_cs439_operating_s.Inode.Fill.{Backed}

-- The result finds no node.
abbrev pub NotFound : Option ((ℕ → Node) × Option ℕ) → Type 0
NotFound none = Unit {0}
NotFound (some (nodes, found)) = found ≡ none

abbrev pub NoPrevious : (ℕ → Node) → Type 0
NoPrevious nodes = (s : ℕ) → (nodes s).prev_length ≡ 0

opened : (ℕ → Node) → ℕ → ℕ → ℕ → Node
opened nodes sector next =
    λ s. if s == sector then record (nodes sector) { next = some next } else nodes s

opened-NoPrevious :
    (nodes : ℕ → Node) (sector next : ℕ) → NoPrevious nodes → NoPrevious (opened nodes sector next)
unfolding opened
opened-NoPrevious nodes sector next z s = elim (Bool-cases (s == sector)) [
  | inl e ↦ rw e (z sector)
  | inr e ↦ rw e (z s)
]

-- If prev_length is 0 in every node, byte_to_inode returns no node for a position of 124928,
-- the capacity of one node, or more, however long the chain of nodes is.
pub byte_to_inode-NotFound :
    (fuel : ℕ) (nodes : ℕ → Node) (sector pos : ℕ)
    → NoPrevious nodes
    → byte_capacity ≤ pos
    → NotFound (byte_to_inode fuel nodes sector pos)
unfolding byte_to_inode opened
byte_to_inode-NotFound zero nodes sector pos z h = tt
byte_to_inode-NotFound (suc fuel) nodes sector pos z h =
    elim (Bool-cases (ltb pos (nodes sector).file_length)) [
      | inr past ↦ rw (byte_to_inode, past) refl
      | inl inside ↦
          let prev : leb (nodes sector).prev_length pos ≡ true = ground (arith, z sector) in
          let beyond : ltb (pos - (nodes sector).prev_length) byte_capacity ≡ false =
            ground (arith, z sector) in
          elim (Option-cases (nodes sector).next) [
            | inr (next, e) ↦ elim (Bool-cases (next == sector)) [
              | inl same ↦ rw (byte_to_inode, inside, prev, beyond, e, same) tt
              | inr apart ↦
                  rw (byte_to_inode, inside, prev, beyond, e, apart)
                    (byte_to_inode-NotFound fuel nodes next pos z h)
            ]
            | inl e ↦ elim (Bool-cases (ptr_exists (nodes sector).doubleptr)) [
              | inr last ↦ rw (byte_to_inode, inside, prev, beyond, e, last) refl
              | inl linked ↦
                  let next = ptr_get_address (nodes sector).doubleptr in
                  elim (Bool-cases ((nodes sector).sector == next)) [
                    | inl same ↦ rw (byte_to_inode, inside, prev, beyond, e, linked, same) tt
                    | inr apart ↦
                        rw (byte_to_inode, inside, prev, beyond, e, linked, apart)
                          (byte_to_inode-NotFound fuel (opened nodes sector next) next pos
                            (opened-NoPrevious nodes sector next z) h)
                  ]
            ]
          ]
    ]

found_here :
    (fuel : ℕ) (nodes : ℕ → Node) (sector pos : ℕ)
    → (nodes sector).prev_length ≡ 0
    → pos < (nodes sector).file_length
    → pos < byte_capacity
    → byte_to_inode (suc fuel) nodes sector pos ≡ some (nodes, some sector)
unfolding byte_to_inode
found_here fuel nodes sector pos z inside small =
    let within : ltb pos (nodes sector).file_length ≡ true = ground arith in
    let prev : leb (nodes sector).prev_length pos ≡ true = ground (arith, z) in
    let near : ltb (pos - (nodes sector).prev_length) byte_capacity ≡ true = ground (arith, z) in
    rw (byte_to_inode, within, prev, near)

-- In the first node of a file, with prev_length 0 and a block for every byte of it, byte_to_sector gives
-- for each byte of the node the sector that its block pointer names, and opens no node.
pub byte_to_sector-Backed :
    (fuel : ℕ) (nodes : ℕ → Node) (sector pos : ℕ)
    → (nodes sector).prev_length ≡ 0
    → Backed (nodes sector)
    → (nodes sector).node_length ≤ byte_capacity
    → pos < (nodes sector).node_length
    → pos < (nodes sector).file_length
    → byte_to_sector (suc fuel) nodes sector pos
      ≡ some (nodes, some (ptr_get_address ((nodes sector).blockptrs (pos / sector_size))))
unfolding byte_to_sector
byte_to_sector-Backed fuel nodes sector pos z b le lt inside =
    let found = found_here fuel nodes sector pos z inside (omega arith) in
    let local : pos - (nodes sector).prev_length ≡ pos = omega (arith, z) in
    let block : ptr_exists ((nodes sector).blockptrs (pos / sector_size)) ≡ true =
      b (pos / sector_size) (omega arith) in
    rw (byte_to_sector, found, local, block)
