-- ===== src/Inode.antt =====
-- Index nodes: pintos/src/filesys/inode.c. A sector pointer is a number below 2 ^ 16; `& 0x3FFF` is written as
-- a remainder and `|` with a power of two as setting that binary digit. Nodes are told apart by
-- their sector. Positions and lengths are not negative.
pub mod Pointers
pub mod Fill
pub mod Reach
mod Tests
use course_cs439_operating_s.Base.{
  ℕ, zero, suc, ◌+◌, ◌-◌, ◌*◌, ◌/◌, ◌%◌, Bool, true, false, ◌&&◌, not, Option, none, some, List, [],
  ◌∷◌, ltb, leb, ◌==◌, if◌then◌else◌,
}

abbrev pub sector_size : ℕ
sector_size = 512

abbrev pub node_capacity : ℕ
node_capacity = 244

abbrev pub byte_capacity : ℕ
byte_capacity = 124928

pub ptr_create : ℕ → ℕ
ptr_create sector = sector % 0x4000

pub ptr_get_address : ℕ → ℕ
ptr_get_address ptr = ptr % 0x4000

-- `ptr & bit` for a power of two.
abbrev pub has_bit : (ptr bit : ℕ) → Bool
has_bit ptr bit = (ptr / bit) % 2 == 1

-- `ptr | bit` for a power of two.
abbrev pub or_bit : (ptr bit : ℕ) → ℕ
or_bit ptr bit = if has_bit ptr bit then ptr else ptr + bit

pub ptr_set_exist : ℕ → ℕ
ptr_set_exist ptr = or_bit ptr 0x8000

pub ptr_exists : ℕ → Bool
ptr_exists ptr = has_bit ptr 0x8000

pub ptr_set_isdir : ℕ → ℕ
ptr_set_isdir ptr = or_bit ptr 0x4000

pub ptr_isdir : ℕ → Bool
ptr_isdir ptr = has_bit ptr 0x4000

-- struct inode with its inode_disk, as far as the functions below use it; `next` is the sector of the
-- next node, `none` for NULL.
pub record Node : Type 0 where
  pub sector : ℕ
  pub file_length : ℕ
  pub prev_length : ℕ
  pub node_length : ℕ
  pub doubleptr : ℕ
  pub blockptrs : ℕ → ℕ
  pub next : Option ℕ

-- The disk: the sectors that free_map_allocate is to give, the sectors filled with zeros, the nodes.
pub record Disk : Type 0 where
  pub free : List ℕ
  pub zeroed : List ℕ
  pub nodes : ℕ → Node

abbrev pub set_ptr : (ℕ → ℕ) → ℕ → ℕ → ℕ → ℕ
set_ptr ptrs i v k = if k == i then v else ptrs k

-- The change that a round of the loop of inode_fill makes to the node, with the sector it was given.
pub take_sector : (sector_idx : ℕ) → Node → (bytes_left data_addr : ℕ) → Node × ℕ
take_sector sector_idx node bytes_left data_addr =
    let ptrs = set_ptr node.blockptrs sector_idx (ptr_set_exist (ptr_create data_addr)) in
    let diff = suc sector_idx * sector_size - node.node_length in
    if ltb bytes_left diff
    then (record node { blockptrs = ptrs; node_length = node.node_length + bytes_left }, 0)
    else (
      record node { blockptrs = ptrs; node_length = node.node_length + diff },
      bytes_left - diff,
    )

-- The loop of inode_fill; `rounds` bounds the rounds that are left. It returns the node, bytes_left, the
-- disk, and false if the disk is full.
pub fill_loop : ℕ → (sector_idx : ℕ) → Node → (bytes_left : ℕ) → Disk → Node × ℕ × Disk × Bool
fill_loop zero sector_idx node bytes_left disk = (node, bytes_left, disk, true)
fill_loop (suc rounds) sector_idx node bytes_left disk =
    elim (ltb sector_idx node_capacity && ltb 0 bytes_left) [
      | false ↦ (node, bytes_left, disk, true)
      | true ↦ elim disk.free [
        | [] ↦ (node, bytes_left, disk, false)
        | data_addr ∷ free ↦
            let (node', left') = take_sector sector_idx node bytes_left data_addr in
            fill_loop rounds (suc sector_idx) node' left'
              (record disk { free = free; zeroed = data_addr ∷ disk.zeroed })
      ]
    ]

-- DIV_ROUND_UP by the size of a sector.
pub bytes_to_sectors : ℕ → ℕ
bytes_to_sectors size = (size + (sector_size - 1)) / sector_size

pub inode_fill : Node → (bytes_left : ℕ) → Disk → (length : ℕ) → Node × ℕ × Disk × Bool
inode_fill node bytes_left disk length =
    let (node', left', disk', ok) =
      fill_loop node_capacity (bytes_to_sectors node.node_length) node bytes_left disk in
    if ok
    then (let done = record node' { file_length = length } in
        (
          done,
          left',
          record disk' { nodes = λ s. if s == done.sector then done else disk'.nodes s },
          true,
        ))
    else (node', left', disk', false)

-- byte_to_inode from the node of a sector on, for a position that is not -1: the open nodes, with `next`
-- set where inode_open was called, and the node found. `none` is a failed ASSERT or the end of the
-- fuel.
pub byte_to_inode : ℕ → (ℕ → Node) → (sector pos : ℕ) → Option ((ℕ → Node) × Option ℕ)
byte_to_inode zero nodes sector pos = none
byte_to_inode (suc fuel) nodes sector pos =
    let inode = nodes sector in
    elim (ltb pos inode.file_length) [
      | false ↦ some (nodes, none)
      | true ↦ elim (leb inode.prev_length pos) [
        | false ↦ none
        | true ↦ elim (ltb (pos - inode.prev_length) byte_capacity) [
          | true ↦ some (nodes, some sector)
          | false ↦ elim inode.next [
            | some next ↦ if next == sector then none else byte_to_inode fuel nodes next pos
            | none ↦ elim (ptr_exists inode.doubleptr) [
              | false ↦ some (nodes, none)
              | true ↦
                  let next = ptr_get_address inode.doubleptr in
                  let opened : ℕ → Node =
                    λ s. if s == sector then record inode { next = some next } else nodes s in
                  if inode.sector == next then none else byte_to_inode fuel opened next pos
            ]
          ]
        ]
      ]
    ]

-- byte_to_sector, `none` within the result for -1.
pub byte_to_sector : ℕ → (ℕ → Node) → (sector pos : ℕ) → Option ((ℕ → Node) × Option ℕ)
byte_to_sector fuel nodes sector pos = elim (byte_to_inode fuel nodes sector pos) [
  | none ↦ none
  | some (nodes', none) ↦ some (nodes', none)
  | some (nodes', some s) ↦
      let node = nodes' s in
      let addr = node.blockptrs ((pos - node.prev_length) / sector_size) in
      some (nodes', if ptr_exists addr then some (ptr_get_address addr) else none)
]
