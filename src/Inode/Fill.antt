-- ===== src/Inode/Fill.antt =====
-- What inode_fill of pintos/src/filesys/inode.c leaves when the disk has room.
use course_cs439_operating_s.Base.{
  ℕ, zero, suc, ◌+◌, ◌-◌, ◌*◌, ◌≤◌, ◌<◌, ◌≡◌, refl, ◌∙◌, ◌⊎◌, inl, inr, true, false, ◌&&◌, List, [],
  ◌∷◌, arith, ltb, ◌==◌, if◌then◌else◌, Bool-cases, length,
}
use course_cs439_operating_s.Inode.{
  sector_size, node_capacity, byte_capacity, ptr_create, ptr_set_exist, ptr_exists, Node, Disk,
  set_ptr, take_sector, fill_loop, bytes_to_sectors, inode_fill,
}

-- Every sector that the bytes of the node reach into has a block.
abbrev pub Backed : Node → Type 0
Backed node = (k : ℕ) → k * sector_size < node.node_length → ptr_exists (node.blockptrs k) ≡ true

-- Where the loop stands: the first `idx` blocks exist, and they hold all bytes of the node.
record Filling (idx : ℕ) (node : Node) (left : ℕ) : Type 0 where
  holds : node.node_length ≤ idx * sector_size
  tight : (left ≡ 0) ⊎ (idx * sector_size < node.node_length + sector_size)
  in_node : idx ≤ node_capacity
  blocks : (k : ℕ) → k < idx → ptr_exists (node.blockptrs k) ≡ true

-- The result of filling a node: no byte is lost, the blocks exist, and bytes are left only if the node
-- has no further sector.
pub record Filled (node : Node) (left : ℕ) (node' : Node) (left' : ℕ) : Type 0 where
  pub total : node'.node_length + left' ≡ node.node_length + left
  pub bounded : node'.node_length ≤ byte_capacity
  pub full : (left' ≡ 0) ⊎ (byte_capacity < node'.node_length + sector_size)
  pub backed : Backed node'

marked_exists : (sector : ℕ) → ptr_exists (ptr_set_exist (ptr_create sector)) ≡ true
unfolding ptr_create ptr_set_exist ptr_exists
marked_exists sector = ground arith

set_ptr-exists :
    (ptrs : ℕ → ℕ) (idx addr k : ℕ)
    → k < suc idx
    → ((k : ℕ) → k < idx → ptr_exists (ptrs k) ≡ true)
    → ptr_exists (set_ptr ptrs idx (ptr_set_exist (ptr_create addr)) k) ≡ true
set_ptr-exists ptrs idx addr k h blocks = elim (Bool-cases (k == idx)) [
  | inl here ↦ rw here (marked_exists addr)
  | inr apart ↦ rw apart (blocks k (ground arith))
]

take_sector-Filling :
    (idx : ℕ) (node : Node) (left addr : ℕ)
    → Filling idx node left
    → idx < node_capacity
    → 0 < left
    → Filling (suc idx) (take_sector idx node left addr).0 (take_sector idx node left addr).1
unfolding take_sector
take_sector-Filling idx node left addr f lt more =
    elim (Bool-cases (ltb left (suc idx * sector_size - node.node_length))) [
      | inl last ↦ rw last (record {
        holds = ground (arith, f.holds);
        tight = inl refl;
        in_node = omega arith;
        blocks = λ k h. set_ptr-exists node.blockptrs idx addr k h f.blocks;
      })
      | inr further ↦ rw further (record {
        holds = omega (arith, f.holds);
        tight = inr (omega (arith, f.holds));
        in_node = omega arith;
        blocks = λ k h. set_ptr-exists node.blockptrs idx addr k h f.blocks;
      })
    ]

take_sector-total :
    (idx : ℕ) (node : Node) (left addr : ℕ)
    → (take_sector idx node left addr).0.node_length + (take_sector idx node left addr).1
      ≡ node.node_length + left
unfolding take_sector
take_sector-total idx node left addr =
    elim (Bool-cases (ltb left (suc idx * sector_size - node.node_length))) [
      | inl last ↦ rw last (omega arith)
      | inr further ↦ rw further (ground arith)
    ]

Filling-Filled :
    (idx : ℕ) (node : Node) (left : ℕ)
    → Filling idx node left
    → (left ≡ 0) ⊎ (idx ≡ node_capacity)
    → Filled node left node left
Filling-Filled idx node left f h = record {
  total = refl;
  bounded = omega (arith, f.holds, f.in_node);
  full = elim h [
    | inl none_left ↦ inl none_left
    | inr end ↦ elim f.tight [ inl none_left ↦ inl none_left | inr tight ↦ inr (omega arith) ]
  ];
  backed = λ k lt. f.blocks k (omega (arith, f.holds));
}

module _ (rounds idx : ℕ) (node : Node) (left : ℕ) where
  fill_stop :
      (disk : Disk)
      → (ltb idx node_capacity && ltb 0 left) ≡ false
      → fill_loop (suc rounds) idx node left disk ≡ (node, left, disk, true)
  unfolding fill_loop
  fill_stop disk h = rw (fill_loop, h)

  fill_take :
      (addr : ℕ) (free zeroed : List ℕ) (nodes : ℕ → Node)
      → (ltb idx node_capacity && ltb 0 left) ≡ true
      → fill_loop
          (suc rounds)
          idx
          node
          left
          (record { free = addr ∷ free; zeroed = zeroed; nodes = nodes })
        ≡ fill_loop rounds
            (suc idx)
            (take_sector idx node left addr).0
            (take_sector idx node left addr).1
            (record { free = free; zeroed = addr ∷ zeroed; nodes = nodes })
  unfolding fill_loop
  fill_take addr free zeroed nodes h = rw (fill_loop, h)

-- The loop from any point on, by the sectors that are free.
Outcome : ℕ → ℕ → Node → ℕ → Disk → Type 0
Outcome rounds idx node left disk =
    (node' : Node) × (left' : ℕ) × (disk' : Disk) × (fill_loop rounds idx node left disk
      ≡ (node', left', disk', true))
    × Filled node left node' left'

fill_end :
    (idx : ℕ) (node : Node) (left : ℕ)
    → (ltb idx node_capacity && ltb 0 left) ≡ false
    → idx ≤ node_capacity
    → (left ≡ 0) ⊎ (idx ≡ node_capacity)
fill_end idx node left h le = ground arith

fill_loop_lem :
    (rounds idx : ℕ) (node : Node) (left : ℕ) (free zeroed : List ℕ) (nodes : ℕ → Node)
    → Filling idx node left
    → node_capacity ≤ idx + rounds
    → node_capacity ≤ idx + length free
    → Outcome rounds idx node left (record { free = free; zeroed = zeroed; nodes = nodes })
unfolding fill_loop Outcome
fill_loop_lem zero idx node left free zeroed nodes f r l =
    (node, left, _, refl, Filling-Filled idx node left f (inr (omega (arith, f.in_node))))
fill_loop_lem (suc rounds) idx node left free zeroed nodes f r l =
    elim (Bool-cases (ltb idx node_capacity && ltb 0 left)) [
      | inr stop ↦
          let disk : Disk = record { free = free; zeroed = zeroed; nodes = nodes } in
          (
            node,
            left,
            disk,
            fill_stop rounds idx node left disk stop,
            Filling-Filled idx node left f (fill_end idx node left stop f.in_node),
          )
      | inl go ↦ fill_some rounds idx node left free zeroed nodes f r l go (λ addr free' g m.
          fill_loop_lem rounds (suc idx) (take_sector idx node left addr).0
            (take_sector idx node left addr).1 free' (addr ∷ zeroed) nodes g (omega arith) m)
    ]
  where
    fill_some :
        (rounds idx : ℕ) (node : Node) (left : ℕ) (free zeroed : List ℕ) (nodes : ℕ → Node)
        → Filling idx node left
        → node_capacity ≤ idx + suc rounds
        → node_capacity ≤ idx + length free
        → (ltb idx node_capacity && ltb 0 left) ≡ true
        → ((addr : ℕ) (free' : List ℕ)
            → Filling
                (suc idx)
                (take_sector idx node left addr).0
                (take_sector idx node left addr).1
            → node_capacity ≤ suc idx + length free'
            → Outcome rounds
                (suc idx)
                (take_sector idx node left addr).0
                (take_sector idx node left addr).1
                (record { free = free'; zeroed = addr ∷ zeroed; nodes = nodes }))
        → Outcome
            (suc rounds)
            idx
            node
            left
            (record { free = free; zeroed = zeroed; nodes = nodes })
    fill_some rounds idx node left [] zeroed nodes f r l go ih = absurd (ground arith)
    fill_some rounds idx node left (addr ∷ free) zeroed nodes f r l go ih =
        let lt : idx < node_capacity = ground arith in
        let more : 0 < left = ground arith in
        let (node', left', disk', ran, done) =
          ih addr free (take_sector-Filling idx node left addr f lt more) (omega arith) in
        (
          node',
          left',
          disk',
          fill_take rounds idx node left addr free zeroed nodes go ∙ ran,
          record {
            total = done.total ∙ take_sector-total idx node left addr;
            bounded = done.bounded;
            full = done.full;
            backed = done.backed;
          },
        )

start-Filling :
    (node : Node) (left : ℕ)
    → node.node_length ≤ byte_capacity
    → Backed node
    → Filling (bytes_to_sectors node.node_length) node left
unfolding bytes_to_sectors
start-Filling node left h b = record {
  holds = omega arith;
  tight = inr (omega arith);
  in_node = omega arith;
  blocks = λ k lt. b k (omega arith);
}

fill_eq :
    (node node' : Node) (left left' len : ℕ) (disk disk' : Disk)
    → fill_loop node_capacity (bytes_to_sectors node.node_length) node left disk
      ≡ (node', left', disk', true)
    → inode_fill node left disk len ≡ (
      record node' { file_length = len },
      left',
      record disk' {
        nodes =
            λ s. if s == node'.sector then record node' { file_length = len } else disk'.nodes s;
      },
      true,
    )
unfolding inode_fill
fill_eq node node' left left' len disk disk' h = rw (inode_fill, h)

-- For a node of at most 244 sectors whose bytes all have blocks, on a disk with 244 free sectors,
-- inode_fill succeeds: the bytes asked for are those added to the node and those left, all bytes of
-- the node have blocks, and bytes are left only if the node has no further sector.
pub inode_fill-Filled :
    (node : Node) (left len : ℕ) (disk : Disk)
    → node.node_length ≤ byte_capacity
    → Backed node
    → node_capacity ≤ length disk.free
    → (node' : Node) × (left' : ℕ) × (disk' : Disk) × (inode_fill node left disk len
        ≡ (node', left', disk', true))
      × Filled node left node' left'
      × (node'.file_length ≡ len)
unfolding Outcome
inode_fill-Filled node left len disk h b room =
    let (node', left', disk', ran, done) =
      fill_loop_lem node_capacity (bytes_to_sectors node.node_length) node left disk.free
        disk.zeroed disk.nodes (start-Filling node left h b) (omega arith) (omega arith) in
    (
      record node' { file_length = len },
      left',
      _,
      fill_eq node node' left left' len disk disk' ran,
      record { total = done.total; bounded = done.bounded; full = done.full; backed = done.backed },
      refl,
    )
