-- ===== src/Inode/Tests.antt =====
-- An index node of 600 bytes in two sectors that is extended by 1000 bytes, and a file of two nodes.
use course_cs439_operating_s.Base.{
  ℕ, suc, ◌≡◌, refl, Bool, true, none, List, [], ◌∷◌, arith, ◌==◌, if◌then◌else◌,
}
use course_cs439_operating_s.Inode.{
  Node, Disk, ptr_exists, take_sector, fill_loop, bytes_to_sectors, inode_fill, byte_to_inode,
}
use course_cs439_operating_s.Inode.Fill.{Backed, Filled, inode_fill-Filled}
use course_cs439_operating_s.Inode.Reach.{NotFound, byte_to_inode-NotFound}

abbrev node_of : ℕ → ℕ → Node
node_of sector len = record {
  sector = sector;
  file_length = len;
  prev_length = 0;
  node_length = len;
  doubleptr = 0;
  blockptrs = λ k. 0x8000;
  next = none;
}

-- The sectors from `i` on, `n` of them.
abbrev sectors : ℕ → ℕ → List ℕ
sectors Prim.Native.Nat.zero i = []
sectors (suc n) i = i ∷ sectors n (suc i)

abbrev empty_disk : Disk
empty_disk = record { free = sectors 244 100; zeroed = []; nodes = λ s. node_of s 0 }

abbrev lengths : Node × ℕ × Disk × Bool → ℕ × ℕ × Bool
lengths (node, left, disk, ok) = (node.node_length, left, ok)

extended : lengths (inode_fill (node_of 2 600) 1000 empty_disk 1600) ≡ (1600, 0, true)
unfolding inode_fill fill_loop take_sector bytes_to_sectors
extended = refl

-- The two bytes fit into the second sector, yet a third is taken.
extended_in_sector : (inode_fill (node_of 2 600) 2 empty_disk 602).2.zeroed ≡ 100 ∷ []
unfolding inode_fill fill_loop take_sector bytes_to_sectors
extended_in_sector = refl

blocks_of_600 : Backed (node_of 2 600)
unfolding ptr_exists
blocks_of_600 k h = refl

inode_fill-Filled_example :
    (node' : Node) × (left' : ℕ) × (disk' : Disk) × (inode_fill (node_of 2 600) 1000 empty_disk 1600
      ≡ (node', left', disk', true))
    × Filled (node_of 2 600) 1000 node' left'
    × (node'.file_length ≡ 1600)
inode_fill-Filled_example =
    inode_fill-Filled (node_of 2 600) 1000 1600 empty_disk (omega arith) blocks_of_600 (omega arith)

-- A file of 200000 bytes: the first node points to the node of sector 9.
abbrev two_nodes : ℕ → Node
two_nodes s = record (node_of s 200000) { doubleptr = if s == 2 then 0x8009 else 0 }

byte_to_inode-NotFound_example : NotFound (byte_to_inode 3 two_nodes 2 150000)
byte_to_inode-NotFound_example =
    byte_to_inode-NotFound 3 two_nodes 2 150000 (λ s. refl) (omega arith)
