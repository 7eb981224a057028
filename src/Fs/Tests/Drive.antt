-- ===== src/Fs/Tests/Drive.antt =====
-- Instances of the theorems about the inode table and mounting, on a drive that keeps its blocks in
-- a list.
use sunflower.Common.{
  ◌==◌, if◌then◌else◌, length, drop, replicate, All, All-replicate, ℕ, ◌-◌, ◌≡◌, refl, ap, none,
  some, List, [], ◌∷◌, ◌++◌, map, arith,
}
use sunflower.Common.Bytes.{of_le}
use sunflower.Common.Bits.{test_bit}
use sunflower.Common.Outcome.{ok}
use sunflower.Fs.Inode.{is_available, Inode, directory, zeroed, clone}
use sunflower.Fs.Inode as Inodes
use sunflower.Fs.InodePtr.{InodePtr, get_table_idx}
use sunflower.Fs.InodePtr as Pointers
use sunflower.Fs.Bitmap.{fresh_bitmap}
use sunflower.Fs.Bitmap.Used.{used}
use sunflower.Fs.Table.{inodes, Write, alloc_inode}
use sunflower.Fs.Table.Slots.{holding, first_available}
use sunflower.Fs.Table.Alloc.{at_rest, alloc_spec, alloc_inode_lem, alloc_inode-pointer}
use sunflower.Fs.Mount.{Read, parse_nods, active, read_table}
use sunflower.Fs.Mount.Blocks.{pointers, conflict, joined}
use sunflower.Fs.Mount.Active.{IsByte}
use sunflower.Fs.Mount.Load.{all_pointers, resting, loaded_reply}
use sunflower.Fs.Mount.Read.{read_table_lem, read_table-loaded}
use sunflower.Fs.Tests.{fresh_bitmap-IsIdle}

-- The writes so far.
abbrev Log : Type 0
Log = List (ℕ × List ℕ)

abbrev log_write : Write Log ℕ
log_write block bytes log = (ok tt, (block, bytes) ∷ log)

abbrev folder : Inode
folder = Inodes.new directory 0 (Pointers.new 3)

abbrev one_used : List Inode
one_used = folder ∷ replicate 139 zeroed

alloc_inode_example :
    alloc_inode log_write folder (at_rest log_write folder [] one_used)
    ≡ alloc_spec log_write folder [] (first_available one_used) one_used
alloc_inode_example = alloc_inode_lem log_write folder [] one_used refl

alloc_inode_at_1 :
    (alloc_inode log_write folder (at_rest log_write folder [] one_used)).0 ≡ ok (Pointers.new 1)
unfolding first_available is_available Inodes.new zeroed
alloc_inode_at_1 = ap (λ r. r.0) alloc_inode_example

alloc_inode-pointer_example :
    (i : ℕ) × (first_available one_used ≡ some i)
    × (get_table_idx (Pointers.new 1) ≡ (if i == 0 then none else some (i - 1)))
alloc_inode-pointer_example =
    alloc_inode-pointer log_write folder [] one_used (Pointers.new 1) refl alloc_inode_at_1

-- One inode with a block, and 139 that are not in use.
abbrev table_bytes : List ℕ
table_bytes = 1 ∷ 0 ∷ 1 ∷ 0 ∷ 0 ∷ 37 ∷ replicate 17914 0

table_bytes-IsByte : All IsByte table_bytes
table_bytes-IsByte = (
  omega arith,
  (
    omega arith,
    (
      omega arith,
      (omega arith, (omega arith, (omega arith, All-replicate IsByte 17914 0 (omega arith)))),
    ),
  ),
)

abbrev table_read : Read Log ℕ
table_read block len log = (ok table_bytes, log)

abbrev empty_table : List Inode
empty_table = replicate 140 zeroed

read_table_example :
    let nods = active (parse_nods inodes table_bytes) in
    let blocks = all_pointers nods in
    (read_table table_read (resting empty_table fresh_bitmap [])).0
    ≡ loaded_reply (length nods) (length blocks) (conflict (used fresh_bitmap) blocks)
read_table_example =
    read_table_lem table_read empty_table fresh_bitmap [] [] table_bytes refl table_bytes-IsByte
      refl fresh_bitmap-IsIdle

no_conflict :
    conflict (used fresh_bitmap) (all_pointers (active (parse_nods inodes table_bytes))) ≡ none
unfolding conflict used all_pointers active parse_nods is_available Inodes.of_bytes of_le pointers
    fresh_bitmap test_bit
no_conflict = refl

read_table-loaded_example :
    let nods = active (parse_nods inodes table_bytes) in
    let left = (read_table table_read (resting empty_table fresh_bitmap [])).1 in
    (left.table ≡ holding (map clone nods ++ drop (length nods) empty_table))
    × (used left.bitmap ≡ joined (used fresh_bitmap) (all_pointers nods))
read_table-loaded_example =
    read_table-loaded table_read empty_table fresh_bitmap [] [] table_bytes refl table_bytes-IsByte
      refl fresh_bitmap-IsIdle no_conflict
