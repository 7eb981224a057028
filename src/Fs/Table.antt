-- ===== src/Fs/Table.antt =====
-- The inode table of libfs/src/table.rs: `alloc_inode` and `write_inode_block`. The drive's `write`
-- is an argument, over a state of the drive that the model knows nothing of.
pub mod Slots
pub mod Alloc
use sunflower.Common.{
  ltb, if◌then◌else◌, length, take, drop, ℕ, ◌+◌, ◌-◌, ◌/◌, ◌%◌, ◌^◌, bit_and, Bool, true, false,
  Option, none, some, List, [], ◌∷◌, ◌++◌,
}
use sunflower.Common.Outcome.{Outcome, map_err, Exec, ok, err, panic, hang}
use sunflower.Sync.Exclusive.{ExclusiveMap, map}
use sunflower.Fs.Inode.{Inode, is_available, clone, as_bytes}
use sunflower.Fs.InodePtr.{InodePtr}
use sunflower.Fs.InodePtr

abbrev pub inodes : ℕ
inodes = 140

abbrev pub inode_start : ℕ
inode_start = 1

abbrev pub block_start : ℕ
block_start = inode_start + inodes / 4

abbrev pub block_size : ℕ
block_size = 512

abbrev pub InodeTable : Type 0
InodeTable = List (ExclusiveMap Inode)

-- `Write<E>`: a block, the bytes, and the drive before and after.
abbrev pub Write : Type 0 → Type 0 → Type 0
Write D E = ℕ → List ℕ → Exec D E (Unit {0})

pub record TableState (D : Type 0) : Type 0 where
  pub table : InodeTable
  pub drive : D

pub data UpdateInodeError (E : Type 0) : Type 0 where
  null_ptr : UpdateInodeError E
  tbl_exmap_failure : UpdateInodeError E
  write_error : E → UpdateInodeError E

pub data AllocInodeError (E : Type 0) : Type 0 where
  out_of_inodes : AllocInodeError E
  update_inode : UpdateInodeError E → AllocInodeError E

-- What `exmap.map(|n| n.clone())` returns; such a call leaves the map as it was.
unfoldable pub peek : ExclusiveMap Inode → Option Inode
unfolding map
peek m = (map (λ n. (clone n, n)) m).0

-- The loop that copies the inodes of a slice into the buffer.
unfoldable pub gather :
    {E : Type 0} → List (ExclusiveMap Inode) → Outcome (UpdateInodeError E) (List Inode)
unfolding peek
gather [] = ok []
gather (m ∷ ms) =
    let rest = gather ms in
    elim (peek m) [
      | none ↦ err tbl_exmap_failure
      | some n ↦ elim rest [ ok ns ↦ ok (n ∷ ns) | err e ↦ err e | panic ↦ panic | hang ↦ hang ]
    ]

-- `AsBytes` of an array of inodes.
unfoldable pub array_bytes : List Inode → List ℕ
array_bytes [] = []
array_bytes (n ∷ ns) = as_bytes n ++ array_bytes ns

-- `ptr & !0b11`, on 64 bits.
unfoldable pub block_of : ℕ → ℕ
block_of idx = bit_and idx (2 ^ 64 - 1 - 0b11) + inode_start

module _ {D E : Type 0} (write : Write D E) where
  unfoldable pub write_nods :
      ℕ
      → Outcome (UpdateInodeError E) (List Inode)
      → Exec (TableState D) (UpdateInodeError E) (Unit {0})
  unfolding array_bytes
  write_nods block (ok nods) s =
      let (res, drive) = write block (array_bytes nods) s.drive in
      (map_err write_error res, record s { drive = drive })
  write_nods block (err e) s = (err e, s)
  write_nods block panic s = (panic, s)
  write_nods block hang s = (hang, s)

  -- A slice past the end of the table is a panic.
  unfoldable pub write_at : Option ℕ → Exec (TableState D) (UpdateInodeError E) (Unit {0})
  unfolding write_nods gather block_of
  write_at none s = (err null_ptr, s)
  write_at (some idx) s =
      if ltb (length s.table) (idx + 4)
      then (panic, s)
      else write_nods (block_of idx) (gather (take 4 (drop idx s.table))) s

  unfoldable pub write_inode_block : InodePtr → Exec (TableState D) (UpdateInodeError E) (Unit {0})
  write_inode_block ptr s = write_at (InodePtr.get_table_idx ptr) s

-- The closure that `alloc_inode` passes to `map`.
unfoldable pub offer : Inode → Inode → Bool × Inode
unfolding is_available clone
offer nod n = let alloc = is_available n in if alloc then (alloc, clone nod) else (alloc, n)

-- The loop of `alloc_inode` up to the slot that it takes, if any.
unfoldable pub claim_slot : Inode → ℕ → InodeTable → Option ℕ × InodeTable
unfolding map offer
claim_slot nod idx [] = (none, [])
claim_slot nod idx (m ∷ ms) =
    let (alloc, m') = map (offer nod) m in
    let (found, ms') = claim_slot nod (idx + 1) ms in
    elim alloc [
      | some true ↦ (some idx, m' ∷ ms)
      | some false ↦ (found, m' ∷ ms')
      | none ↦ (found, m' ∷ ms')
    ]

module _ {D E : Type 0} (write : Write D E) where
  unfoldable pub finish_alloc : Option ℕ → Exec (TableState D) (AllocInodeError E) InodePtr
  finish_alloc none s = (err out_of_inodes, s)
  finish_alloc (some idx) s =
      let ptr = InodePtr.new (idx % 2 ^ 16 + 1) in
      let (res, s') = write_inode_block write ptr s in
      elim res [
        | ok _ ↦ (ok (InodePtr.new (idx % 2 ^ 16)), s')
        | err e ↦ (err (update_inode e), s')
        | panic ↦ (panic, s')
        | hang ↦ (hang, s')
      ]

  unfoldable pub alloc_inode : Inode → Exec (TableState D) (AllocInodeError E) InodePtr
  alloc_inode nod s =
      let (found, table) = claim_slot nod 0 s.table in
      finish_alloc found (record s { table = table })
