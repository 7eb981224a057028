-- ===== src/Fs/Mount.antt =====
-- libfs/src/init.rs: `reformat_drive` and `read_table`. The drive's `read` and `write` are arguments.
pub mod Active
pub mod Blocks
pub mod Load
pub mod Read
use sunflower.Common.{
  if◌then◌else◌, get_elem?, set, take, drop, replicate, ℕ, zero, suc, ◌+◌, ◌*◌, Option, none, some,
  List, [], ◌∷◌,
}
use sunflower.Common.Outcome.{Exec, pure, ◌>>=◌, ◌>>◌, ok, err, panic, hang}
use sunflower.Sync.Exclusive.{ExclusiveMap, map as exmap}
use sunflower.Fs.Ptr.{BlockPtr, DualBlockPtr, is_valid, decode}
use sunflower.Fs.Header.{FilesystemHeader}
use sunflower.Fs.Header
use sunflower.Fs.Inode.{Inode, is_available, clone, of_bytes}
use sunflower.Fs.Bitmap.{BlockBitmap, AllocBmpError, alloc_bmp}
use sunflower.Fs.Table.{InodeTable, Write, inodes, inode_start}

-- `Read<E>`: a block, the length of the buffer, and the bytes that fill it.
abbrev pub Read : Type 0 → Type 0 → Type 0
Read D E = ℕ → ℕ → Exec D E (List ℕ)

abbrev pub inode_size : ℕ
inode_size = 128

unfoldable pub reformat_drive : {D E : Type 0} → FilesystemHeader → Write D E → Exec D E (Unit {0})
reformat_drive header write = do
  write 0 (Header.as_bytes header)
  write inode_start (replicate (inodes * inode_size) 0)

pub record MountState (D : Type 0) : Type 0 where
  pub table : InodeTable
  pub bitmap : BlockBitmap
  pub drive : D

pub data ReadTblError (E : Type 0) : Type 0 where
  read_error : E → ReadTblError E
  exmap_error : ReadTblError E
  alloc_error : AllocBmpError → ReadTblError E

-- `mem::transmute` of the table's bytes.
unfoldable pub parse_nods : ℕ → List ℕ → List Inode
parse_nods zero bytes = []
parse_nods (suc n) bytes = of_bytes (take inode_size bytes) ∷ parse_nods n (drop inode_size bytes)

-- `filter(|n| !n.is_available())`
unfoldable pub active : List Inode → List Inode
active [] = []
active (n ∷ ns) = let rest = active ns in if is_available n then rest else n ∷ rest

-- The valid pointers of an inode, in the order of the two loops.
unfoldable pub valid_blocks : List DualBlockPtr → List BlockPtr
valid_blocks [] = []
valid_blocks (d ∷ ds) =
    let (a, b) = decode d in
    let rest = valid_blocks ds in
    let rest' = if is_valid b then b ∷ rest else rest in if is_valid a then a ∷ rest' else rest'

module _ {D E : Type 0} where
  -- The body of the innermost loop, for each valid pointer of an inode.
  unfoldable pub mark_blocks : List BlockPtr → ℕ → Exec (MountState D) (ReadTblError E) ℕ
  mark_blocks [] used_blocks s = (ok used_blocks, s)
  mark_blocks (blk ∷ blks) used_blocks s =
      let (res, bitmap) = alloc_bmp blk s.bitmap in
      let s' = record s { bitmap = bitmap } in
      let rest = mark_blocks blks (used_blocks + 1) s' in
      elim res [
        | ok _ ↦ rest
        | err e ↦ (err (alloc_error e), s')
        | panic ↦ (panic, s')
        | hang ↦ (hang, s')
      ]

  -- `tbl[idx].map(|n| *n = nod.clone())`; an index past the table is a panic.
  unfoldable pub load_slot :
      Inode → ℕ → Option (ExclusiveMap Inode) → Exec (MountState D) (ReadTblError E) (Unit {0})
  unfolding exmap
  load_slot nod idx none s = (panic, s)
  load_slot nod idx (some m) s =
      let (res, m') = exmap (λ n. (tt {0}, clone nod)) m in
      let s' = record s { table = set s.table idx m' } in
      elim res [ some _ ↦ (ok tt, s') | none ↦ (err exmap_error, s') ]

  unfoldable pub load_slot_at : Inode → ℕ → Exec (MountState D) (ReadTblError E) (Unit {0})
  unfolding load_slot
  load_slot_at nod idx s = load_slot nod idx (get_elem? s.table idx) s

  -- The outer loop. `enumerate` runs over the inodes in use, so the index is also their count so far.
  unfoldable pub load_nods : List Inode → ℕ → ℕ → Exec (MountState D) (ReadTblError E) (ℕ × ℕ)
  load_nods [] idx used_blocks = pure (idx, used_blocks)
  load_nods (nod ∷ nods) idx used_blocks =
      load_slot_at nod idx
      >> (mark_blocks (valid_blocks nod.blocks) used_blocks >>= λ used.
          load_nods nods (idx + 1) used)

  unfoldable pub read_table : Read D E → Exec (MountState D) (ReadTblError E) (ℕ × ℕ)
  read_table read s =
      let (res, drive) = read inode_start (inode_size * inodes) s.drive in
      let s' = record s { drive = drive } in
      elim res [
        | ok buf ↦ load_nods (active (parse_nods inodes buf)) 0 0 s'
        | err e ↦ (err (read_error e), s')
        | panic ↦ (panic, s')
        | hang ↦ (hang, s')
      ]
