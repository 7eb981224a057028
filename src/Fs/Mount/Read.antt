-- ===== src/Fs/Mount/Read.antt =====
-- `read_table` as a whole: the counts that it returns, the table and the bitmap that it leaves.
use sunflower.Common.{
  length, set, drop, length-append, All, set-append, ℕ, ◌+◌, ◌*◌, ◌≤◌, ◌≡◌, refl, sym, ap, ap₂, ◌∙◌,
  none, List, [], ◌∷◌, ◌++◌, map, arith,
}
use sunflower.Common.Outcome.{ok}
use mathlib.Core.List.{append_assoc}
use sunflower.Fs.Inode.{Inode, clone}
use sunflower.Fs.Bitmap.{BlockBitmap}
use sunflower.Fs.Bitmap.Used.{used, IsIdle}
use sunflower.Fs.Table.{inodes, inode_start}
use sunflower.Fs.Table.Slots.{holding}
use sunflower.Fs.Mount.{Read, inode_size, parse_nods, active, load_nods, read_table}
use sunflower.Fs.Mount.Blocks.{conflict, joined}
use sunflower.Fs.Mount.Active.{
  IsByte, parse_nods-HasByteBlocks, length-parse_nods, length-active-le, active-HasByteBlocks,
}
use sunflower.Fs.Mount.Load.{all_pointers, overlay, resting, loaded_reply, load_nods-Loads}

overlay-append :
    (nods pre rest : List Inode)
    → length nods ≤ length rest
    → overlay (length pre) nods (pre ++ rest) ≡ pre ++ (map clone nods ++ drop (length nods) rest)
unfolding overlay
overlay-append [] pre rest h = refl
overlay-append (n ∷ nods) pre [] h = absurd (omega arith)
overlay-append (n ∷ nods) pre (r ∷ rest) h =
    let pre' = pre ++ clone n ∷ [] in
    let len : length pre + 1 ≡ length pre' = omega (arith, length-append pre (clone n ∷ [])) in
    let stored : set (pre ++ r ∷ rest) (length pre) (clone n) ≡ pre' ++ rest =
      set-append pre r rest (clone n) ∙ sym (append_assoc pre (clone n ∷ []) rest) in
    ap₂ (λ i ns. overlay i nods ns) len stored
    ∙ overlay-append nods pre' rest (omega arith)
    ∙ append_assoc pre (clone n ∷ []) (map clone nods ++ drop (length nods) rest)

module _ {D E : Type 0} (read : Read D E) (ns : List Inode) (bmp : BlockBitmap) (d d' : D)
    (bytes : List ℕ) where
  pub read_table-ok :
      read inode_start (inode_size * inodes) d ≡ (ok bytes, d')
      → read_table read (resting ns bmp d)
        ≡ load_nods (active (parse_nods inodes bytes)) 0 0 (resting ns bmp d')
  unfolding read_table
  read_table-ok e = ground arith

  read_table-both :
      read inode_start (inode_size * inodes) d ≡ (ok bytes, d')
      → All IsByte bytes
      → length ns ≡ inodes
      → IsIdle bmp
      → let nods = active (parse_nods inodes bytes) in
        let blocks = all_pointers nods in
        let r = read_table read (resting ns bmp d) in
        (r.0 ≡ loaded_reply (length nods) (length blocks) (conflict (used bmp) blocks))
        × (conflict (used bmp) blocks ≡ none
            → (r.1.table ≡ holding (map clone nods ++ drop (length nods) ns))
              × (used r.1.bitmap ≡ joined (used bmp) blocks))
  read_table-both e bytes_fit len idle =
      let all = parse_nods inodes bytes in
      let nods = active all in
      let room : length nods ≤ length ns =
        omega (arith, length-active-le all, length-parse_nods 140 bytes) in
      let slots : 0 + length nods ≡ length nods = omega arith in
      let blocks : 0 + length (all_pointers nods) ≡ length (all_pointers nods) = omega arith in
      let l =
        load_nods-Loads nods 0 0 ns bmp d'
          (active-HasByteBlocks all (parse_nods-HasByteBlocks 140 bytes bytes_fit)) (omega arith)
          idle in
      rw (read_table-ok e) (
        l.result
            ∙ ap₂ (λ a n. loaded_reply a n (conflict (used bmp) (all_pointers nods))) slots blocks,
        λ h. (l.table h ∙ ap holding (overlay-append nods [] ns room), l.marked h),
      )

  -- From a table of 140 inodes with no closure running and an idle bitmap, once the table's bytes
  -- are read: `read_table` fails exactly if an inode in use holds a block that was in use before or
  -- that came earlier in the table, naming the first such block. Otherwise it returns how many
  -- inodes are in use and how many blocks they hold.
  pub read_table_lem :
      read inode_start (inode_size * inodes) d ≡ (ok bytes, d')
      → All IsByte bytes
      → length ns ≡ inodes
      → IsIdle bmp
      → let nods = active (parse_nods inodes bytes) in
        let blocks = all_pointers nods in
        (read_table read (resting ns bmp d)).0
        ≡ loaded_reply (length nods) (length blocks) (conflict (used bmp) blocks)
  read_table_lem e bytes_fit len idle = (read_table-both e bytes_fit len idle).0

  -- If moreover no block conflicts, the table that `read_table` leaves starts with clones of the
  -- inodes in use, one after the other, and is as before behind them; and the blocks in use are
  -- those before and those that the inodes hold.
  pub read_table-loaded :
      read inode_start (inode_size * inodes) d ≡ (ok bytes, d')
      → All IsByte bytes
      → length ns ≡ inodes
      → IsIdle bmp
      → conflict (used bmp) (all_pointers (active (parse_nods inodes bytes))) ≡ none
      → let nods = active (parse_nods inodes bytes) in
        let left = (read_table read (resting ns bmp d)).1 in
        (left.table ≡ holding (map clone nods ++ drop (length nods) ns))
        × (used left.bitmap ≡ joined (used bmp) (all_pointers nods))
  read_table-loaded e bytes_fit len idle free = (read_table-both e bytes_fit len idle).1 free
