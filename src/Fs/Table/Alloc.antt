-- ===== src/Fs/Table/Alloc.antt =====
-- What `alloc_inode` does on every branch, on a table where no closure is running.
use sunflower.Common.{
  ltb, ◌==◌, if◌then◌else◌, ==_iff, Option-cases, every_below, every_below-holds, length, set, take,
  drop, ℕ, ◌+◌, ◌-◌, ◌*◌, ◌/◌, ◌%◌, ◌^◌, ◌<◌, ◌≡◌, refl, sym, ap, ◌∙◌, inl, inr, true, Option, none,
  some, List, map, arith,
}
use sunflower.Common.Outcome.{Outcome, map_err, ok, err, panic, hang}
use sunflower.Fs.Inode.{Inode, clone}
use sunflower.Fs.InodePtr
use sunflower.Fs.InodePtr.{InodePtr}
use sunflower.Fs.Ptr.{nonzero}
use sunflower.Fs.Table.{
  inodes, Write, TableState, write_error, AllocInodeError, out_of_inodes, update_inode, array_bytes,
  block_of, write_nods, write_at, write_inode_block, finish_alloc, alloc_inode,
}
use sunflower.Fs.Table.Slots.{
  holding, first_available, claim_slot-holding, gather-holding, length-holding, take-holding,
  drop-holding, first_available-lt,
}

block_of_table : every_below 140 (λ i. block_of i == i / 4 * 4 + 1) ≡ true
unfolding every_below block_of
block_of_table = refl

block_of-eq : (i : ℕ) → i < 140 → block_of i ≡ i / 4 * 4 + 1
block_of-eq i h =
    (==_iff _ _).0 (every_below-holds 140 i (λ i. block_of i == i / 4 * 4 + 1) h block_of_table)

module _ {D E : Type 0} (write : Write D E) (nod : Inode) (drive : D) where
  abbrev pub at_rest : List Inode → TableState D
  at_rest ns = record { table = holding ns; drive = drive }

  abbrev pub reply : ℕ → Outcome E (Unit {0}) → Outcome (AllocInodeError E) InodePtr
  reply i (ok _) = ok (InodePtr.new i)
  reply i (err e) = err (update_inode (write_error e))
  reply i panic = panic
  reply i hang = hang

  -- Storing at place `i`: the four inodes from there on are written to the block that starts with
  -- the multiple of four at or before `i`, and there is a panic where fewer than four are left.
  abbrev pub stored_at : ℕ → List Inode → Outcome (AllocInodeError E) InodePtr × TableState D
  stored_at i ns =
      if ltb (length ns) (i + 4)
      then (panic, at_rest ns)
      else (let (res, drive') =
            write (i / 4 * 4 + 1) (array_bytes (map clone (take 4 (drop i ns)))) drive in
          (reply i res, record { table = holding ns; drive = drive' }))

  abbrev pub alloc_spec :
      Option ℕ → List Inode → Outcome (AllocInodeError E) InodePtr × TableState D
  alloc_spec none ns = (err out_of_inodes, at_rest ns)
  alloc_spec (some i) ns = stored_at i (set ns i (clone nod))

  write_at-holding :
      (i : ℕ) (ns : List Inode)
      → i < 140
      → write_at write (some i) (at_rest ns) ≡ (
          if ltb (length ns) (i + 4)
          then (panic, at_rest ns)
          else (let (res, drive') =
                write (i / 4 * 4 + 1) (array_bytes (map clone (take 4 (drop i ns)))) drive in
              (map_err write_error res, record { table = holding ns; drive = drive' })))
  unfolding write_at write_nods
  write_at-holding i ns h =
      rw
        (
          length-holding ns,
          drop-holding i ns,
          take-holding 4 (drop i ns),
          gather-holding E (take 4 (drop i ns)),
          block_of-eq i h,
        )
        refl

  get_table_idx-new : (i : ℕ) → InodePtr.get_table_idx (InodePtr.new (i + 1)) ≡ some i
  unfolding InodePtr.get_table_idx InodePtr.new nonzero
  get_table_idx-new i = ground arith

  write_inode_block-new :
      (i : ℕ) (s : TableState D)
      → write_inode_block write (InodePtr.new (i + 1)) s ≡ write_at write (some i) s
  unfolding write_inode_block
  write_inode_block-new i s = ap (λ o. write_at write o s) (get_table_idx-new i)

  finish_alloc-holding :
      (i : ℕ) (ns : List Inode)
      → i < 140
      → finish_alloc write (some i) (at_rest ns) ≡ stored_at i ns
  unfolding finish_alloc
  finish_alloc-holding i ns h =
      let small : i % 2 ^ 16 ≡ i = omega arith in
      ground (arith, small, write_inode_block-new i (at_rest ns), write_at-holding i ns h)

  -- On a table of 140 inodes with no closure running, `alloc_inode` fails, changing nothing, exactly
  -- when no inode is available. Otherwise it stores a clone in the first available slot `i` and
  -- leaves the other inodes alone. It then writes the inodes `i` to `i + 3` to the block numbered
  -- one more than the largest multiple of four that is at most `i`, and returns a pointer made from
  -- `i`, or the error of that write. For a slot with fewer than three slots behind it, it panics.
  pub alloc_inode_lem :
      (ns : List Inode)
      → length ns ≡ inodes
      → alloc_inode write nod (at_rest ns) ≡ alloc_spec (first_available ns) ns
  unfolding alloc_inode
  alloc_inode_lem ns len = elim (Option-cases (first_available ns)) [
    | inl e ↦ unfold finish_alloc in ground (arith, claim_slot-holding nod 0 ns)
    | inr (i, e) ↦
        let ns' = set ns i (clone nod) in
        let same : 0 + i ≡ i = omega arith in
        let room : i < 140 = omega (arith, first_available-lt ns i e) in
        ground (arith, claim_slot-holding nod 0 ns, finish_alloc-holding i ns' room)
  ]

  stored_at-ok :
      (i : ℕ) (ns : List Inode) (ptr : InodePtr)
      → (stored_at i ns).0 ≡ ok ptr
      → InodePtr.new i ≡ ptr
  stored_at-ok i ns ptr h = ground arith

  slot_before :
      (i : ℕ) → InodePtr.get_table_idx (InodePtr.new i) ≡ (if i == 0 then none else some (i - 1))
  unfolding InodePtr.get_table_idx InodePtr.new nonzero
  slot_before i = ground arith

  -- A pointer that `alloc_inode` returns never designates the slot that it stored the inode in: for
  -- the first slot it is null, and for any other it designates the slot before.
  pub alloc_inode-pointer :
      (ns : List Inode) (ptr : InodePtr)
      → length ns ≡ inodes
      → (alloc_inode write nod (at_rest ns)).0 ≡ ok ptr
      → (i : ℕ) × (first_available ns ≡ some i)
        × (InodePtr.get_table_idx ptr ≡ (if i == 0 then none else some (i - 1)))
  alloc_inode-pointer ns ptr len h =
      let h' : (alloc_spec (first_available ns) ns).0 ≡ ok ptr =
        sym (ap (λ r. r.0) (alloc_inode_lem ns len)) ∙ h in
      elim (Option-cases (first_available ns)) [
        | inl e ↦ cc
        | inr (i, e) ↦
            let made : InodePtr.new i ≡ ptr =
              stored_at-ok i (set ns i (clone nod)) ptr
                (ap (λ o. (alloc_spec o ns).0) (sym e) ∙ h') in
            (i, e, ap InodePtr.get_table_idx (sym made) ∙ slot_before i)
      ]
