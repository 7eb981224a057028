-- ===== src/Fs/Inode/Layout.antt =====
-- The 128 bytes of an inode, written and read back.
use sunflower.Common.{
  length, length-append, ℕ, zero, suc, ◌*◌, ◌^◌, ◌<◌, ◌≡◌, refl, ap, List, [], ◌∷◌, ◌++◌, arith,
}
use sunflower.Common.Bytes.{to_le, length-to_le, of_le-to_le, take-append, drop-append, take_all}
use sunflower.Fs.Ptr.{DualBlockPtr, or_zero, nonzero, inode_ptrs}
use sunflower.Fs.Inode.{reserved_bytes, Inode, blocks_bytes, blocks_of, as_bytes, of_bytes}

-- The ranges of the fields' Rust types; a parent is null or not zero.
pub record IsSized (n : Inode) : Type 0 where
  pub mode_fits : n.mode < 2 ^ 16
  pub links_fit : n.links < 2 ^ 8
  pub size_fits : n.size < 2 ^ 16
  pub blocks_len : length n.blocks ≡ inode_ptrs
  pub parent_fits : or_zero n.parent.raw < 2 ^ 16
  pub parent_nonzero : nonzero (or_zero n.parent.raw) ≡ n.parent.raw
  pub reserved_len : length n.reserved ≡ reserved_bytes

length-blocks_bytes : (ds : List DualBlockPtr) → length (blocks_bytes ds) ≡ 3 * length ds
unfolding blocks_bytes
length-blocks_bytes [] = refl
length-blocks_bytes (d ∷ ds) = omega (arith, length-blocks_bytes ds)

blocks_of-blocks_bytes :
    (n : ℕ) (ds : List DualBlockPtr) → length ds ≡ n → blocks_of n (blocks_bytes ds) ≡ ds
unfolding blocks_bytes blocks_of
blocks_of-blocks_bytes zero [] h = refl
blocks_of-blocks_bytes zero (d ∷ ds) h = absurd (omega arith)
blocks_of-blocks_bytes (suc n) [] h = absurd (omega arith)
blocks_of-blocks_bytes (suc n) (d ∷ ds) h = ap (◌∷◌ d) (blocks_of-blocks_bytes n ds (omega arith))

pub length-as_bytes : (n : Inode) → IsSized n → length (as_bytes n) ≡ 128
unfolding as_bytes
length-as_bytes n v =
    simp (length-append, length-to_le)
      (omega (arith, length-blocks_bytes n.blocks, v.blocks_len, v.reserved_len))

-- An inode fills a quarter of a block, and reading its bytes back gives the same inode.
pub of_bytes-as_bytes :
    (n : Inode) → IsSized n → (length (as_bytes n) ≡ 128) × (of_bytes (as_bytes n) ≡ n)
unfolding as_bytes of_bytes
of_bytes-as_bytes n v =
    let p = or_zero n.parent.raw in
    let bs = blocks_bytes n.blocks in
    let r₅ = to_le 2 p ++ n.reserved in
    let r₄ = bs ++ r₅ in
    let r₃ = to_le 2 n.size ++ r₄ in
    let r₂ = to_le 1 n.links ++ r₃ in
    let hb : length bs ≡ 72 = omega (arith, length-blocks_bytes n.blocks, v.blocks_len) in
    (
      length-as_bytes n v,
      rw
          (
            drop-append 2 (to_le 2 n.mode) r₂ (length-to_le 2 _),
            take-append 2 (to_le 2 n.mode) r₂ (length-to_le 2 _),
            drop-append 1 (to_le 1 n.links) r₃ (length-to_le 1 _),
            take-append 1 (to_le 1 n.links) r₃ (length-to_le 1 _),
            drop-append 2 (to_le 2 n.size) r₄ (length-to_le 2 _),
            take-append 2 (to_le 2 n.size) r₄ (length-to_le 2 _),
            drop-append 72 bs r₅ hb,
            take-append 72 bs r₅ hb,
            drop-append 2 (to_le 2 p) n.reserved (length-to_le 2 _),
            take-append 2 (to_le 2 p) n.reserved (length-to_le 2 _),
            take_all 49 n.reserved v.reserved_len,
            of_le-to_le 2 n.mode (omega arith),
            of_le-to_le 1 n.links (omega arith),
            of_le-to_le 2 n.size (omega arith),
            of_le-to_le 2 p (omega arith),
            v.parent_nonzero,
            blocks_of-blocks_bytes 24 n.blocks v.blocks_len,
          )
          refl,
    )
