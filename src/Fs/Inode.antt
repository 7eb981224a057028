-- ===== src/Fs/Inode.antt =====
-- `INode` and `FileMode` of libfs/src/lib.rs, and the bytes of an inode in the table.
pub mod Equality
pub mod Layout
use sunflower.Common.{
  ◌==◌, take, drop, replicate, ℕ, zero, suc, Bool, true, false, ◌&&◌, Option, none, some, List, [],
  ◌∷◌, ◌++◌,
}
use sunflower.Common.Bytes.{to_le, of_le}
use sunflower.Fs.Ptr.{DualBlockPtr, empty_dual, inode_ptrs, nonzero, or_zero}
use sunflower.Fs.InodePtr.{InodePtr}
use sunflower.Fs.InodePtr

-- `FileMode`: the bits of a `u16`.
abbrev pub FileMode : Type 0
FileMode = ℕ

abbrev pub directory : FileMode
directory = 1

abbrev pub reserved_bytes : ℕ
reserved_bytes = 49

pub record Inode : Type 0 where
  pub mode : FileMode
  pub links : ℕ
  pub size : ℕ
  pub blocks : List DualBlockPtr
  pub parent : InodePtr
  pub reserved : List ℕ

abbrev pub empty_arr : List DualBlockPtr
empty_arr = replicate inode_ptrs empty_dual

unfoldable pub zeroed : Inode
unfolding InodePtr.null
zeroed = record {
  mode = 0;
  links = 0;
  size = 0;
  blocks = empty_arr;
  parent = InodePtr.null;
  reserved = replicate reserved_bytes 0;
}

unfoldable pub new : FileMode → ℕ → InodePtr → Inode
new mode size parent = record {
  mode = mode;
  links = 1;
  size = size;
  blocks = empty_arr;
  parent = parent;
  reserved = replicate reserved_bytes 0;
}

unfoldable pub is_available : Inode → Bool
is_available n = n.links == 0

unfoldable pub clone : Inode → Inode
clone n = record n { reserved = replicate reserved_bytes 0 }

-- The derived equality of `DualBlockPtr` and of an array of them.
unfoldable pub dual_eq : DualBlockPtr → DualBlockPtr → Bool
dual_eq a b = a.one == b.one && (a.two == b.two && a.three == b.three)

unfoldable pub blocks_eq : List DualBlockPtr → List DualBlockPtr → Bool
unfolding dual_eq
blocks_eq [] [] = true
blocks_eq [] (b ∷ bs) = false
blocks_eq (a ∷ as') [] = false
blocks_eq (a ∷ as') (b ∷ bs) = dual_eq a b && blocks_eq as' bs

-- The derived equality of `InodePtr`.
unfoldable pub raw_eq : Option ℕ → Option ℕ → Bool
raw_eq none none = true
raw_eq none (some b) = false
raw_eq (some a) none = false
raw_eq (some a) (some b) = a == b

unfoldable pub eq : Inode → Inode → Bool
unfolding raw_eq
eq a b =
    a.size == b.size
    && (raw_eq a.parent.raw b.parent.raw
        && (a.links == b.links && (a.mode == b.mode && blocks_eq a.blocks b.blocks)))

unfoldable pub blocks_bytes : List DualBlockPtr → List ℕ
blocks_bytes [] = []
blocks_bytes (d ∷ ds) = d.one ∷ d.two ∷ d.three ∷ blocks_bytes ds

unfoldable pub blocks_of : ℕ → List ℕ → List DualBlockPtr
blocks_of zero bytes = []
blocks_of (suc n) (a ∷ b ∷ c ∷ bytes) = record { one = a; two = b; three = c } ∷ blocks_of n bytes
blocks_of (suc n) bytes = []

-- The packed bytes that `AsBytes` reads.
unfoldable pub as_bytes : Inode → List ℕ
unfolding blocks_bytes
as_bytes n =
    to_le 2 n.mode
    ++ (to_le 1 n.links
        ++ (to_le 2 n.size
            ++ (blocks_bytes n.blocks ++ (to_le 2 (or_zero n.parent.raw) ++ n.reserved))))

-- `mem::transmute` of 128 packed bytes.
unfoldable pub of_bytes : List ℕ → Inode
unfolding blocks_of nonzero
of_bytes bytes =
    let at_links = drop 2 bytes in
    let at_size = drop 1 at_links in
    let at_blocks = drop 2 at_size in
    let at_parent = drop 72 at_blocks in
    let at_reserved = drop 2 at_parent in
    record {
      mode = of_le (take 2 bytes);
      links = of_le (take 1 at_links);
      size = of_le (take 2 at_size);
      blocks = blocks_of inode_ptrs (take 72 at_blocks);
      parent = record { raw = nonzero (of_le (take 2 at_parent)) };
      reserved = take 49 at_reserved;
    }
