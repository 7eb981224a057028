-- ===== src/Fs/Mount/Active.antt =====
-- The inodes that are read from the table's bytes, and those of them that are in use.
use sunflower.Common.{
  Bool-cases, length, take, drop, All, All-take, All-drop, ℕ, zero, suc, ◌≤◌, ◌<◌, ◌≡◌, refl, ap,
  inl, inr, List, [], ◌∷◌, arith,
}
use sunflower.Common.Bytes.{}
use sunflower.Fs.Ptr.Packing.{IsBytes}
use sunflower.Fs.Inode.{Inode, blocks_of, of_bytes, is_available}
use sunflower.Fs.Mount.{parse_nods, active}

abbrev pub IsByte : ℕ → Type 0
IsByte b = b < 256

abbrev pub HasByteBlocks : Inode → Type 0
HasByteBlocks n = All IsBytes n.blocks

blocks_of-IsBytes : (n : ℕ) (bytes : List ℕ) → All IsByte bytes → All IsBytes (blocks_of n bytes)
unfolding blocks_of
blocks_of-IsBytes zero bytes v = tt
blocks_of-IsBytes (suc n) (a ∷ b ∷ c ∷ bytes) v =
    (record { one_lt = v.0; two_lt = v.1.0; three_lt = v.1.1.0 }, blocks_of-IsBytes n bytes v.1.1.1)
blocks_of-IsBytes (suc n) bytes v = tt

of_bytes-HasByteBlocks : (bytes : List ℕ) → All IsByte bytes → HasByteBlocks (of_bytes bytes)
unfolding of_bytes
of_bytes-HasByteBlocks bytes v =
    blocks_of-IsBytes 24 _
      (All-take IsByte 72 _ (All-drop IsByte 2 _ (All-drop IsByte 1 _ (All-drop IsByte 2 bytes v))))

pub parse_nods-HasByteBlocks :
    (n : ℕ) (bytes : List ℕ) → All IsByte bytes → All HasByteBlocks (parse_nods n bytes)
unfolding parse_nods
parse_nods-HasByteBlocks zero bytes v = tt
parse_nods-HasByteBlocks (suc n) bytes v = (
  of_bytes-HasByteBlocks (take 128 bytes) (All-take IsByte 128 bytes v),
  parse_nods-HasByteBlocks n (drop 128 bytes) (All-drop IsByte 128 bytes v),
)

pub length-parse_nods : (n : ℕ) (bytes : List ℕ) → length (parse_nods n bytes) ≡ n
unfolding parse_nods
length-parse_nods zero bytes = refl
length-parse_nods (suc n) bytes = ap suc (length-parse_nods n (drop 128 bytes))

pub length-active-le : (ns : List Inode) → length (active ns) ≤ length ns
unfolding active
length-active-le [] = omega arith
length-active-le (n ∷ ns) = ground (arith, length-active-le ns)

pub active-HasByteBlocks : (ns : List Inode) → All HasByteBlocks ns → All HasByteBlocks (active ns)
unfolding active
active-HasByteBlocks [] v = tt
active-HasByteBlocks (n ∷ ns) v = elim (Bool-cases (is_available n)) [
  | inl e ↦ rw e (active-HasByteBlocks ns v.1)
  | inr e ↦ rw e (v.0, active-HasByteBlocks ns v.1)
]
