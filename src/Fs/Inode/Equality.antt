-- ===== src/Fs/Inode/Equality.antt =====
-- `PartialEq` of an inode looks at every field but the reserved bytes.
use sunflower.Common.{ℕ, ◌≡◌, refl, ◌↔◌, true, Option, none, some, List, [], ◌∷◌, arith}
use sunflower.Fs.Ptr.{DualBlockPtr}
use sunflower.Fs.Inode.{Inode, clone, dual_eq, blocks_eq, raw_eq, eq}

dual_eq_iff : (a b : DualBlockPtr) → (dual_eq a b ≡ true) ↔ (a ≡ b)
unfolding dual_eq
dual_eq_iff a b = (λ h. ground arith, λ e. ground arith)

blocks_eq_iff : (xs ys : List DualBlockPtr) → (blocks_eq xs ys ≡ true) ↔ (xs ≡ ys)
unfolding blocks_eq
blocks_eq_iff [] [] = (λ h. refl, λ e. refl)
blocks_eq_iff [] (y ∷ ys) = (λ h. cc, λ e. cc)
blocks_eq_iff (x ∷ xs) [] = (λ h. cc, λ e. cc)
blocks_eq_iff (x ∷ xs) (y ∷ ys) = (
  λ h. ground (arith, dual_eq_iff x y, blocks_eq_iff xs ys),
  λ e. ground (arith, dual_eq_iff x y, blocks_eq_iff xs ys),
)

raw_eq_iff : (a b : Option ℕ) → (raw_eq a b ≡ true) ↔ (a ≡ b)
unfolding raw_eq
raw_eq_iff none none = (λ h. refl, λ e. refl)
raw_eq_iff none (some b) = (λ h. cc, λ e. cc)
raw_eq_iff (some a) none = (λ h. cc, λ e. cc)
raw_eq_iff (some a) (some b) = (λ h. ground arith, λ e. ground arith)

-- Two inodes compare equal exactly when their clones, whose reserved bytes are zeros, are the same.
pub eq-clone : (a b : Inode) → (eq a b ≡ true) ↔ (clone a ≡ clone b)
unfolding eq clone
eq-clone a b = (
  λ h. ground (arith, blocks_eq_iff a.blocks b.blocks, raw_eq_iff a.parent.raw b.parent.raw),
  λ e. ground (arith, blocks_eq_iff a.blocks b.blocks, raw_eq_iff a.parent.raw b.parent.raw),
)
