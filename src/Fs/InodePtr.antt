-- ===== src/Fs/InodePtr.antt =====
-- `InodePtr` of libfs/src/lib.rs.
use sunflower.Common.{ℕ, ◌-◌, Bool, not, Option, none, some}
use sunflower.Fs.Ptr.{nonzero, is_none}

pub record InodePtr : Type 0 where
  pub raw : Option ℕ

unfoldable pub null : InodePtr
null = record { raw = none }

unfoldable pub new : ℕ → InodePtr
unfolding nonzero
new ptr = record { raw = nonzero ptr }

unfoldable pub get : InodePtr → Option ℕ
get p = p.raw

unfoldable pub is_null : InodePtr → Bool
unfolding get
is_null p = is_none (get p)

unfoldable pub is_valid : InodePtr → Bool
unfolding is_null
is_valid p = not (is_null p)

abbrev minus_one : Option ℕ → Option ℕ
minus_one none = none
minus_one (some n) = some (n - 1)

unfoldable pub get_table_idx : InodePtr → Option ℕ
get_table_idx p = minus_one p.raw
