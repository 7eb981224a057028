-- ===== src/Fs/Ptr.antt =====
-- `BlockPtr` and `DualBlockPtr` of libfs/src/lib.rs. A `u16` or a `u8` is a native
-- number below its bound, and `Option<NonZero<u16>>` an `Option ℕ`.
pub mod Packing
use sunflower.Common.{
  ltb, ◌==◌, if◌then◌else◌, ℕ, ◌*◌, ◌/◌, ◌%◌, ◌^◌, bit_and, bit_or, Bool, true, false, not, Option,
  none, some,
}

-- `NonZero::new`
unfoldable pub nonzero : ℕ → Option ℕ
nonzero n = if n == 0 then none else some n

abbrev pub is_none : Option ℕ → Bool
is_none none = true
is_none (some n) = false

pub record BlockPtr : Type 0 where
  pub raw : Option ℕ

abbrev pub max_val : ℕ
max_val = 2 ^ 12

unfoldable pub null : BlockPtr
null = record { raw = none }

unfoldable pub new : ℕ → BlockPtr
unfolding nonzero
new ptr = if ltb ptr max_val then record { raw = nonzero ptr } else record { raw = nonzero max_val }

unfoldable pub get : BlockPtr → Option ℕ
get p = p.raw

abbrev pub or_zero : Option ℕ → ℕ
or_zero none = 0
or_zero (some n) = n

unfoldable pub get_nullable : BlockPtr → ℕ
unfolding get
get_nullable p = or_zero (get p)

unfoldable pub is_null : BlockPtr → Bool
unfolding get
is_null p = is_none (get p)

unfoldable pub is_valid : BlockPtr → Bool
unfolding is_null
is_valid p = not (is_null p)

-- `[u8; 3]`
pub record DualBlockPtr : Type 0 where
  pub one : ℕ
  pub two : ℕ
  pub three : ℕ

abbrev pub inode_ptrs : ℕ
inode_ptrs = 24

abbrev pub empty_dual : DualBlockPtr
empty_dual = record { one = 0; two = 0; three = 0 }

unfoldable pub decode : DualBlockPtr → BlockPtr × BlockPtr
unfolding new
decode d =
    let first : ℕ = bit_or (d.one * 2 ^ 4 % 2 ^ 16) (bit_and d.two 0b1111_0000 / 2 ^ 4) in
    let second : ℕ = bit_or (bit_and d.two 0b0000_1111 * 2 ^ 8) d.three in (new first, new second)

unfoldable pub encode : BlockPtr × BlockPtr → DualBlockPtr
unfolding get_nullable
encode ptrs =
    let fst : ℕ = get_nullable ptrs.0 in
    let snd : ℕ = get_nullable ptrs.1 in
    record {
      one = fst / 2 ^ 4 % 2 ^ 8;
      two = bit_or (bit_and fst 0b1111 * 2 ^ 4) (bit_and snd 0b1111_0000_0000 / 2 ^ 8) % 2 ^ 8;
      three = snd % 2 ^ 8;
    }
