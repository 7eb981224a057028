-- ===== src/Fs/Bitmap.antt =====
-- The block bitmap of libfs/src/table.rs: `alloc_bmp` and `alloc_next_bmp`.
pub mod Used
pub mod Next
use sunflower.Common.{
  ◌==◌, if◌then◌else◌, get_elem?, set, replicate, ℕ, zero, suc, ◌+◌, ◌-◌, ◌/◌, ◌%◌, ◌^◌, bit_and,
  bit_or, false, not, Option, none, some, List,
}
use sunflower.Common.Outcome.{Outcome, Exec, ok, err, panic, hang}
use sunflower.Sync.Exclusive.{ExclusiveMap, map}
use sunflower.Fs.Ptr.{BlockPtr, max_val, null, new, get}

abbrev pub u128_bits : ℕ
u128_bits = 128

-- Thirty-two words of 128 bits: a bit that is set stands for a block in use.
abbrev pub BlockBitmap : Type 0
BlockBitmap = List (ExclusiveMap ℕ)

abbrev pub bitmap_words : ℕ
bitmap_words = max_val / u128_bits

-- The static of `table_statics!`.
unfoldable pub fresh_bitmap : BlockBitmap
fresh_bitmap = replicate bitmap_words (record { cell = 0; access = false })

pub data AllocBmpError : Type 0 where
  null_ptr : AllocBmpError
  already_in_use : BlockPtr → AllocBmpError
  exmap_in_use : BlockPtr → AllocBmpError

-- The closure that `alloc_bmp` passes to `map`.
unfoldable pub claim : BlockPtr → ℕ → ℕ → Outcome AllocBmpError (Unit {0}) × ℕ
claim block bit i =
    if not (bit_and i bit == 0) then (err (already_in_use block), i) else (ok tt, bit_or i bit)

abbrev mapped :
    BlockPtr → Option (Outcome AllocBmpError (Unit {0})) → Outcome AllocBmpError (Unit {0})
mapped block (some res) = res
mapped block none = err (exmap_in_use block)

-- An index past the last word is a panic.
unfoldable pub claim_at :
    BlockPtr → ℕ → ℕ → Option (ExclusiveMap ℕ) → Exec BlockBitmap AllocBmpError (Unit {0})
unfolding map claim
claim_at block idx bit none bmp = (panic, bmp)
claim_at block idx bit (some word) bmp =
    let (res, word') = map (claim block bit) word in (mapped block res, set bmp idx word')

unfoldable pub alloc_ptr : BlockPtr → Option ℕ → Exec BlockBitmap AllocBmpError (Unit {0})
unfolding claim_at
alloc_ptr block none bmp = (err null_ptr, bmp)
alloc_ptr block (some ptr) bmp =
    let idx = ptr / u128_bits in
    let bit = 2 ^ (ptr % u128_bits) in claim_at block idx bit (get_elem? bmp idx) bmp

unfoldable pub alloc_bmp : BlockPtr → Exec BlockBitmap AllocBmpError (Unit {0})
unfolding alloc_ptr get
alloc_bmp block bmp = alloc_ptr block (get block) bmp

-- `for ptr in 1..MAX_VAL`, with the rounds that are left.
unfoldable pub alloc_from : ℕ → ℕ → Exec BlockBitmap AllocBmpError BlockPtr
unfolding null new
alloc_from zero ptr bmp = (ok null, bmp)
alloc_from (suc n) ptr bmp =
    let blk = new ptr in
    let (res, bmp') = alloc_bmp blk bmp in
    elim res [
      | ok _ ↦ (ok blk, bmp')
      | err _ ↦ alloc_from n (ptr + 1) bmp'
      | panic ↦ (panic, bmp')
      | hang ↦ (hang, bmp')
    ]

unfoldable pub alloc_next_bmp : Exec BlockBitmap AllocBmpError BlockPtr
unfolding alloc_from
alloc_next_bmp bmp = alloc_from (max_val - 1) 1 bmp
