-- ===== src/Sync/Send.antt =====
-- libutil/src/send.rs: descriptors of tables, and the error of a register that holds another one.
use Prim.Native.String.{String}
use sunflower.Common.{◌==◌, ℕ, ◌-◌, ◌%◌, ◌^◌, ◌≤◌, ◌<◌, ◌≡◌, Bool, true, false, ◌&&◌, arith}
use sunflower.Sync.InitLater.{InitError}

-- The size and the address of a table.
pub record TableDescriptor : Type 0 where
  pub size : ℕ
  pub offset : ℕ

-- Of a table of as many bytes, at an address.
unfoldable pub new : ℕ → ℕ → TableDescriptor
new size_of table = record { size = (size_of - 1) % 2 ^ 16; offset = table }

unfoldable pub invalid : TableDescriptor
invalid = record { size = 0; offset = 0 }

unfoldable pub eq : TableDescriptor → TableDescriptor → Bool
eq d e = d.size == e.size && d.offset == e.offset

pub data LoadRegisterError (T : Type 0) : Type 0 where
  load : InitError → LoadRegisterError T
  store : String → LoadRegisterError T
  other : String → LoadRegisterError T

-- Two descriptors are taken for the same only if they are.
pub eq-same : (d e : TableDescriptor) → eq d e ≡ true → d ≡ e
unfolding eq
eq-same d e h = ground arith

-- A register that still holds the invalid descriptor is never taken for one that holds a table of two
-- to 65536 bytes.
pub eq-invalid :
    (size_of table : ℕ) → 1 < size_of → size_of ≤ 2 ^ 16 → eq invalid (new size_of table) ≡ false
unfolding eq invalid new
eq-invalid size_of table h k = ground arith
