-- ===== src/Sync/Flag.antt =====
-- `UnsafeFlag` of libutil/src/sync.rs. A store returns the flag's new value.
use sunflower.Common.{Bool}

pub record UnsafeFlag : Type 0 where
  pub val : Bool

unfoldable pub new : Bool → UnsafeFlag
new val = record { val = val }

unfoldable pub load : UnsafeFlag → Bool
load f = f.val

unfoldable pub store : UnsafeFlag → Bool → UnsafeFlag
store f val = record f { val = val }
