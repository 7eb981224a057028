-- ===== src/Sync/Exclusive.antt =====
-- `ExclusiveMap` of libutil/src/sync.rs. A closure that may change the contained value is a
-- function from the value to its result and the new value.
pub mod Threads
use sunflower.Common.{if◌then◌else◌, Bool, true, false, Option, none, some}

pub record ExclusiveMap {ℓ} (T : Type ℓ) : Type ℓ where
  pub cell : T
  pub access : Bool

unfoldable pub new {ℓ} : {T : Type ℓ} → T → ExclusiveMap T
new val = record { cell = val; access = false }

-- `compare_exchange(false, true)`: whether it took the map, and the map after it.
unfoldable pub compare_exchange {ℓ} : {T : Type ℓ} → ExclusiveMap T → Bool × ExclusiveMap T
compare_exchange m = if m.access then (false, m) else (true, record m { access = true })

unfoldable pub release {ℓ} : {T : Type ℓ} → ExclusiveMap T → ExclusiveMap T
release m = record m { access = false }

module _ {ℓ κ} {T : Type ℓ} {R : Type κ} (f : T → R × T) where
  unfoldable pub run_closure : ExclusiveMap T → R × ExclusiveMap T
  run_closure m = let (ret, v) = f m.cell in (ret, record m { cell = v })

  unfoldable pub map : ExclusiveMap T → Option R × ExclusiveMap T
  unfolding compare_exchange run_closure release
  map m =
      let (took, m') = compare_exchange m in
      let (ret, m'') = run_closure m' in if took then (some ret, release m'') else (none, m')
