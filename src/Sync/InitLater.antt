-- ===== src/Sync/InitLater.antt =====
-- `InitLater` of libutil/src/sync.rs. The cell holds no value until it is first written.
pub mod Laws
pub mod Race
use sunflower.Common.{◌==◌, if◌then◌else◌, ℕ, Option, none, some}

abbrev pub uninit_state : ℕ
uninit_state = 0

abbrev pub initialising : ℕ
initialising = 1

abbrev pub initialised : ℕ
initialised = 2

pub record InitLater {ℓ} (T : Type ℓ) : Type ℓ where
  pub cell : Option T
  pub state : ℕ

-- `InitError`: the state in which the value was accessed.
pub record InitError : Type 0 where
  pub state : ℕ

pub data InitResult {ℓ} (T : Type ℓ) : Type ℓ where
  ok : T → InitResult T
  err : InitError → InitResult T
  -- `assume_init_ref` on a cell that was never written
  undefined : InitResult T

module _ {ℓ} {T : Type ℓ} where
  unfoldable pub uninit : InitLater T
  uninit = record { cell = none; state = uninit_state }

  unfoldable pub store : InitLater T → ℕ → InitLater T
  store l s = record l { state = s }

  unfoldable pub write : InitLater T → T → InitLater T
  write l v = record l { cell = some v }

  unfoldable pub init : InitLater T → T → InitResult T × InitLater T
  unfolding store write
  init l val =
      let state = l.state in
      let l' = store l initialising in
      if state == uninit_state
      then (ok val, store (write l' val) initialised)
      else (err (record { state = state }), store l' state)

  assume_init : Option T → InitResult T
  assume_init none = undefined
  assume_init (some v) = ok v

  unfoldable pub read : InitLater T → InitResult T
  unfolding assume_init
  read l = if l.state == initialised then assume_init l.cell else err (record { state = l.state })
