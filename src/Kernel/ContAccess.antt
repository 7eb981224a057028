-- ===== src/Kernel/ContAccess.antt =====
-- kernel/src/interrupts/cont_access.rs, in a build that is not a test: a bad access is a panic.
pub mod Nesting
use sunflower.Common.{◌==◌, if◌then◌else◌, ℕ, Bool, true, false}
use sunflower.Common.Outcome.{Exec, pure, ◌>>=◌, ◌>>◌, modify, gets, ok, panic}

-- A `ContAccess`, together with `INTERRUPT_DEPTH`.
pub record ContAccess {ℓ} (T : Type ℓ) : Type ℓ where
  pub data_cell : T
  pub locked : Bool
  pub int_depth : ℕ

abbrev pub new : {T : Type 0} → ℕ → T → ContAccess T
new depth v = record { data_cell = v; locked = false; int_depth = depth }

abbrev pub Use : Type 0 → Type 0 → Type 0
Use T R = Exec (ContAccess T) ⊥ R

module _ {T : Type 0} where
  unfoldable pub check_access : Use T (Unit {0})
  check_access ca =
      if ca.locked then (panic, ca) else if ca.int_depth == 0 then (ok tt, ca) else (panic, ca)

  abbrev pub lock : Bool → ContAccess T → ContAccess T
  lock b ca = record ca { locked = b }

  -- The closure is any use of the state, so that it can also use the `ContAccess` again.
  unfoldable pub btemap : {R : Type 0} → Use T R → Use T R
  unfolding check_access
  btemap f = do check_access; modify (lock true); res ← f; modify (lock false); pure res

  unfoldable pub write : T → Use T (Unit {0})
  unfolding check_access
  write val = do check_access; modify (λ ca. record ca { data_cell = val })

  unfoldable pub copy : Use T T
  unfolding check_access
  copy = do check_access; gets (λ ca. ca.data_cell)
