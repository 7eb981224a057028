-- ===== src/Floppy/Protocol/Boot/Whole.antt =====
-- Whole runs of the driver, from the start of the kernel.
use sunflower.Common.{
  length, ℕ, ◌+◌, ◌≡◌, refl, sym, subst, ◌∙◌, ◌≢◌, ◌⊎◌, inl, inr, Bool, false, Option, none, some,
  List, [], ◌∷◌, arith,
}
use sunflower.Common.Outcome.{Outcome, pure, continue, ◌>>◌, as_value, ok, err, panic, hang}
use sunflower.Floppy.Machine.{FloppyError, wrote, read_from, World, Machine, Op, writeb, readb}
use sunflower.Floppy.Motor.{motor_disabling, send_disable_cmd, decrease_motor_time, force_disable}
use sunflower.Floppy.Disk.{checked, read, write}
use sunflower.Floppy.Start.{
  FloppyInfo, cmos_index, cmos_data, cmos_floppy_reg, main_base, secondary_base, choose_drive,
  start_controller, read_cmos_reg, init,
}
use sunflower.Floppy.Protocol.{Orderly, IsOrderly}
use sunflower.Floppy.Protocol.Boot.{
  Call, read_call, write_call, force_disable_call, tick, booted, perform, run, boot_run,
  start_controller-Keeps, run-Keeps,
}

-- What holds after a call, also if it failed, holds after what follows it.
on_attempt :
    (P : Machine → Type 0) (k : Op (Unit {0})) (r : Outcome FloppyError (Unit {0})) (m : Machine)
    → ((m' : Machine) → P m' → P (k m').1)
    → P m
    → P (continue (as_value {F = FloppyError} r m).0 (λ _. k) (as_value {F = FloppyError} r m).1).1
on_attempt P k (ok a) m h v = h m v
on_attempt P k (err e) m h v = h m v
on_attempt P k panic m h v = v
on_attempt P k hang m h v = v

-- Without a drive the driver does nothing.
record IsIdle (m : Machine) : Type 0 where
  no_base : m.base_offset ≡ none
  not_init : m.floppy_init ≡ false

last_step : (r : Outcome FloppyError (List ℕ)) (m : Machine) → (continue r (λ _. pure tt) m).1 ≡ m
last_step (ok a) m = refl
last_step (err e) m = refl
last_step panic m = refl
last_step hang m = refl

no_command : (o : Option ℕ) (m : Machine) → o ≡ none → send_disable_cmd m o ≡ m
no_command none m e = refl
no_command (some b) m e = absurd (ground (arith, e))

module _ (w : World) (fuel depth : ℕ) where
  checked_idle :
      {A : Type 0} (len : ℕ) (nothing : A) (go : Op A) (m : Machine)
      → m.floppy_init ≡ false
      → (checked w fuel depth len nothing go m).1 ≡ m
  checked_idle len nothing go m e = ground arith

  decrease_idle : (m : Machine) → IsIdle m → IsIdle (decrease_motor_time m)
  unfolding decrease_motor_time
  decrease_idle m v = ground (arith, no_command m.base_offset)

  perform-IsIdle : (c : Call) (m : Machine) → IsIdle m → IsIdle (perform w fuel depth c m).1
  unfolding perform read write force_disable
  perform-IsIdle (read_call ptr len) m v =
      subst IsIdle (sym (last_step _ _ ∙ checked_idle len [] _ m v.not_init)) v
  perform-IsIdle (write_call ptr buf) m v =
      subst IsIdle (sym (checked_idle (length buf) tt _ m v.not_init)) v
  perform-IsIdle force_disable_call m v =
      decrease_idle (record m { motor_state = motor_disabling; motor_time_left = 0 })
        (record { no_base = v.no_base; not_init = v.not_init })
  perform-IsIdle tick m v = decrease_idle m v

  run-IsIdle : (cs : List Call) (m : Machine) → IsIdle m → IsIdle (run w fuel depth cs m).1
  unfolding run
  run-IsIdle [] m v = v
  run-IsIdle (c ∷ cs) m v =
      on_attempt IsIdle (run w fuel depth cs) (perform w fuel depth c m).0
        (perform w fuel depth c m).1 (run-IsIdle cs) (perform-IsIdle c m v)

  abbrev IsStarted : Machine → Type 0
  IsStarted m = IsIdle m ⊎ (IsOrderly w main_base m ⊎ IsOrderly w secondary_base m)

  main_apart : 5 + main_base ≢ 0x80
  main_apart e = omega (arith, e)

  secondary_apart : 5 + secondary_base ≢ 0x80
  secondary_apart e = omega (arith, e)

  run-IsStarted : (cs : List Call) (m : Machine) → IsStarted m → IsStarted (run w fuel depth cs m).1
  run-IsStarted cs m (inl v) = inl (run-IsIdle cs m v)
  run-IsStarted cs m (inr (inl v)) =
      inr (inl ((run-Keeps w fuel depth main_base main_apart cs).keep m v))
  run-IsStarted cs m (inr (inr v)) =
      inr (inr ((run-Keeps w fuel depth secondary_base secondary_apart cs).keep m v))

  -- The CMOS was read.
  abbrev informed : Bool → Machine
  informed pit = record (booted pit) {
    accesses =
        read_from cmos_data ∷ wrote 0x80 0 ∷ wrote cmos_index cmos_floppy_reg ∷ wrote 0x80 0 ∷ [];
  }

  chosen_drive :
      (pit : Bool) (main secondary : Option FloppyInfo)
      → IsStarted ((choose_drive main secondary >> start_controller w fuel depth) (informed pit)).1
  unfolding choose_drive
  chosen_drive pit (some floppy) secondary = inr (
      inl (
        (start_controller-Keeps w fuel depth main_base main_apart).keep _
          (record { at_base = refl; orderly = (tt, (tt, (tt, tt))) })))
  chosen_drive pit none (some floppy) = inr (
      inr (
        (start_controller-Keeps w fuel depth secondary_base secondary_apart).keep _
          (record { at_base = refl; orderly = (tt, (tt, (tt, tt))) })))
  chosen_drive pit none none = inl (record { no_base = refl; not_init = refl })

  init-IsStarted : (pit : Bool) → IsStarted (init w fuel depth (booted pit)).1
  unfolding init read_cmos_reg readb writeb
  init-IsStarted pit = chosen_drive pit _ _

  in_use :
      (m : Machine)
      → IsStarted m
      → (base : ℕ) → m.base_offset ≡ some base
      → Orderly w base m.accesses
  in_use m (inl v) base e = absurd (ground (arith, v.no_base, e))
  in_use m (inr (inl v)) base e =
      let same : main_base ≡ base = cc (v.at_base, e) in
      subst (λ b. Orderly w b m.accesses) same v.orderly
  in_use m (inr (inr v)) base e =
      let same : secondary_base ≡ base = cc (v.at_base, e) in
      subst (λ b. Orderly w b m.accesses) same v.orderly

  -- Whatever the ports and the clock answer and whatever the kernel asks for: from its start on, the
  -- driver writes a byte to the FIFO of the controller that it uses only right after the status
  -- register said that it may, through every retry, reset and error.
  pub boot_run-Orderly :
      (pit : Bool) (cs : List Call) (base : ℕ)
      → (boot_run w fuel depth cs (booted pit)).1.base_offset ≡ some base
      → Orderly w base (boot_run w fuel depth cs (booted pit)).1.accesses
  unfolding boot_run
  boot_run-Orderly pit cs base =
      let r = init w fuel depth (booted pit) in
      in_use _
        (on_attempt IsStarted (run w fuel depth cs) r.0 r.1 (run-IsStarted cs) (init-IsStarted pit))
        base
