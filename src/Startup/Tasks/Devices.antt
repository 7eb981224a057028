-- ===== src/Startup/Tasks/Devices.antt =====
-- The startup tasks of the keyboard, the floppy drive and its filesystem: `init` of
-- kernel/src/interrupts/keyboard.rs, `init_wrapper` of kernel/src/floppy.rs and `init_floppyfs` of
-- kernel/src/floppy/floppyfs.rs on the kernel's statics. What the devices answer is an argument.
use sunflower.Common.{ℕ, Bool}
use sunflower.Common.Outcome.{Outcome, Exec, ok, err, panic, hang}
use sunflower.Keyboard.Start.{Controller, init as kbd_start}
use sunflower.Floppy.Machine.{World}
use sunflower.Floppy.Start.{init as floppy_start}
use sunflower.Floppy.FloppyFs.{floppy_drive, init_floppyfs as mount_floppyfs}
use sunflower.Startup.{ExitCode, ok_code, error}
use sunflower.Startup.Tasks.{Kernel, TaskError, kbd_error, floppy_error, floppyfs_error}

-- The ps2 controller, the machine around the floppy driver with the fuel of its loops and the depth
-- of its resets, the day and the year of the build, and the answer to the question whether to format
-- the drive.
pub record Devices : Type 0 where
  pub controller : Controller
  pub floppy : World
  pub fuel : ℕ
  pub depth : ℕ
  pub day : ℕ
  pub year : ℕ
  pub agreed : Bool

-- A task that may also panic or wait for ever.
abbrev pub DeviceTask : Type 0
DeviceTask = Exec Kernel ⊥ (ExitCode TaskError)

-- `exit_on_err!`, then `ExitCode::Ok`.
abbrev pub exit_on_err :
    {E : Type 0} → (E → TaskError) → Outcome E (Unit {0}) → Outcome ⊥ (ExitCode TaskError)
exit_on_err f (ok u) = ok ok_code
exit_on_err f (err e) = ok (error (f e))
exit_on_err f panic = panic
exit_on_err f hang = hang

module _ (d : Devices) where
  unfoldable pub init_kbd : DeviceTask
  unfolding kbd_start
  init_kbd k =
      let (r, kbd) = kbd_start d.controller k.pic_init k.kbd in
      (exit_on_err kbd_error r, record k { kbd = kbd })

  unfoldable pub init_floppy : DeviceTask
  unfolding floppy_start
  init_floppy k =
      let (r, drive) = floppy_start d.floppy d.fuel d.depth k.fs.mount.drive in
      (
        exit_on_err floppy_error r,
        record k { fs = record k.fs { mount = record k.fs.mount { drive = drive } } },
      )

  unfoldable pub init_floppyfs : DeviceTask
  unfolding mount_floppyfs floppy_drive
  init_floppyfs k =
      let (r, fs) =
        mount_floppyfs (floppy_drive d.floppy d.fuel d.depth) d.day d.year d.agreed k.fs in
      (exit_on_err floppyfs_error r, record k { fs = fs })
