-- ===== src/Startup/Kmain.antt =====
-- `kmain` of kernel/src/main.rs up to the boot chime (Speaker) and the poll loop: the startup tasks in
-- their order, each with the line that is printed about it, and the topbar. How the processor's
-- identification ends is an argument, and so are the texts of an error and of the topbar; what
-- `init_floppyfs` prints itself is left out.
pub mod Statics
pub mod Healthy
pub mod Started
use sunflower.Common.{ℕ, Option, none, some, List, [], ◌∷◌, ◌++◌}
use sunflower.Common.Outcome.{Outcome, Exec, ◌>>◌, ok, err, panic, hang}
use sunflower.Common.Text.{codes}
use sunflower.Vga.Screen.{Screen}
use sunflower.Vga.Print.{Color, black, bind, write_str}
use sunflower.Vga.Topbar
use sunflower.Vga.Topbar.{draw_topbar}
use sunflower.Vga.Cursor.{set_row, set_col, update_visual_pos}
use sunflower.Startup.{ExitCode, infallible, handle_exitcode}
use sunflower.Startup.Tasks.Devices.{Devices, DeviceTask, init_kbd, init_floppy, init_floppyfs}
use sunflower.Startup.Tasks.{
  Kernel, Hardware, TaskError, Task, load_idt, setup_tss, load_gdt, load_tss, init_pic,
  setup_rtc_int, set_timer, wait_for_rtc_sync,
}

pub record World : Type 0 where
  pub hardware : Hardware
  pub century : ℕ
  pub text : TaskError → List ℕ
  pub topbar : List ℕ
  pub devices : Devices
  pub check_cpuid : ExitCode TaskError

abbrev pub green : Color
green = 2

abbrev pub Boot : Type 0
Boot = Exec (Kernel × Screen) ⊥ (Unit {0})

abbrev pub shown : Kernel → Screen → Outcome ⊥ Screen → Outcome ⊥ (Unit {0}) × (Kernel × Screen)
shown k s (ok s') = (ok tt, (k, s'))
shown k s (err e) = (err e, (k, s))
shown k s panic = (panic, (k, s))
shown k s hang = (hang, (k, s))

module _ (w : World) where
  -- `startup::run`
  unfoldable pub run : List ℕ → Task → Boot
  unfolding handle_exitcode
  run name task (k, s) = let (code, k') = task k in shown k' s (handle_exitcode w.text name code s)

  abbrev pub coded :
      List ℕ
      → Screen
      → Outcome ⊥ (ExitCode TaskError) × Kernel
      → Outcome ⊥ (Unit {0}) × (Kernel × Screen)
  coded name s (ok code, k) = shown k s (handle_exitcode w.text name code s)
  coded name s (err e, k) = (err e, (k, s))
  coded name s (panic, k) = (panic, (k, s))
  coded name s (hang, k) = (hang, (k, s))

  -- `startup::run` of a task that may not return.
  unfoldable pub run_device : List ℕ → DeviceTask → Boot
  unfolding handle_exitcode
  run_device name task (k, s) = coded name s (task k)

  -- A task that does not touch the statics above.
  abbrev pub other : ExitCode TaskError → Task
  other code k = (code, k)

  abbrev pub run_waited :
      Screen
      → Kernel
      → Option (ExitCode TaskError × Kernel)
      → Outcome ⊥ (Unit {0}) × (Kernel × Screen)
  run_waited s k none = (hang, (k, s))
  run_waited s k (some (code, k')) =
      shown k' s (handle_exitcode w.text (codes "Finished RTC sync") code s)

  unfoldable pub run_rtc_sync : Boot
  unfolding handle_exitcode wait_for_rtc_sync
  run_rtc_sync (k, s) = run_waited s k (wait_for_rtc_sync w.hardware w.century k)

  -- `vga::init` and its line; clearing the screen sends the cursor to its start.
  unfoldable pub run_vga : Boot
  unfolding handle_exitcode Topbar.init set_col set_row update_visual_pos
  run_vga (k, s) =
      shown (record k { writes = k.writes ++ (update_visual_pos (set_row (set_col s 0) 1)).1 }) s
        (bind (Topbar.init s) (handle_exitcode w.text (codes "Connected VGA") infallible))

  abbrev pub completed : List ℕ
  completed = codes "\nAll startup tasks completed! " ++ (1 ∷ 10 ∷ 10 ∷ [])

  -- The visual cursor goes to the cursor.
  abbrev pub cursor_moved :
      Kernel → Screen → Outcome ⊥ Screen → Outcome ⊥ (Unit {0}) × (Kernel × Screen)
  cursor_moved k s (ok s') = (
    ok tt,
    (record k { writes = k.writes ++ (update_visual_pos s').1 }, (update_visual_pos s').0),
  )
  cursor_moved k s (err e) = (err e, (k, s))
  cursor_moved k s panic = (panic, (k, s))
  cursor_moved k s hang = (hang, (k, s))

  -- What is shown when the tasks are over.
  unfoldable pub complete : Boot
  unfolding draw_topbar update_visual_pos
  complete (k, s) =
      cursor_moved k s (bind (draw_topbar w.topbar s) (write_str completed green black))

  unfoldable pub kmain : Boot
  unfolding run_vga complete
  kmain = do
    run_vga
    run (codes "Loaded IDT") (load_idt w.hardware)
    run (codes "Prepared TSS load") (setup_tss w.hardware)
    run (codes "Loaded GDT") (load_gdt w.hardware)
    run (codes "Finished TSS load") (load_tss w.hardware)
    run (codes "Initialised PIC") (init_pic w.hardware)
    run (codes "Prepared RTC sync") (setup_rtc_int w.hardware)
    run (codes "Set PIT frequency") (set_timer w.hardware)
    run_device (codes "Initialised keyboard") (init_kbd w.devices)
    run (codes "Checked CPUID") (other w.check_cpuid)
    run_rtc_sync
    run_device (codes "Initialised floppy drive") (init_floppy w.devices)
    run_device (codes "Initialised floppyfs") (init_floppyfs w.devices)
    complete
