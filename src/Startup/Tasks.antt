-- ===== src/Startup/Tasks.antt =====
-- The startup tasks of kernel/src/gdt.rs, kernel/src/interrupts.rs, kernel/src/interrupts/pic.rs and
-- kernel/src/time.rs: their statics and flags. What the processor has stored in its registers after
-- they are loaded is an argument.
pub mod Devices
use sunflower.Common.{
  ◌==◌, if◌then◌else◌, ℕ, ◌+◌, bit_or, Bool, true, false, not, Option, none, some, List, [], ◌∷◌,
  ◌++◌,
}
use sunflower.Common.Bits.{}
use sunflower.Sync.InitLater.{InitLater, InitResult}
use sunflower.Sync.InitLater
use sunflower.Kernel.Descriptors.{Handler, Idt, new_idt, gdt_table, tss_size}
use sunflower.Kernel.Time.{Registers, cmos_reg_b, set_timer_interval}
use sunflower.Kernel.Pic
use sunflower.Keyboard.Start.{KbdInitError}
use sunflower.Keyboard.Start
use sunflower.Floppy.Machine.{Machine, FloppyError}
use sunflower.Floppy.FloppyFs.{FsState, InitError}
use sunflower.Startup.{ExitCode, infallible, ok_code, error, stop}
use sunflower.Startup.Rtc.{Rtc, RtcSyncWaitError, no_irq, static_error, wait_sync}

-- The parts of `Tss` that are set.
pub record Tss : Type 0 where
  pub first_ist : ℕ
  pub iomap : ℕ

abbrev pub stack_size : ℕ
stack_size = 2048

abbrev pub tss_segment_offset : ℕ
tss_segment_offset = 0x18

-- The statics and flags, with those of the keyboard and of the floppy drive and its filesystem as
-- their parts have them: `PIT_INIT` is the floppy driver's, and whether interrupts are let in is the
-- keyboard's. Then the port writes, the first one first and without the dummy ones, of everything
-- but the keyboard and the floppy drive, whose histories are their own, and the handlers.
pub record Kernel : Type 0 where
  pub idt : InitLater Idt
  pub tss : InitLater Tss
  pub gdt : InitLater (List ℕ)
  pub gdt_init : Bool
  pub pic_init : Bool
  pub rtc_irq_init : Bool
  pub rtc : Rtc
  pub kbd : Start.State
  pub fs : FsState Machine
  pub writes : List (ℕ × ℕ)

-- The addresses of the handlers, of the emergency stack and of the TSS, the code segment's selector,
-- whether storing the two table registers gives back what was loaded, what storing the task register
-- gives, register B, and the registers at each interrupt of the clock.
pub record Hardware : Type 0 where
  pub cs : ℕ
  pub handler : Handler → ℕ
  pub stack_addr : ℕ
  pub tss_addr : ℕ
  pub idtr_kept : Bool
  pub gdtr_kept : Bool
  pub task_register : ℕ
  pub reg_b : ℕ
  pub rtc_interrupts : List Registers

pub data TaskError : Type 0 where
  init_error : ℕ → TaskError
  store_error : TaskError
  no_gdt : TaskError
  bad_store : ℕ → TaskError
  no_pic : TaskError
  sync_wait : RtcSyncWaitError → TaskError
  kbd_error : KbdInitError → TaskError
  floppy_error : FloppyError → TaskError
  floppyfs_error : InitError FloppyError → TaskError

abbrev pub Task : Type 0
Task = Kernel → ExitCode TaskError × Kernel

-- `cli` and `sti`
abbrev pub let_in : Bool → Kernel → Kernel
let_in b k = record k { kbd = record k.kbd { lets_in = b } }

-- `PIT_INIT.store(true)`
abbrev pub set_pit_init : Kernel → Kernel
set_pit_init k = record k {
  fs = record k.fs {
    mount = record k.fs.mount { drive = record k.fs.mount.drive { pit_init = true } };
  };
}

-- `exit_on_err!` on the `init` of a static.
abbrev pub inited :
    {T : Type 0}
    → (TaskError → ExitCode TaskError)
    → InitResult T
    → Kernel
    → (Kernel → ExitCode TaskError × Kernel)
    → ExitCode TaskError × Kernel
inited code (InitLater.ok v) k f = f k
inited code (InitLater.err e) k f = (code (init_error e.state), k)
inited code InitLater.undefined k f = f k

module _ (h : Hardware) where
  unfoldable pub load_idt : Task
  unfolding InitLater.init new_idt
  load_idt k =
      let (r, idt) = InitLater.init k.idt (new_idt h.cs h.handler) in
      inited stop r (record k { idt = idt })
        (λ k'. (if h.idtr_kept then ok_code else stop store_error, k'))

  unfoldable pub setup_tss : Task
  unfolding InitLater.init
  setup_tss k =
      let (r, tss) =
        InitLater.init k.tss (record { first_ist = h.stack_addr + stack_size; iomap = tss_size }) in
      inited error r (record k { tss = tss }) (λ k'. (ok_code, k'))

  tss_address : InitResult Tss → Option ℕ
  tss_address (InitLater.ok t) = some h.tss_addr
  tss_address (InitLater.err e) = none
  tss_address InitLater.undefined = none

  -- The flag is only set when the register holds the table.
  unfoldable pub load_gdt : Task
  unfolding InitLater.init InitLater.read gdt_table tss_address
  load_gdt k =
      let (r, gdt) = InitLater.init k.gdt (gdt_table (tss_address (InitLater.read k.tss))) in
      inited error r (let_in false (record k { gdt = gdt })) (λ k'.
        if h.gdtr_kept then (ok_code, record k' { gdt_init = true }) else (error store_error, k'))

  unfoldable pub load_tss : Task
  load_tss k =
      if not k.gdt_init
      then (error no_gdt, k)
      else if h.task_register == tss_segment_offset
      then (ok_code, k)
      else (error (bad_store h.task_register), k)

  unfoldable pub init_pic : Task
  unfolding Pic.init
  init_pic k = (infallible, record k { writes = k.writes ++ Pic.init; pic_init = true })

  unfoldable pub setup_rtc_int : Task
  setup_rtc_int k = if not k.pic_init then (error no_pic, k) else (
    infallible,
    let_in true (record k {
      writes =
          k.writes
          ++ ((0x70, cmos_reg_b) ∷ (0x70, cmos_reg_b) ∷ (0x71, bit_or h.reg_b 0b1000000) ∷ []);
      rtc_irq_init = true;
    }),
  )

  abbrev pub timer_set : Kernel → Option (List (ℕ × ℕ)) → ExitCode TaskError × Kernel
  timer_set k none = (error no_pic, k)
  timer_set k (some ws) =
      (infallible, set_pit_init (let_in true (record k { writes = k.writes ++ ws })))

  unfoldable pub set_timer : Task
  unfolding set_timer_interval
  set_timer k = timer_set k (set_timer_interval k.pic_init)

  abbrev pub sync_result : Kernel → Option RtcSyncWaitError → ExitCode TaskError × Kernel
  sync_result k none = (ok_code, k)
  sync_result k (some e) = (error (sync_wait e), k)

  -- None where the loop waits for ever.
  unfoldable pub wait_for_rtc_sync : ℕ → Kernel → Option (ExitCode TaskError × Kernel)
  unfolding wait_sync InitLater.read
  wait_for_rtc_sync century k =
      if not k.rtc_irq_init
      then some (error (sync_wait no_irq), k)
      else elim (wait_sync century h.rtc_interrupts k.rtc) [
        | none ↦ none
        | some r ↦
            some (sync_result (record k { rtc = r }) (static_error (InitLater.read r.launch_time)))
      ]
