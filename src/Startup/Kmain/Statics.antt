-- ===== src/Startup/Kmain/Statics.antt =====
-- The kernel's statics before and after a start.
use sunflower.Common.{
  replicate, ℕ, ◌+◌, ◌/◌, ◌%◌, ◌^◌, bit_or, true, false, some, List, [], ◌∷◌, ◌++◌,
}
use sunflower.Common.Outcome.{Outcome}
use sunflower.Sync.Exclusive.{new}
use sunflower.Sync.InitLater.{InitLater}
use sunflower.Sync.InitLater
use sunflower.Fs.Inode.{zeroed}
use sunflower.Fs.Bitmap.{fresh_bitmap}
use sunflower.Fs.Table.{inodes}
use sunflower.Kernel.Descriptors.{new_idt, gdt_table, tss_size}
use sunflower.Kernel.Time.{Registers, cmos_reg_b, tick_interval}
use sunflower.Kernel.Pic
use sunflower.Vga.Screen.{buffer_width}
use sunflower.Vga.Cursor.{port_selector_c, port_register_c}
use sunflower.Keyboard.Start.{State, init as kbd_start}
use sunflower.Floppy.Machine.{FloppyError, Machine}
use sunflower.Floppy.Start.{init as floppy_start}
use sunflower.Floppy.Protocol.Boot.{booted}
use sunflower.Floppy.FloppyFs.{InitError, FsState, floppy_drive, init_floppyfs as mount_floppyfs}
use sunflower.Startup.Tasks.{stack_size, tss_segment_offset, Kernel}
use sunflower.Startup.Tasks.Devices.{Devices}
use sunflower.Startup.Rtc.First.{no_rtc, synced}
use sunflower.Startup.Kmain.{World}

-- Before the first task.
abbrev pub cold : Kernel
cold = record {
  idt = InitLater.uninit;
  tss = InitLater.uninit;
  gdt = InitLater.uninit;
  gdt_init = false;
  pic_init = false;
  rtc_irq_init = false;
  rtc = no_rtc;
  kbd = record { asked = []; lets_in = false; kbd_init = false };
  fs = record {
    mount = record {
      table = replicate inodes (new zeroed);
      bitmap = fresh_bitmap;
      drive = booted false;
    };
    floppyfs_init = false;
  };
  writes = [];
}

-- The processor stores what was loaded.
abbrev pub sound : World → World
sound w = record w {
  hardware = record w.hardware {
    idtr_kept = true;
    gdtr_kept = true;
    task_register = tss_segment_offset;
  };
}

abbrev pub holding_value : {T : Type 0} → T → InitLater T
holding_value v = record { cell = some v; state = InitLater.initialised }

-- The start of the screen sends the visual cursor to the first cell below the topbar.
abbrev pub home_writes : List (ℕ × ℕ)
home_writes =
    (port_selector_c, 0x0E)
    ∷ (port_register_c, 0)
    ∷ (port_selector_c, 0x0F)
    ∷ (port_register_c, buffer_width)
    ∷ []

-- After the start of the screen.
abbrev pub displayed : Kernel
displayed = record cold { writes = home_writes }

-- The keyboard's statics when `init` of the keyboard has let interrupts in.
abbrev pub kbd_before : State
kbd_before = record { asked = []; lets_in = true; kbd_init = false }

module _ (d : Devices) where
  -- What `init` of the keyboard leaves, with the PIC initialised; it lets interrupts in.
  abbrev pub kbd_left : State
  kbd_left =
      record (kbd_start d.controller true
        (record { asked = []; lets_in = true; kbd_init = false })).1 { lets_in = true }

  -- What `init` of the floppy driver returns and leaves, with the timer set.
  abbrev pub floppy_left : Outcome FloppyError (Unit {0}) × Machine
  floppy_left = floppy_start d.floppy d.fuel d.depth (booted true)

  -- What `init_floppyfs` returns and leaves after it.
  abbrev pub floppyfs_left : Outcome (InitError FloppyError) (Unit {0}) × FsState Machine
  floppyfs_left =
      mount_floppyfs (floppy_drive d.floppy d.fuel d.depth) d.day d.year d.agreed (record {
        mount = record {
          table = replicate inodes (new zeroed);
          bitmap = fresh_bitmap;
          drive = floppy_left.1;
        };
        floppyfs_init = false;
      })

-- After the last task, with the launch time taken from `reg`.
abbrev pub started : World → Registers → Kernel
started w reg =
    let h = w.hardware in
    record {
      idt = holding_value (new_idt h.cs h.handler);
      tss = holding_value (record { first_ist = h.stack_addr + stack_size; iomap = tss_size });
      gdt = holding_value (gdt_table (some h.tss_addr));
      gdt_init = true;
      pic_init = true;
      rtc_irq_init = true;
      rtc = synced w.century (some reg);
      kbd = kbd_left w.devices;
      fs = (floppyfs_left w.devices).1;
      writes =
          home_writes
          ++ (Pic.init
              ++ (((0x70, cmos_reg_b) ∷ (0x70, cmos_reg_b) ∷ (0x71, bit_or h.reg_b 0b1000000) ∷ [])
                  ++ ((0x43, 0b0_111_11_00)
                      ∷ (0x40, tick_interval % 2 ^ 8)
                      ∷ (0x40, tick_interval / 2 ^ 8 % 2 ^ 8)
                      ∷ [])));
    }
