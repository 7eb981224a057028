-- ===== src/Interrupts/Tests.antt =====
-- Instances of the theorems about interrupts.
use sunflower.Common.{◌-◌, ◌^◌, ◌≡◌, true, false, some, [], ◌∷◌, arith}
use sunflower.Keyboard.Ring.{fresh}
use sunflower.Floppy.Motor.{motor_disabling}
use sunflower.Startup.Rtc.First.{no_rtc}
use sunflower.Interrupts.{Regs, IntStackFrame, Devices, Cpu}
use sunflower.Interrupts.Returns.{invalid_opcode, handle, interrupted, handle_lem}

abbrev frame : IntStackFrame
frame = record { ip = 0x1000; cs = 8; flags = 0x202; sp = 0x7F00; ss = 16 }

abbrev cpu : Cpu
cpu = record {
  regs = record { rdi = 1; rax = 2; rcx = 3; rdx = 4; rsi = 5; r8 = 6; r9 = 7; r10 = 8; r11 = 9 };
  stack = 77 ∷ [];
  depth = 0;
  statics = record {
    time = 2 ^ 64 - 1;
    machine = record {
      accesses = [];
      base_offset = some 0x3F0;
      floppy_space = some 1440;
      drive_one = false;
      motor_state = motor_disabling;
      motor_time_left = 0;
      pit_init = true;
      floppy_init = true;
      bytes_read = 0;
      bytes_written = 0;
    };
    ring = fresh;
    rtc = no_rtc;
    eois = [];
    cont_errcode = 255;
    reported = [];
  };
}

abbrev devices : Devices
devices = record { kbd_init = true; scancode = 30; century = 20; rtc_registers = λ reg. 0 }

abbrev zeroed : Regs → Regs
zeroed r = record r { rax = 0; rdi = 0; r11 = 0 }

-- An invalid opcode: its address is not the one that is reported.
handle_example :
    handle zeroed devices 0x6000 invalid_opcode (interrupted frame cpu)
    ≡ some (
      record frame { ip = 0x1002 },
      record cpu { statics = record cpu.statics { cont_errcode = 6; reported = (6, 9) ∷ [] } },
    )
handle_example =
    handle_lem zeroed devices 0x6000 frame cpu invalid_opcode (omega arith) (omega arith)
