-- ===== src/Startup/Tests.antt =====
-- Instances of the theorems about the start of the kernel.
use sunflower.Common.{◌==◌, if◌then◌else◌, length, ◌*◌, true, false, [], ◌∷◌}
use sunflower.Kernel.Time.{Registers}
use sunflower.Startup.{ok_code}
use sunflower.Startup.Rtc.{cmos_reg_c}
use sunflower.Startup.Kmain.{World}
use sunflower.Floppy.Machine

abbrev quiet : Registers
quiet reg = 0

abbrev ended : Registers
ended reg = if reg == cmos_reg_c then 0x10 else 0x12

-- A 1.44 MB drive whose controller never answers, with a clock that runs fast.
abbrev present : Machine.World
present = record {
  answer = λ a port. if port == 0x71 then 0x40 else 0;
  clock = λ a. 100 * length a;
}

abbrev machine : World
machine = record {
  hardware = record {
    cs = 8;
    handler = λ h. 0x1000;
    stack_addr = 0x8000;
    tss_addr = 0x9000;
    idtr_kept = false;
    gdtr_kept = true;
    task_register = 0x18;
    reg_b = 2;
    rtc_interrupts = quiet ∷ ended ∷ quiet ∷ [];
  };
  century = 20;
  text = λ e. [];
  topbar = b'o' ∷ b'k' ∷ [];
  devices = record {
    controller = λ asked cmd. true;
    floppy = present;
    fuel = 40;
    depth = 1;
    day = 100;
    year = 2026;
    agreed = true;
  };
  check_cpuid = ok_code;
}
