-- ===== src/Panic/Tests.antt =====
-- Instances of the theorems about panics.
use sunflower.Common.{
  ◌==◌, if◌then◌else◌, length, All, ℕ, ◌+◌, ◌-◌, ◌%◌, ◌^◌, ◌≡◌, refl, true, false, some, List, [],
  ◌∷◌, ◌++◌, arith,
}
use sunflower.Floppy.Machine.{Access, wrote, World}
use sunflower.Floppy.Motor.{motor_on, motor_off, disable_command}
use sunflower.Vga.Tests.{blank, blank-IsValid}
use sunflower.Vga.Valid.{IsValid}
use sunflower.Common.Outcome.{ok}
use sunflower.Panic.Waiting.{IsAside, IsWaiting}
use sunflower.Vga.Print.{black, white, write_str}
use sunflower.Speaker.Quiet.{IsQuiet}
use sunflower.Panic.{State, Stack, stack_trace, kpanic}
use sunflower.Panic.Recover.{IsWhole, joined, kpanic_lem}

-- A sound plays, the motor is on and the buffer is held.
abbrev busy : State
busy = record {
  machine = record {
    accesses = wrote 0x61 3 ∷ [];
    base_offset = some 0x3F0;
    floppy_space = some 1440;
    drive_one = true;
    motor_state = motor_on;
    motor_time_left = 200;
    pit_init = true;
    floppy_init = true;
    bytes_read = 0;
    bytes_written = 0;
  };
  screen = record blank { buffer_held = true };
  panics = 2 ^ 64 - 1;
}

abbrev world : World
world = record { answer = λ a port. 3; clock = length }

busy-IsWhole : IsWhole busy.screen
busy-IsWhole = record {
  on_row = omega arith;
  on_column = omega arith;
  shown = blank-IsValid.shown;
  hidden = blank-IsValid.hidden;
}

abbrev texts : ℕ → List (List ℕ)
texts n = (b'K' ∷ b'P' ∷ b'\n' ∷ []) ∷ (b'?' ∷ []) ∷ []

kpanic_example :
    let r = kpanic world 5 3 texts busy in
    IsWaiting r.0
    × (write_str
          (joined (texts busy.panics))
          white
          black
          (record busy.screen { allow_row_0 = true; buffer_held = false })
        ≡ ok r.1.screen)
    × IsValid r.1.screen
    × (r.1.screen.allow_row_0 ≡ true)
    × IsQuiet r.1.machine.accesses
    × (r.1.machine.motor_state ≡ motor_off)
    × ((later before : List Access) × All IsAside later
        × (r.1.machine.accesses ≡ later ++ (wrote (2 + 0x3F0) (disable_command true) ∷ before)))
    × (r.1.panics ≡ (busy.panics + 1) % 2 ^ 64)
kpanic_example = kpanic_lem world 5 3 texts busy 0x3F0 busy-IsWhole refl (λ e. omega arith)

abbrev frames : Stack
frames = record {
  next = λ a. if a == 0x100 then 0x200 else if a == 0x200 then 0x300 else 0;
  rip = λ a. if a == 0x200 then 0 else a + 7;
}

stack_trace_run : stack_trace frames 6 0 0x100 ≡ (0, 0x107) ∷ []
unfolding stack_trace
stack_trace_run = refl
