-- ===== src/Interrupts.antt =====
-- The handlers of kernel/src/interrupts/idt.rs: what they push, call and restore. A function that a
-- handler calls keeps the stack, as its calling convention says, and may change the registers that
-- are its caller's to save, which `clobber` does. A build without the feature `debug_info`.
pub mod Codes
pub mod DoubleFault
pub mod Returns
mod Tests
use sunflower.Common.{
  if◌then◌else◌, ℕ, ◌+◌, ◌-◌, ◌*◌, ◌/◌, ◌%◌, ◌^◌, bit_or, Bool, true, false, Option, none, some,
  List, [], ◌∷◌, ◌++◌,
}
use sunflower.Common.Outcome.{Outcome}
use sunflower.Floppy.Machine.{Machine}
use sunflower.Floppy.Motor.{decrease_motor_time}
use sunflower.Keyboard.Ring.{Ring, kbd_handler}
use sunflower.Kernel.Time.{Registers}
use sunflower.Kernel.Pic.{eoi}
use sunflower.Startup.Rtc.{Rtc, cmos_reg_c, has_ended, sync_time_to_rtc}
use sunflower.Vga.Screen.{Screen}
use sunflower.Vga.Buffers.{clear}
use sunflower.Vga.Print.{black, white, write_str}

-- The registers that `savestate!` saves.
pub record Regs : Type 0 where
  pub rdi : ℕ
  pub rax : ℕ
  pub rcx : ℕ
  pub rdx : ℕ
  pub rsi : ℕ
  pub r8 : ℕ
  pub r9 : ℕ
  pub r10 : ℕ
  pub r11 : ℕ

-- `IntStackFrame`, in the order in which it lies on the stack.
pub record IntStackFrame : Type 0 where
  pub ip : ℕ
  pub cs : ℕ
  pub flags : ℕ
  pub sp : ℕ
  pub ss : ℕ

-- What the handlers change: `TIME`, the motor, the scancode buffer, the launch time, the port writes
-- of `eoi`, `cont_errcode`, and the errors that `cont` printed, each with its address.
pub record Statics : Type 0 where
  pub time : ℕ
  pub machine : Machine
  pub ring : Ring
  pub rtc : Rtc
  pub eois : List (ℕ × ℕ)
  pub cont_errcode : ℕ
  pub reported : List (ℕ × ℕ)

-- The words on the stack, the top first, and `int_handler_count`.
pub record Cpu : Type 0 where
  pub regs : Regs
  pub stack : List ℕ
  pub depth : ℕ
  pub statics : Statics

-- The flag of the keyboard, port 0x60, the century and the clock's registers.
pub record Devices : Type 0 where
  pub kbd_init : Bool
  pub scancode : ℕ
  pub century : ℕ
  pub rtc_registers : Registers

unfoldable pub savestate : Cpu → Cpu
savestate c =
    let r = c.regs in
    record c {
      stack = r.r11 ∷ r.r10 ∷ r.r9 ∷ r.r8 ∷ r.rsi ∷ r.rdx ∷ r.rcx ∷ r.rax ∷ r.rdi ∷ c.stack;
      depth = (c.depth + 1) % 2 ^ 32;
    }

-- None where the stack is too short.
abbrev pub restored : Cpu → List ℕ → Option Cpu
restored c (r11 ∷ r10 ∷ r9 ∷ r8 ∷ rsi ∷ rdx ∷ rcx ∷ rax ∷ rdi ∷ stack) = some (record c {
  regs = record {
    rdi = rdi;
    rax = rax;
    rcx = rcx;
    rdx = rdx;
    rsi = rsi;
    r8 = r8;
    r9 = r9;
    r10 = r10;
    r11 = r11;
  };
  stack = stack;
  depth = (c.depth + 2 ^ 32 - 1) % 2 ^ 32;
})
restored c stack = none

unfoldable pub restore_state : Cpu → Option Cpu
restore_state c = restored c c.stack

abbrev pub frame_of : List ℕ → Option (IntStackFrame × List ℕ)
frame_of (ip ∷ cs ∷ flags ∷ sp ∷ ss ∷ stack) =
    some (record { ip = ip; cs = cs; flags = flags; sp = sp; ss = ss }, stack)
frame_of stack = none

abbrev pub returned : Cpu → Option (IntStackFrame × List ℕ) → Option (IntStackFrame × Cpu)
returned c none = none
returned c (some (frame, stack)) = some (frame, record c { stack = stack })

-- `iretq`: where to go on.
unfoldable pub iretq : Cpu → Option (IntStackFrame × Cpu)
iretq c = returned c (frame_of c.stack)

abbrev pub chain : Option Cpu → (Cpu → Option (IntStackFrame × Cpu)) → Option (IntStackFrame × Cpu)
chain none f = none
chain (some c) f = f c

-- "add qword ptr [rsp], inc"
abbrev pub add_to_top : ℕ → List ℕ → List ℕ
add_to_top inc [] = []
add_to_top inc (ip ∷ stack) = (ip + inc) % 2 ^ 64 ∷ stack

-- A structure of five words is passed in memory: the words on top of the stack before the call.
abbrev pub ip_passed : List ℕ → ℕ
ip_passed [] = 0
ip_passed (ip ∷ stack) = ip

abbrev pub set_dx : ℕ → Regs → Regs
set_dx v r = record r { rdx = r.rdx / 2 ^ 16 * 2 ^ 16 + v }

abbrev pub set_ax : ℕ → Regs → Regs
set_ax v r = record r { rax = r.rax / 2 ^ 16 * 2 ^ 16 + v }

abbrev pub set_al : ℕ → Regs → Regs
set_al v r = record r { rax = r.rax / 2 ^ 8 * 2 ^ 8 + v }

abbrev pub set_ah : ℕ → Regs → Regs
set_ah v r = record r { rax = r.rax / 2 ^ 16 * 2 ^ 16 + v * 2 ^ 8 + r.rax % 2 ^ 8 }

abbrev pub set_rdi : ℕ → Cpu → Cpu
set_rdi v c = record c { regs = record c.regs { rdi = v } }

-- The first pops of two bytes that `rtc_handler` ends with; the words that it pushed first.
abbrev pub popped_ax_dx : Cpu → List ℕ → Option Cpu
popped_ax_dx c (ax ∷ dx ∷ stack) =
    some (record c { regs = set_dx dx (set_ax ax c.regs); stack = stack })
popped_ax_dx c stack = none

module _ (clobber : Regs → Regs) (dev : Devices) where
  abbrev pub call : (Statics → Statics) → Cpu → Cpu
  call f c = record c { regs = clobber c.regs; statics = f c.statics }

  abbrev pub call_eoi : ℕ → Cpu → Cpu
  call_eoi irq c = call (λ s. record s { eois = s.eois ++ eoi (irq % 2 ^ 8) }) (set_rdi irq c)

  unfoldable pub timer_handler : Cpu → Option (IntStackFrame × Cpu)
  unfolding savestate restore_state iretq decrease_motor_time eoi
  timer_handler c =
      let c₁ = savestate c in
      let c₂ = record c₁ { statics = record c₁.statics { time = (c.statics.time + 1) % 2 ^ 64 } } in
      let c₃ = call (λ s. record s { machine = decrease_motor_time s.machine }) c₂ in
      chain (restore_state (call_eoi 0 c₃)) iretq

  unfoldable pub kbd_wrapper : Cpu → Option (IntStackFrame × Cpu)
  unfolding savestate restore_state iretq kbd_handler eoi
  kbd_wrapper c =
      let c₁ =
        call (λ s. record s { ring = kbd_handler dev.kbd_init dev.scancode s.ring })
          (savestate c) in
      chain (restore_state (call_eoi 1 c₁)) iretq

  unfoldable pub floppy_handler : Cpu → Option (IntStackFrame × Cpu)
  unfolding savestate restore_state iretq eoi
  floppy_handler c = chain (restore_state (call_eoi 6 (savestate c))) iretq

  unfoldable pub dummy_handler : Cpu → Option (IntStackFrame × Cpu)
  unfolding iretq
  dummy_handler c = iretq c

  -- Register C is selected and read.
  abbrev pub selected : Regs → Regs
  selected r =
      let reg_c = dev.rtc_registers cmos_reg_c in
      set_ah (bit_or reg_c 16) (set_al reg_c (set_dx 0x71 (set_al 0x8C (set_dx 0x70 r))))

  -- Up to the label `rtc_ret`.
  unfoldable pub rtc_look : Cpu → Cpu
  unfolding has_ended sync_time_to_rtc
  rtc_look c =
      let c₁ = record c { regs = selected c.regs } in
      if c.statics.rtc.update_ended
      then c
      else if has_ended dev.rtc_registers
      then call
          (λ s. record s {
            rtc =
                sync_time_to_rtc dev.century dev.rtc_registers
                  (record s.rtc { update_ended = true });
          })
          c₁
      else c₁

  unfoldable pub rtc_handler : Cpu → Option (IntStackFrame × Cpu)
  unfolding savestate restore_state iretq rtc_look eoi
  rtc_handler c =
      let pushed = record c { stack = c.regs.rax % 2 ^ 16 ∷ c.regs.rdx % 2 ^ 16 ∷ c.stack } in
      chain (restore_state (call_eoi 8 (rtc_look (savestate pushed))))
        (λ c₁. chain (popped_ax_dx c₁ c₁.stack) iretq)

  -- The error code is a byte; the byte behind it, which the store also writes, is left out.
  unfoldable pub cont_wrapper : ℕ → ℕ → ℕ → Cpu → Option (IntStackFrame × Cpu)
  unfolding savestate restore_state iretq
  cont_wrapper errcode inc rsp c =
      let c₁ = set_rdi (rsp + 9 * 8) (savestate c) in
      let c₂ = record c₁ { statics = record c₁.statics { cont_errcode = errcode % 2 ^ 8 } } in
      let c₃ =
        call (λ s. record s { reported = (s.cont_errcode, ip_passed c₂.stack) ∷ s.reported }) c₂ in
      chain (restore_state c₃) (λ c₄. iretq (record c₄ { stack = add_to_top inc c₄.stack }))

-- `double_fault_handler` before it hangs, and `print_df_info`; the text is a function of the frame.
unfoldable pub print_df_info : (IntStackFrame → List ℕ) → IntStackFrame → Screen → Outcome ⊥ Screen
unfolding clear
print_df_info text frame s =
    write_str (text frame) white black (clear (record s { buffer_held = false }))

abbrev pub shown_frame :
    (IntStackFrame → List ℕ) → Screen → Option (IntStackFrame × List ℕ) → Option (Outcome ⊥ Screen)
shown_frame text s none = none
shown_frame text s (some (frame, stack)) = some (print_df_info text frame s)

-- The empty error code is popped.
unfoldable pub double_fault_handler :
    (IntStackFrame → List ℕ) → List ℕ → Screen → Option (Outcome ⊥ Screen)
unfolding print_df_info
double_fault_handler text [] s = none
double_fault_handler text (code ∷ stack) s = shown_frame text s (frame_of stack)
