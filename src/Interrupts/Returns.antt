-- ===== src/Interrupts/Returns.antt =====
-- Every handler returns to what it interrupted.
use sunflower.Common.{
  ℕ, ◌+◌, ◌-◌, ◌*◌, ◌/◌, ◌%◌, ◌^◌, ◌<◌, ◌≡◌, refl, Option, some, ◌∷◌, ◌++◌, arith,
}
use sunflower.Common.Bits.{}
use sunflower.Floppy.Motor.{decrease_motor_time}
use sunflower.Keyboard.Ring.{kbd_handler}
use sunflower.Kernel.Pic.{eoi}
use sunflower.Startup.Rtc
use sunflower.Interrupts.{
  Regs, IntStackFrame, Statics, Cpu, Devices, savestate, restore_state, iretq, timer_handler,
  kbd_wrapper, floppy_handler, dummy_handler, rtc_look, rtc_handler, cont_wrapper,
}

pub data Handler : Type 0 where
  timer kbd floppy dummy rtc breakpoint invalid_opcode : Handler

-- What the handler is for: its part of the statics, and the end of its interrupt.
abbrev pub served : Devices → ℕ → Handler → Statics → Statics
served dev r11 timer s = record s {
  time = (s.time + 1) % 2 ^ 64;
  machine = decrease_motor_time s.machine;
  eois = s.eois ++ eoi 0;
}
served dev r11 kbd s = record s {
  ring = kbd_handler dev.kbd_init dev.scancode s.ring;
  eois = s.eois ++ eoi 1;
}
served dev r11 floppy s = record s { eois = s.eois ++ eoi 6 }
served dev r11 dummy s = s
served dev r11 rtc s = record s {
  rtc = Rtc.rtc_handler dev.century dev.rtc_registers s.rtc;
  eois = s.eois ++ eoi 8;
}
served dev r11 breakpoint s = record s { cont_errcode = 3; reported = (3, r11) ∷ s.reported }
served dev r11 invalid_opcode s = record s { cont_errcode = 6; reported = (6, r11) ∷ s.reported }

-- Where the interrupted code goes on.
abbrev pub behind : Handler → ℕ → ℕ
behind invalid_opcode ip = ip + 2
behind h ip = ip

abbrev pub handle : (Regs → Regs) → Devices → ℕ → Handler → Cpu → Option (IntStackFrame × Cpu)
handle clobber dev rsp timer c = timer_handler clobber dev c
handle clobber dev rsp kbd c = kbd_wrapper clobber dev c
handle clobber dev rsp floppy c = floppy_handler clobber dev c
handle clobber dev rsp dummy c = dummy_handler clobber dev c
handle clobber dev rsp rtc c = rtc_handler clobber dev c
handle clobber dev rsp breakpoint c = cont_wrapper clobber dev 3 0 rsp c
handle clobber dev rsp invalid_opcode c = cont_wrapper clobber dev 6 2 rsp c

-- What the processor pushes before the handler runs.
abbrev pub interrupted : IntStackFrame → Cpu → Cpu
interrupted frame c = record c {
  stack = frame.ip ∷ frame.cs ∷ frame.flags ∷ frame.sp ∷ frame.ss ∷ c.stack;
}

depth_back : (d : ℕ) → d < 2 ^ 32 → ((d + 1) % 2 ^ 32 + 2 ^ 32 - 1) % 2 ^ 32 ≡ d
depth_back d h = omega arith

ip_kept : (ip inc : ℕ) → ip + inc < 2 ^ 64 → (ip + inc) % 2 ^ 64 ≡ ip + inc
ip_kept ip inc h = omega arith

ip_unmoved : (ip : ℕ) → ip < 2 ^ 64 → (ip + 0) % 2 ^ 64 ≡ ip
ip_unmoved ip h = omega arith

low_kept : (x : ℕ) → x / 2 ^ 16 * 2 ^ 16 + x % 2 ^ 16 ≡ x
low_kept x = omega arith

-- What `rtc_handler` does up to its label is the clock's handler; the stack and the depth stay.
rtc_look-kept :
    (clobber : Regs → Regs) (dev : Devices) (c : Cpu)
    → rtc_look clobber dev c ≡ record c {
      regs = (rtc_look clobber dev c).regs;
      statics = record c.statics {
        rtc = Rtc.rtc_handler dev.century dev.rtc_registers c.statics.rtc;
      };
    }
unfolding rtc_look Rtc.rtc_handler
rtc_look-kept clobber dev c = ground arith

module _ (clobber : Regs → Regs) (dev : Devices) (rsp : ℕ) (frame : IntStackFrame) (c : Cpu) where
  -- With a depth below 2 ^ 32 and an address to go on at below 2 ^ 64: whichever handler runs,
  -- and whatever the functions that it calls leave in the registers that are their caller's to
  -- save, it ends with `iretq` on the frame that the processor pushed, goes on at the interrupted
  -- instruction, or behind it if that is an invalid one, and leaves the registers, the stack and
  -- the depth as they were. It has done its own part and no other: the timer counts a tick and
  -- runs the motor's, the keyboard stores its scancode, the clock runs its handler, each with the
  -- end of its own interrupt, while the two errors are reported with the content of r11 as their
  -- address.
  pub handle_lem :
      (h : Handler)
      → c.depth < 2 ^ 32
      → behind h frame.ip < 2 ^ 64
      → handle clobber dev rsp h (interrupted frame c)
        ≡ some (
          record frame { ip = behind h frame.ip },
          record c { statics = served dev c.regs.r11 h c.statics },
        )
  unfolding timer_handler kbd_wrapper floppy_handler dummy_handler rtc_handler cont_wrapper
      savestate restore_state iretq
  handle_lem timer d i = rw (depth_back c.depth d) refl
  handle_lem kbd d i = rw (depth_back c.depth d) refl
  handle_lem floppy d i = rw (depth_back c.depth d) refl
  handle_lem dummy d i = refl
  handle_lem rtc d i =
      let words = c.regs.rax % 2 ^ 16 ∷ c.regs.rdx % 2 ^ 16 ∷ (interrupted frame c).stack in
      rw
        (
          rtc_look-kept clobber dev (savestate (record c { stack = words })),
          depth_back c.depth d,
          low_kept c.regs.rax,
          low_kept c.regs.rdx,
        )
        refl
  handle_lem breakpoint d i = rw (depth_back c.depth d, ip_unmoved frame.ip i) refl
  handle_lem invalid_opcode d i = rw (depth_back c.depth d, ip_kept frame.ip 2 i) refl
