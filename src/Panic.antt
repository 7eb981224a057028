-- ===== src/Panic.antt =====
-- `kpanic` of kernel/src/panic.rs. The texts that it formats are arguments; the stack is a memory of
-- frames, and what the keyboard's port answers is the machine's.
pub mod Waiting
pub mod Recover
pub mod Trace
mod Tests
use sunflower.Common.{
  ◌==◌, if◌then◌else◌, ℕ, zero, suc, ◌+◌, ◌%◌, ◌^◌, Bool, true, false, ◌||◌, List, [], ◌∷◌,
}
use sunflower.Common.Bits.{}
use sunflower.Common.Outcome.{Outcome, ok, err, panic, hang}
use sunflower.Floppy.Machine.{wrote, World, Machine, readb}
use sunflower.Floppy.Motor.{force_disable}
use sunflower.Speaker.{stop}
use sunflower.Vga.Screen.{Screen}
use sunflower.Vga.Cursor.{update_visual_pos}
use sunflower.Vga.Print.{black, white, bind, write_str}

abbrev pub ps2_data : ℕ
ps2_data = 0x60

abbrev pub esc_scancode_set1 : ℕ
esc_scancode_set1 = 0x01

abbrev pub esc_scancode_set2 : ℕ
esc_scancode_set2 = 0x76

-- The machine with the speaker and the motor, the screen, and `PANICS`.
pub record State : Type 0 where
  pub machine : Machine
  pub screen : Screen
  pub panics : ℕ

-- `Stackframe`: the next frame and the return address, at each address.
pub record Stack : Type 0 where
  pub next : ℕ → ℕ
  pub rip : ℕ → ℕ

-- `stack_trace`: the lines that are printed, from frame `stack`, each an index and an address.
unfoldable pub stack_trace : Stack → ℕ → ℕ → ℕ → List (ℕ × ℕ)
stack_trace st zero idx stack = []
stack_trace st (suc frames) idx stack =
    let rest = stack_trace st frames (idx + 1) (st.next stack) in
    if st.next stack == 0
    then []
    else if st.rip stack == 0
    then rest
    else (idx, st.rip stack) ∷ rest

-- What `print!` writes: white on black.
unfoldable pub print_all : List (List ℕ) → Screen → Outcome ⊥ Screen
print_all [] s = ok s
print_all (text ∷ texts) s = bind (write_str text white black s) (print_all texts)

-- `ports::writeb` of each, with the dummy writes.
unfoldable pub send_writes : List (ℕ × ℕ) → Machine → Machine
send_writes [] m = m
send_writes ((port, val) ∷ ws) m =
    send_writes ws (record m { accesses = wrote port val ∷ wrote 0x80 0 ∷ m.accesses })

module _ (w : World) (fuel : ℕ) where
  -- The speaker, the motor, row 0 and the buffer.
  unfoldable pub take_over : State → State
  unfolding stop force_disable
  take_over s = record s {
    machine = force_disable (stop w fuel s.machine).1;
    screen = record s.screen { allow_row_0 = true; buffer_held = false };
  }

  -- The loop at the end, which the restart leaves: whether it came, and the machine then.
  unfoldable pub wait_for_esc : ℕ → Machine → Bool × Machine
  unfolding readb
  wait_for_esc zero m = (false, m)
  wait_for_esc (suc n) m =
      let m' = (readb w ps2_data m).1 in
      let scancode = w.answer (wrote 0x80 0 ∷ m.accesses) ps2_data % 256 in
      let rest = wait_for_esc n m' in
      if scancode == esc_scancode_set1 || scancode == esc_scancode_set2 then (true, m') else rest

  abbrev pub waited : Bool → Outcome ⊥ (Unit {0})
  waited restarts = if restarts then ok tt else hang

  -- What follows the texts: the visual cursor, and as many rounds of the loop.
  abbrev pub show_and_wait : ℕ → State → Outcome ⊥ Screen → Outcome ⊥ (Unit {0}) × State
  show_and_wait rounds s (ok printed) =
      let (screen, writes) = update_visual_pos printed in
      let (restarts, m) = wait_for_esc rounds (send_writes writes s.machine) in
      (waited restarts, record s { machine = m; screen = screen })
  show_and_wait rounds s (err e) = (err e, s)
  show_and_wait rounds s panic = (panic, s)
  show_and_wait rounds s hang = (hang, s)

  -- Returns where the device is restarted, and is out of fuel after `rounds` scancodes without ESC.
  -- The texts, the one about ESC the last, are a function of the panics before.
  unfoldable pub kpanic : ℕ → (ℕ → List (List ℕ)) → State → Outcome ⊥ (Unit {0}) × State
  unfolding take_over print_all update_visual_pos wait_for_esc send_writes
  kpanic rounds texts s =
      let s' = take_over s in
      show_and_wait rounds (record s' { panics = (s.panics + 1) % 2 ^ 64 })
        (print_all (texts s.panics) s'.screen)
