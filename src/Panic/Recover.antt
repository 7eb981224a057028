-- ===== src/Panic/Recover.antt =====
-- A panic leaves nothing running and can always print.
use sunflower.Common.{
  ◌==◌, if◌then◌else◌, All, ℕ, ◌+◌, ◌-◌, ◌%◌, ◌^◌, ◌<◌, ◌≡◌, refl, sym, ap, subst, ◌∙◌, ◌≢◌, true,
  false, Option, none, some, List, [], ◌∷◌, ◌++◌, arith,
}
use sunflower.Floppy.Machine.{Access, wrote, World, Machine, writeb, readb}
use sunflower.Floppy.Motor.{
  motor_disabling, motor_off, disable_command, send_disable_cmd, decrease_motor_time, force_disable,
}
use sunflower.Vga.Screen.{buffer_height, buffer_width, Screen}
use sunflower.Vga.Print.{black, white, bind, write_str}
use sunflower.Vga.Valid.Printed.{write_str-append}
use sunflower.Vga.Valid.{IsBuffer, IsValid, Returns, onward, write_str-Returns}
use sunflower.Common.Outcome.{Outcome, ok, err, panic, hang}
use sunflower.Speaker.{stop}
use sunflower.Speaker.Quiet.{IsQuiet, stop-IsQuiet}
use sunflower.Panic.Waiting.{
  IsAside, Idles-IsQuiet, IsWaiting, show_and_wait_lem, show_and_wait-panics,
}
use sunflower.Panic.{State, print_all, take_over, kpanic}

-- The cursor is on the screen and the buffers have their size; the buffer may be held.
pub record IsWhole (s : Screen) : Type 0 where
  pub on_row : s.row < buffer_height
  pub on_column : s.column < buffer_width
  pub shown : IsBuffer s.buffer
  pub hidden : IsBuffer s.alt

taken_over : Screen → Screen
taken_over s = record s { allow_row_0 = true; buffer_held = false }

taken_over-IsValid : (s : Screen) → IsWhole s → IsValid (taken_over s)
unfolding taken_over
taken_over-IsValid s v = record {
  on_row = v.on_row;
  on_column = v.on_column;
  below_topbar = λ e. absurd (ground (arith, e));
  shown = v.shown;
  hidden = v.hidden;
  free = refl;
}

print_all-Returns :
    (texts : List (List ℕ)) (s : Screen)
    → IsValid s
    → s.allow_row_0 ≡ true
    → Returns true (print_all texts s)
unfolding print_all
print_all-Returns [] s v a = (v, a)
print_all-Returns (text ∷ texts) s v a =
    onward (write_str text white black s) (print_all texts)
      (subst (λ b. Returns b (write_str text white black s)) a
        (write_str-Returns text white black s v))
      (λ s' v' a'. print_all-Returns texts s' v' a')

-- The texts as one.
abbrev pub joined : List (List ℕ) → List ℕ
joined [] = []
joined (text ∷ texts) = text ++ joined texts

bind-print_all :
    (o : Outcome ⊥ Screen) (texts : List (List ℕ))
    → ((s : Screen) → print_all texts s ≡ write_str (joined texts) white black s)
    → bind o (print_all texts) ≡ bind o (write_str (joined texts) white black)
bind-print_all (ok s) texts h = h s
bind-print_all (err e) texts h = refl
bind-print_all panic texts h = refl
bind-print_all hang texts h = refl

print_all-joined :
    (texts : List (List ℕ)) (s : Screen)
    → print_all texts s ≡ write_str (joined texts) white black s
unfolding print_all write_str
print_all-joined [] s = refl
print_all-joined (text ∷ texts) s =
    bind-print_all (write_str text white black s) texts (print_all-joined texts)
    ∙ write_str-append white black text (joined texts) s

told_to_stop :
    (o : Option ℕ) (m : Machine) (base : ℕ)
    → o ≡ some base
    → ((send_disable_cmd m o).motor_state ≡ motor_off)
      × ((send_disable_cmd m o).accesses
          ≡ wrote (2 + base) (disable_command m.drive_one) ∷ wrote 0x80 0 ∷ m.accesses)
told_to_stop none m base e = absurd (ground (arith, e))
told_to_stop (some b) m base e =
    let same : b ≡ base = cc in
    (refl, ap (λ b. wrote (2 + b) (disable_command m.drive_one) ∷ wrote 0x80 0 ∷ m.accesses) same)

still-IsQuiet :
    (port v : ℕ) (a : List Access)
    → port ≢ 0x61
    → IsQuiet a
    → IsQuiet (wrote port v ∷ wrote 0x80 0 ∷ a)
still-IsQuiet port v a ne q =
    let e : (port == 0x61) ≡ false = ground (arith, ne) in
    subst (λ b. if b then v % 4 ≡ 0 else IsQuiet (wrote 0x80 0 ∷ a)) (sym e) q

module _ (w : World) (fuel : ℕ) where
  -- However the panic found the kernel, with a buffer that is held, a motor that runs and a sound
  -- that plays: with the cursor on the screen, the driver's base set and the motor's port not the
  -- speaker's, `kpanic` neither panics nor fails, and after any number of rounds of its last loop it
  -- waits or has restarted the device. It has printed all of its texts in their order, with row 0
  -- allowed and the buffer free, and nothing else, and the screen is valid and allows row 0; the
  -- speaker is off, the motor's drive was sent the command to stop, after which only the ports of the
  -- visual cursor were written, but for dummy writes, and only the scancode was read, and the panic is
  -- counted.
  pub kpanic_lem :
      (rounds : ℕ) (texts : ℕ → List (List ℕ)) (s : State) (base : ℕ)
      → IsWhole s.screen
      → s.machine.base_offset ≡ some base
      → 2 + base ≢ 0x61
      → let r = kpanic w fuel rounds texts s in
        IsWaiting r.0
        × (write_str
              (joined (texts s.panics))
              white
              black
              (record s.screen { allow_row_0 = true; buffer_held = false })
            ≡ ok r.1.screen)
        × IsValid r.1.screen
        × (r.1.screen.allow_row_0 ≡ true)
        × IsQuiet r.1.machine.accesses
        × (r.1.machine.motor_state ≡ motor_off)
        × ((later before : List Access) × All IsAside later
            × (r.1.machine.accesses
                ≡ later ++ (wrote (2 + base) (disable_command s.machine.drive_one) ∷ before)))
        × (r.1.panics ≡ (s.panics + 1) % 2 ^ 64)
  unfolding kpanic take_over stop readb writeb force_disable decrease_motor_time taken_over
  kpanic_lem rounds texts s base v e ne =
      let m = (stop w fuel s.machine).1 in
      let wound_down = record m {
        motor_state = motor_disabling;
        motor_time_left = (0 + 2 ^ 16 - 1) % 2 ^ 16;
      } in
      let (off, sent) = told_to_stop m.base_offset wound_down base e in
      let quiet =
        still-IsQuiet (2 + base) (disable_command m.drive_one) m.accesses ne
          (stop-IsQuiet w fuel s.machine) in
      let s' = record (take_over w fuel s) { panics = (s.panics + 1) % 2 ^ 64 } in
      let screen = taken_over s.screen in
      let printed =
        print_all-Returns (texts s.panics) screen (taken_over-IsValid s.screen v) refl in
      let (waiting, shown, valid, row_0, idles) =
        show_and_wait_lem w fuel rounds s' (print_all (texts s.panics) screen) printed in
      (
        waiting,
        sym (print_all-joined (texts s.panics) screen) ∙ shown,
        valid,
        row_0,
        Idles-IsQuiet s'.machine _ idles (subst IsQuiet (sym sent) quiet),
        idles.motor ∙ off,
        (
          idles.later,
          wrote 0x80 0 ∷ m.accesses,
          idles.aside,
          idles.accesses ∙ ap (λ a. idles.later ++ a) sent,
        ),
        show_and_wait-panics w fuel rounds s' (print_all (texts s.panics) screen),
      )
