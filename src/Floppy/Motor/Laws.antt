-- ===== src/Floppy/Motor/Laws.antt =====
-- When the motor is turned off.
use sunflower.Common.{
  ℕ, zero, suc, ◌+◌, ◌-◌, ◌%◌, ◌^◌, ◌≤◌, ◌<◌, ◌≡◌, refl, ap, ◌∙◌, some, ◌∷◌, arith,
}
use sunflower.Floppy.Machine.{wrote, Machine}
use sunflower.Floppy.Motor.{
  motor_disabling, motor_off, disable_command, motor_timeout, disable_motor, decrease_motor_time,
}

unfoldable pub ticks : ℕ → Machine → Machine
ticks zero m = m
ticks (suc n) m = decrease_motor_time (ticks n m)

abbrev running : ℕ → Machine → Machine
running left m = record m { motor_time_left = left; motor_state = motor_disabling }

decrease-running :
    (left : ℕ) (m : Machine)
    → 0 < left
    → left < 2 ^ 16
    → decrease_motor_time (running left m) ≡ running (left - 1) m
unfolding decrease_motor_time
decrease-running left m lo hi =
    let w : (left + 2 ^ 16 - 1) % 2 ^ 16 ≡ left - 1 = omega arith in ground arith

ticks_left :
    (n left : ℕ) (m : Machine)
    → n ≤ left
    → left < 2 ^ 16
    → ticks n (running left m) ≡ running (left - n) m
unfolding ticks
ticks_left zero left m h k = ap (λ l. running l m) (omega arith)
ticks_left (suc n) left m h k =
    ap decrease_motor_time (ticks_left n left m (omega arith) k)
    ∙ decrease-running (left - n) m (omega arith) (omega arith)
    ∙ ap (λ l. running l m) (omega arith)

turned_off :
    (m : Machine) (base : ℕ)
    → m.base_offset ≡ some base
    → decrease_motor_time (running 0 m) ≡ record m {
      accesses = wrote (2 + base) (disable_command m.drive_one) ∷ wrote 0x80 0 ∷ m.accesses;
      motor_time_left = 2 ^ 16 - 1;
      motor_state = motor_off;
    }
unfolding decrease_motor_time
turned_off m base e = rw e refl

-- Once the base offset of the driver's ports is set: after `disable_motor` the motor keeps running
-- for fifty ticks of the timer, on which no port is accessed, and at the next one the command that
-- turns the motor of the drive off is sent.
pub disable_motor-ticks :
    (m : Machine) (base n : ℕ)
    → m.base_offset ≡ some base
    → n ≤ motor_timeout
    → (ticks n (disable_motor m)
        ≡ record m { motor_time_left = motor_timeout - n; motor_state = motor_disabling })
      × (ticks (motor_timeout + 1) (disable_motor m) ≡ record m {
        accesses = wrote (2 + base) (disable_command m.drive_one) ∷ wrote 0x80 0 ∷ m.accesses;
        motor_time_left = 2 ^ 16 - 1;
        motor_state = motor_off;
      })
unfolding disable_motor ticks
disable_motor-ticks m base n e h = (
  ticks_left n motor_timeout m h (omega arith),
  ap decrease_motor_time (ticks_left motor_timeout motor_timeout m (omega arith) (omega arith))
      ∙ turned_off m base e,
)
