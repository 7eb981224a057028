-- ===== src/Floppy/Motor.antt =====
-- kernel/src/floppy/motor.rs
pub mod Laws
use sunflower.Common.{◌==◌, if◌then◌else◌, ℕ, ◌+◌, ◌-◌, ◌%◌, ◌^◌, Bool, Option, none, some, ◌∷◌}
use sunflower.Common.Outcome.{pure, ◌>>=◌, ◌>>◌, modify, gets}
use sunflower.Floppy.Machine.{
  digital_output_register, wrote, World, Machine, Op, writeb, add_offset, wait,
}

abbrev pub motor_on : ℕ
motor_on = 0

abbrev pub motor_disabling : ℕ
motor_disabling = 1

abbrev pub motor_off : ℕ
motor_off = 2

abbrev pub enable_command : Bool → ℕ
enable_command one = if one then 0b10_0_1_01 else 0b01_0_1_00

abbrev pub disable_command : Bool → ℕ
disable_command one = if one then 0b00_0_1_01 else 0b00_0_1_00

abbrev pub motor_timeout : ℕ
motor_timeout = 50

module _ (w : World) (fuel : ℕ) where
  unfoldable pub send_enable_cmd : Op (Unit {0})
  unfolding add_offset writeb wait
  send_enable_cmd = do
    dor ← add_offset digital_output_register
    one ← gets (λ m. m.drive_one)
    writeb dor (enable_command one)
    modify (λ m. record m { motor_state = motor_on })
    wait w fuel 50

  unfoldable pub enable_motor : Op (Unit {0})
  unfolding send_enable_cmd
  enable_motor = do
    state ← gets (λ m. m.motor_state)
    if state == motor_off
        then send_enable_cmd
        else if state == motor_disabling
        then modify (λ m. record m { motor_state = motor_on })
        else pure tt

unfoldable pub disable_motor : Machine → Machine
disable_motor m = record m { motor_time_left = motor_timeout; motor_state = motor_disabling }

abbrev pub send_disable_cmd : Machine → Option ℕ → Machine
send_disable_cmd m none = m
send_disable_cmd m (some base) = record m {
  accesses = wrote (2 + base) (disable_command m.drive_one) ∷ wrote 0x80 0 ∷ m.accesses;
  motor_state = motor_off;
}

-- Run by the timer's handler at every tick. `fetch_sub` wraps in sixteen bits, and only happens
-- when the motor is being disabled.
unfoldable pub decrease_motor_time : Machine → Machine
decrease_motor_time m =
    if m.motor_state == motor_disabling
    then (let left = m.motor_time_left in
        let m' = record m { motor_time_left = (left + 2 ^ 16 - 1) % 2 ^ 16 } in
        if left == 0 then send_disable_cmd m' m'.base_offset else m')
    else m

unfoldable pub force_disable : Machine → Machine
force_disable m =
    decrease_motor_time (record m { motor_state = motor_disabling; motor_time_left = 0 })
