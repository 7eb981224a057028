-- ===== src/Floppy/Protocol/Boot.antt =====
-- What the kernel asks of the driver, from its start on: each call keeps to the protocol of the FIFO.
pub mod Whole
use sunflower.Common.{
  ◌==◌, if◌then◌else◌, Bool-cases, ℕ, ◌+◌, ◌-◌, ◌%◌, ◌^◌, ◌≡◌, refl, ◌≢◌, inl, inr, Bool, true,
  false, Option, none, some, List, [], ◌∷◌, arith,
}
use sunflower.Common.Outcome.{pure, ◌>>◌, modify, attempt}
use sunflower.Floppy.Machine.{World, Machine, Op}
use sunflower.Floppy.Motor.{
  motor_disabling, motor_off, disable_command, enable_motor, send_disable_cmd, decrease_motor_time,
  force_disable,
}
use sunflower.Floppy.Fifo.{read_byte}
use sunflower.Floppy.Command.{version, send_command, seek, send_configure, init_fdc}
use sunflower.Floppy.Disk.{read, write}
use sunflower.Floppy.Start.{check_version, start_controller, init}
use sunflower.Floppy.Protocol.{IsOrderly, written}
use sunflower.Floppy.Protocol.Keeps.{
  Keeps, pure-Keeps, bound, attempted, set-Keeps, enable_motor-Keeps, disable_motor-Keeps, keeps,
}
use sunflower.Floppy.Protocol.Commands.{read_byte-Keeps, send_command-Keeps}
use sunflower.Floppy.Protocol.Driver.{seek-Keeps, send_configure-Keeps, init_fdc-Keeps}
use sunflower.Floppy.Protocol.Transfers.{read-Keeps, write-Keeps}

-- What the kernel asks of the driver once it was started, and a tick of the timer.
pub data Call : Type 0 where
  read_call : ℕ → ℕ → Call
  write_call : ℕ → List ℕ → Call
  force_disable_call : Call
  tick : Call

-- The statics before the start; the timer may or may not be there.
abbrev pub booted : Bool → Machine
booted pit = record {
  accesses = [];
  base_offset = none;
  floppy_space = none;
  drive_one = false;
  motor_state = motor_off;
  motor_time_left = 0;
  pit_init = pit;
  floppy_init = false;
  bytes_read = 0;
  bytes_written = 0;
}

module _ (w : World) (fuel depth : ℕ) where
  unfoldable pub perform : Call → Op (Unit {0})
  perform (read_call ptr len) = read w fuel depth ptr len >> pure tt
  perform (write_call ptr buf) = write w fuel depth ptr buf
  perform force_disable_call = modify force_disable
  perform tick = modify decrease_motor_time

  -- Errors are left to the caller; a call that panics or does not return is the last one.
  unfoldable pub run : List Call → Op (Unit {0})
  unfolding perform
  run [] = pure tt
  run (c ∷ cs) = attempt (perform c) >> run cs

  unfoldable pub boot_run : List Call → Op (Unit {0})
  unfolding run
  boot_run cs = attempt (init w fuel depth) >> run cs

  module _ (base : ℕ) (far : 5 + base ≢ 0x80) where
    check_version-Keeps : (v : ℕ) → Keeps w base far (check_version w fuel depth v)
    check_version-Keeps v = search keeps

    pub start_controller-Keeps : Keeps w base far (start_controller w fuel depth)
    unfolding start_controller
    start_controller-Keeps =
        let reset = init_fdc w fuel depth in
        let kept = init_fdc-Keeps w base far fuel depth in
        bound w base far (enable_motor w fuel) _ (enable_motor-Keeps w base far fuel) (λ _.
          bound w base far (send_command w fuel reset version []) _
            (send_command-Keeps w base far fuel reset kept version [])
            (λ _. bound w base far (read_byte w fuel) _ (read_byte-Keeps w base far fuel) (λ got.
              bound w base far (check_version w fuel depth got) _ (check_version-Keeps got) (λ _.
                bound w base far (send_configure w fuel reset) _
                  (send_configure-Keeps w base far fuel reset kept)
                  (λ _. bound w base far reset _ kept (λ _.
                    bound w base far (seek w fuel reset none) _
                      (seek-Keeps w base far fuel reset kept none)
                      (λ _.
                        bound w base far (modify (λ m. record m { floppy_init = true })) _
                          (set-Keeps w base far _ (λ m. (refl, refl)))
                          (λ _. disable_motor-Keeps w base far))))))))

    disabled :
        (o : Option ℕ) (m : Machine)
        → o ≡ some base
        → IsOrderly w base m
        → IsOrderly w base (send_disable_cmd m o)
    disabled none m e v = v
    disabled (some b) m e v =
        let same : b ≡ base = cc in
        let ne : 2 + base ≢ 5 + base = λ (h : 2 + base ≡ 5 + base). omega (arith, h) in
        let v' = written w base far m (2 + base) (disable_command m.drive_one) ne v in
        rw same (record { at_base = v'.at_base; orderly = v'.orderly })

    ticked :
        (b : Bool) (m : Machine)
        → IsOrderly w base m
        → IsOrderly w base (if b then send_disable_cmd m m.base_offset else m)
    ticked false m v = v
    ticked true m v = disabled m.base_offset m v.at_base v

    decrease_motor_time-IsOrderly :
        (m : Machine) → IsOrderly w base m → IsOrderly w base (decrease_motor_time m)
    unfolding decrease_motor_time
    decrease_motor_time-IsOrderly m v = elim (Bool-cases (m.motor_state == motor_disabling)) [
      | inl e ↦ rw e (
          ticked (m.motor_time_left == 0)
            (record m { motor_time_left = (m.motor_time_left + 2 ^ 16 - 1) % 2 ^ 16 })
            (record { at_base = v.at_base; orderly = v.orderly }))
      | inr e ↦ rw e v
    ]

    perform-Keeps : (c : Call) → Keeps w base far (perform c)
    unfolding perform force_disable
    perform-Keeps (read_call ptr len) =
        bound w base far (read w fuel depth ptr len) _ (read-Keeps w base far fuel depth ptr len)
          (λ _. pure-Keeps w base far tt)
    perform-Keeps (write_call ptr buf) = write-Keeps w base far fuel depth ptr buf
    perform-Keeps force_disable_call = record {
      keep = λ m v.
          decrease_motor_time-IsOrderly
            (record m { motor_state = motor_disabling; motor_time_left = 0 })
            (record { at_base = v.at_base; orderly = v.orderly });
    }
    perform-Keeps tick = record { keep = decrease_motor_time-IsOrderly }

    pub run-Keeps : (cs : List Call) → Keeps w base far (run cs)
    unfolding run
    run-Keeps [] = pure-Keeps w base far tt
    run-Keeps (c ∷ cs) =
        bound w base far (attempt (perform c)) _
          (attempted w base far (perform c) (perform-Keeps c)) (λ _. run-Keeps cs)
