-- ===== src/Floppy/Command.antt =====
-- The commands of kernel/src/floppy/fifo.rs and kernel/src/floppy/reset.rs. `send_command` resets
-- the controller when a byte cannot be sent, and a reset sends commands; here the operations take
-- the reset that they use, and `init_fdc` bounds how deep resets nest.
use sunflower.Common.{
  ◌==◌, if◌then◌else◌, ℕ, zero, suc, ◌+◌, ◌-◌, ◌*◌, ◌/◌, ◌^◌, bit_or, inl, inr, Bool, true, false,
  not, ◌&&◌, ◌||◌, Option, none, some, List, [], ◌∷◌,
}
use sunflower.Common.Bits.{}
use sunflower.Common.Outcome.{
  pure, raise, ◌>>=◌, ◌>>◌, modify, gets, or_raise, attempt, out_of_fuel,
}
use sunflower.Floppy.Machine.{
  retries, st0_err_or_reset, digital_output_register, config_ctrl_register, SendCmdError,
  bad_command, bad_parameter, reset_error, resend_command, controller_lockup, command_failed,
  unknown_error, FloppyError, init_static, send_command_error, sense_interrupt, other, World, Op,
  writeb, add_offset, drive_number, readb, wait,
}
use sunflower.Floppy.Motor.{enable_motor, disable_motor}
use sunflower.Floppy.Fifo.{send_byte, read_byte}

pub data FloppyCommand : Type 0 where
  specify write_data_with_flags read_data_with_flags recalibrate : FloppyCommand
  sense_interrupt_command seek_command version configure : FloppyCommand

abbrev pub mfm_bit : ℕ
mfm_bit = 0x40

abbrev pub command_byte : FloppyCommand → ℕ
command_byte specify = 3
command_byte write_data_with_flags = bit_or 5 mfm_bit
command_byte read_data_with_flags = bit_or 6 mfm_bit
command_byte recalibrate = 7
command_byte sense_interrupt_command = 8
command_byte seek_command = 15
command_byte version = 16
command_byte configure = 19

pub data SenseIntState : Type 0 where
  seek_or_recal first_reset other_reset : SenseIntState

abbrev pub is_seek_or_recal : SenseIntState → Bool
is_seek_or_recal seek_or_recal = true
is_seek_or_recal first_reset = false
is_seek_or_recal other_reset = false

abbrev pub is_first_reset : SenseIntState → Bool
is_first_reset first_reset = true
is_first_reset seek_or_recal = false
is_first_reset other_reset = false

abbrev pub is_other_reset : SenseIntState → Bool
is_other_reset other_reset = true
is_other_reset seek_or_recal = false
is_other_reset first_reset = false

module _ (w : World) (fuel : ℕ) where
  -- The parameters, with the index of the first that cannot be sent.
  unfoldable pub send_params : List ℕ → ℕ → Op (Option ℕ)
  send_params [] idx = pure none
  send_params (param ∷ params) idx =
      let rest = send_params params (idx + 1) in
      attempt (send_byte w fuel param)
      >>= (λ sent. elim sent [ inl e ↦ pure (some idx) | inr _ ↦ rest ])

  module _ (reset : Op (Unit {0})) where
    -- `cmd_err` and `param_err`, then the next round of the loop.
    abbrev pub reset_then : ℕ → Op (Unit {0}) → Op (Unit {0})
    reset_then cmd rest = attempt reset >>= (λ done. elim done [
      | inl e ↦ raise (send_command_error (reset_error cmd))
      | inr _ ↦ rest
    ])

    abbrev pub command_body : ℕ → List ℕ → (SendCmdError → Op (Unit {0})) → Op (Unit {0})
    command_body cmd params failed = attempt (send_byte w fuel cmd) >>= (λ sent. elim sent [
      | inl e ↦ failed (bad_command cmd)
      | inr _ ↦
          send_params params 0
          >>= (λ bad. elim bad [ some idx ↦ failed (bad_parameter cmd idx) | none ↦ pure tt ])
    ])

    -- The rounds that are left, and the error of the last one.
    unfoldable pub command_rounds : ℕ → ℕ → List ℕ → SendCmdError → Op (Unit {0})
    unfolding send_params
    command_rounds zero cmd params e = raise (send_command_error e)
    command_rounds (suc n) cmd params e =
        command_body cmd params (λ e'. reset_then cmd (command_rounds n cmd params e'))

    unfoldable pub send_command : FloppyCommand → List ℕ → Op (Unit {0})
    unfolding command_rounds
    send_command cmd params =
        command_rounds retries (command_byte cmd) params (bad_command (command_byte cmd))

    -- A lockup after a reset turns the driver off.
    unfoldable pub lockup : SenseIntState → Op (Unit {0})
    lockup state =
        if is_seek_or_recal state then reset else modify (λ m. record m { floppy_init = false })

    -- The branches on the first status byte, in their order.
    unfoldable pub sense_result : ℕ → ℕ → SenseIntState → Op (Unit {0})
    unfolding lockup
    sense_result st0 drive_num state =
        let seek_recal_ok = st0 == bit_or 0x20 drive_num in
        let reset_or_err = st0 == bit_or st0_err_or_reset drive_num in
        if reset_or_err && is_first_reset state || seek_recal_ok && is_seek_or_recal state
        then pure tt
        else if st0 == 0x80
        then lockup state >> raise (sense_interrupt controller_lockup)
        else if not seek_recal_ok && is_seek_or_recal state
        then raise (sense_interrupt resend_command)
        else if reset_or_err && is_seek_or_recal state
        then raise (sense_interrupt command_failed)
        else if is_other_reset state
        then pure tt
        else raise (sense_interrupt unknown_error)

    unfoldable pub sense_int : SenseIntState → Op (Unit {0})
    unfolding sense_result
    sense_int state = do
      send_byte w fuel (command_byte sense_interrupt_command)
      st0 ← read_byte w fuel
      _ ← read_byte w fuel
      one ← gets (λ m. m.drive_one)
      sense_result st0 (drive_number one) state

    abbrev pub move_heads : Option ℕ → Op (Unit {0})
    move_heads none = do
      one ← gets (λ m. m.drive_one)
      send_command recalibrate (drive_number one ∷ [])
    move_heads (some cyl) = do
      one ← gets (λ m. m.drive_one)
      send_command seek_command (drive_number one ∷ cyl ∷ [])

    abbrev pub last_result : Option FloppyError → Op (Unit {0})
    last_result none = pure tt
    last_result (some e) = raise e

    unfoldable pub seek_rounds : ℕ → Option ℕ → Option FloppyError → Op (Unit {0})
    unfolding sense_int
    seek_rounds zero cyl ret = last_result ret
    seek_rounds (suc n) cyl ret =
        move_heads cyl
        >> (attempt (sense_int seek_or_recal)
            >>= (λ sensed. elim sensed [ inl e ↦ seek_rounds n cyl (some e) | inr _ ↦ pure tt ]))

    unfoldable pub seek : Option ℕ → Op (Unit {0})
    unfolding seek_rounds
    seek cyl = seek_rounds retries cyl none

    unfoldable pub send_configure : Op (Unit {0})
    unfolding send_command
    send_configure = send_command configure (0 ∷ 0b1010111 ∷ 0 ∷ [])

    -- The value for the rate register and the data rate, by the space of the drive.
    abbrev pub data_rate : ℕ → Option (ℕ × ℕ)
    data_rate kb =
        if kb == 1200
        then some (0, 500000)
        else if kb == 1440
        then some (0, 500000)
        else if kb == 2880
        then some (3, 1000000)
        else none

    -- The step rate and the head load time, as `Specify` takes them; the head unload time is zero.
    abbrev pub specify_params : ℕ → List ℕ
    specify_params rate = ((16 - 8 * rate / 500000) * 2 ^ 4) ∷ (10 * rate / 1000000 * 2 + 1) ∷ []

    unfoldable pub reset_controller : Op (Unit {0})
    unfolding send_configure sense_int
    reset_controller = do
      enable_motor w fuel
      dor ← add_offset digital_output_register
      prev ← readb w dor
      writeb dor 0
      wait w fuel 1
      writeb dor prev
      sense_int first_reset
      sense_int other_reset
      sense_int other_reset
      sense_int other_reset
      send_configure
      space ← gets (λ m. m.floppy_space)
      kb ← or_raise space init_static
      (ccr, rate) ← or_raise (data_rate kb) other
      port ← add_offset config_ctrl_register
      writeb port ccr
      send_command specify (specify_params rate)
      modify disable_motor

  -- `init_fdc`, with at most `depth` resets inside each other.
  unfoldable pub init_fdc : ℕ → Op (Unit {0})
  unfolding reset_controller
  init_fdc zero = out_of_fuel
  init_fdc (suc depth) = reset_controller (init_fdc depth)
