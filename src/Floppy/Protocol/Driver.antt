-- ===== src/Floppy/Protocol/Driver.antt =====
-- The commands with results, the resets, the transfers and the start of the driver keep to the
-- protocol of the FIFO.
use sunflower.Common.{ℕ, zero, suc, ◌+◌, refl, ◌≢◌, false, Option, none, some, [], ◌∷◌, arith}
use sunflower.Common.Outcome.{pure, ◌>>=◌, ◌>>◌, modify, gets, or_raise}
use sunflower.Floppy.Machine.{
  retries, digital_output_register, config_ctrl_register, FloppyError, init_static, other, World,
  Op, writeb, add_offset, drive_number, readb, wait,
}
use sunflower.Floppy.Motor.{enable_motor, disable_motor}
use sunflower.Floppy.Fifo.{send_byte, read_byte}
use sunflower.Floppy.Command.{
  specify, recalibrate, sense_interrupt_command, seek_command, configure, command_byte,
  SenseIntState, seek_or_recal, first_reset, other_reset, is_seek_or_recal, send_command, lockup,
  sense_result, sense_int, move_heads, seek_rounds, seek, send_configure, data_rate, specify_params,
  reset_controller, init_fdc,
}
use sunflower.Floppy.Protocol.Keeps.{
  Keeps, pure-Keeps, raise-Keeps, out_of_fuel-Keeps, bound, gets-Keeps, chosen, handled, set-Keeps,
  send_byte-Keeps, enable_motor-Keeps, wait-Keeps, readb-Keeps, writeb-Keeps, add_offset-Keeps,
  disable_motor-Keeps, keeps,
}
use sunflower.Floppy.Protocol.Commands.{read_byte-Keeps, send_command-Keeps}

module _ (w : World) (base : ℕ) (far : 5 + base ≢ 0x80) (fuel : ℕ) where
  module _ (reset : Op (Unit {0})) (kept : Keeps w base far reset) where
    lockup-Keeps : (state : SenseIntState) → Keeps w base far (lockup w fuel reset state)
    unfolding lockup
    lockup-Keeps state =
        chosen w base far (is_seek_or_recal state) reset _ kept
          (set-Keeps w base far (λ m. record m { floppy_init = false }) (λ m. (refl, refl)))

    sense_result-Keeps :
        (st0 drive_num : ℕ) (state : SenseIntState)
        → Keeps w base far (sense_result w fuel reset st0 drive_num state)
    unfolding sense_result
    sense_result-Keeps st0 drive_num state = search (keeps, lockup-Keeps) depth 12

    sense_int-Keeps : (state : SenseIntState) → Keeps w base far (sense_int w fuel reset state)
    unfolding sense_int
    sense_int-Keeps state =
        bound w base far (send_byte w fuel (command_byte sense_interrupt_command)) _
          (send_byte-Keeps w base far fuel 8)
          (λ _. bound w base far (read_byte w fuel) _ (read_byte-Keeps w base far fuel) (λ st0.
            bound w base far (read_byte w fuel) _ (read_byte-Keeps w base far fuel) (λ _.
              gets-Keeps w base far (λ m. m.drive_one)
                (λ one. sense_result w fuel reset st0 (drive_number one) state)
                (λ one. sense_result-Keeps st0 (drive_number one) state))))

    move_heads-Keeps : (cyl : Option ℕ) → Keeps w base far (move_heads w fuel reset cyl)
    move_heads-Keeps none =
        gets-Keeps w base far (λ m. m.drive_one) _
          (λ one. send_command-Keeps w base far fuel reset kept recalibrate (drive_number one ∷ []))
    move_heads-Keeps (some cyl) =
        gets-Keeps w base far (λ m. m.drive_one) _
          (λ one.
            send_command-Keeps w base far fuel reset kept seek_command
              (drive_number one ∷ cyl ∷ []))

    seek_rounds-Keeps :
        (n : ℕ) (cyl : Option ℕ) (ret : Option FloppyError)
        → Keeps w base far (seek_rounds w fuel reset n cyl ret)
    unfolding seek_rounds
    seek_rounds-Keeps zero cyl none = pure-Keeps w base far tt
    seek_rounds-Keeps zero cyl (some e) = raise-Keeps w base far e
    seek_rounds-Keeps (suc n) cyl ret =
        bound w base far (move_heads w fuel reset cyl) _ (move_heads-Keeps cyl) (λ _.
          handled w base far (sense_int w fuel reset seek_or_recal)
            (λ e. seek_rounds w fuel reset n cyl (some e)) (λ _. pure tt)
            (sense_int-Keeps seek_or_recal) (λ e. seek_rounds-Keeps n cyl (some e))
            (λ _. pure-Keeps w base far tt))

    pub seek-Keeps : (cyl : Option ℕ) → Keeps w base far (seek w fuel reset cyl)
    unfolding seek
    seek-Keeps cyl = seek_rounds-Keeps retries cyl none

    pub send_configure-Keeps : Keeps w base far (send_configure w fuel reset)
    unfolding send_configure
    send_configure-Keeps =
        send_command-Keeps w base far fuel reset kept configure (0 ∷ 0b1010111 ∷ 0 ∷ [])

    -- The rates, once the space of the drive is known.
    rates-Keeps :
        (rates : Option (ℕ × ℕ))
        → Keeps w base far (
            or_raise rates other >>= (λ (ccr, rate). add_offset config_ctrl_register >>= (λ port.
              writeb port ccr
              >> (send_command w fuel reset specify (specify_params w fuel reset rate)
                  >> modify disable_motor))))
    rates-Keeps none = raise-Keeps w base far other
    rates-Keeps (some (ccr, rate)) =
        let ne : 7 + base ≢ 5 + base = λ e. omega (arith, e) in
        add_offset-Keeps w base far config_ctrl_register _ (
          bound w base far (writeb (7 + base) ccr) _ (writeb-Keeps w base far (7 + base) ccr ne)
            (λ _.
              bound w base far
                (send_command w fuel reset specify (specify_params w fuel reset rate)) _
                (send_command-Keeps w base far fuel reset kept specify
                  (specify_params w fuel reset rate))
                (λ _. disable_motor-Keeps w base far)))

    finish_reset : Op (Unit {0})
    finish_reset = do
      space ← gets (λ m. m.floppy_space)
      kb ← or_raise space init_static
      (ccr, rate) ← or_raise (data_rate w fuel reset kb) other
      port ← add_offset config_ctrl_register
      writeb port ccr
      send_command w fuel reset specify (specify_params w fuel reset rate)
      modify disable_motor

    space_known-Keeps :
        (space : Option ℕ) (f : ℕ → Op (Unit {0}))
        → ((kb : ℕ) → Keeps w base far (f kb))
        → Keeps w base far (or_raise space init_static >>= f)
    space_known-Keeps none f k = raise-Keeps w base far init_static
    space_known-Keeps (some kb) f k = k kb

    finish_reset-Keeps : Keeps w base far finish_reset
    unfolding finish_reset
    finish_reset-Keeps =
        gets-Keeps w base far (λ m. m.floppy_space) _
          (λ space. space_known-Keeps space _ (λ kb. rates-Keeps (data_rate w fuel reset kb)))

    reset_controller-Keeps : Keeps w base far (reset_controller w fuel reset)
    unfolding reset_controller finish_reset
    reset_controller-Keeps =
        let ne : 2 + base ≢ 5 + base = λ e. omega (arith, e) in
        let put = λ (val : ℕ). writeb-Keeps w base far (2 + base) val ne in
        bound w base far (enable_motor w fuel) _ (enable_motor-Keeps w base far fuel) (λ _.
          add_offset-Keeps w base far digital_output_register _ (
            bound w base far (readb w (2 + base)) _ (readb-Keeps w base far (2 + base)) (λ prev.
              bound w base far (writeb (2 + base) 0) _ (put 0) (λ _.
                bound w base far (wait w fuel 1) _ (wait-Keeps w base far fuel 1) (λ _.
                  bound w base far (writeb (2 + base) prev) _ (put prev) (λ _.
                    bound w base far _ _ (sense_int-Keeps first_reset) (λ _.
                      bound w base far _ _ (sense_int-Keeps other_reset) (λ _.
                        bound w base far _ _ (sense_int-Keeps other_reset) (λ _.
                          bound w base far _ _ (sense_int-Keeps other_reset) (λ _.
                            bound w base far (send_configure w fuel reset) _ send_configure-Keeps
                              (λ _. finish_reset-Keeps)))))))))))

  pub init_fdc-Keeps : (depth : ℕ) → Keeps w base far (init_fdc w fuel depth)
  unfolding init_fdc
  init_fdc-Keeps zero = out_of_fuel-Keeps w base far
  init_fdc-Keeps (suc depth) = reset_controller-Keeps (init_fdc w fuel depth) (init_fdc-Keeps depth)
