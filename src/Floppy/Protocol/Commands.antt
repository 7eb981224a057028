-- ===== src/Floppy/Protocol/Commands.antt =====
-- The bytes of commands, with their resets, keep to the protocol of the FIFO.
use sunflower.Common.{ltb, ◌==◌, ℕ, zero, suc, ◌+◌, ◌/◌, ◌^◌, ◌≢◌, none, some, List, [], ◌∷◌}
use sunflower.Common.Outcome.{pure, raise, ◌>>=◌, ◌>>◌, modify}
use sunflower.Floppy.Machine.{
  timeout, retries, fifo, SendCmdError, bad_command, bad_parameter, reset_error, fifo_read,
  send_command_error, fifo_timeout, World, Op, readb, msr, get_time,
}
use sunflower.Floppy.Motor.{enable_motor, disable_motor}
use sunflower.Floppy.Fifo.{send_byte, read_once, read_byte_from, read_byte}
use sunflower.Floppy.Command.{
  FloppyCommand, command_byte, send_params, reset_then, command_rounds, send_command,
}
use sunflower.Floppy.Protocol.Keeps.{
  Keeps, pure-Keeps, raise-Keeps, out_of_fuel-Keeps, bound, chosen, handled, offered,
  send_byte-Keeps, enable_motor-Keeps, readb-Keeps, add_offset-Keeps, get_time-Keeps,
  disable_motor-Keeps, msr-Keeps,
}

module _ (w : World) (base : ℕ) (far : 5 + base ≢ 0x80) where
  read_once-Keeps :
      (fuel : ℕ) (rest : Op ℕ) → Keeps w base far rest → Keeps w base far (read_once w fuel rest)
  read_once-Keeps fuel rest k =
      bound w base far (enable_motor w fuel) _ (enable_motor-Keeps w base far fuel) (λ _.
        bound w base far (msr w) _ (msr-Keeps w base far) (λ bits.
          chosen w base far (bits / 2 ^ 6 == 0b11) _ rest
            (bound w base far (modify disable_motor) _ (disable_motor-Keeps w base far)
              (λ _. add_offset-Keeps w base far fifo (readb w) (readb-Keeps w base far (5 + base))))
            k))

  read_byte_from-Keeps : (fuel n start : ℕ) → Keeps w base far (read_byte_from w fuel n start)
  unfolding read_byte_from
  read_byte_from-Keeps fuel zero start = out_of_fuel-Keeps w base far
  read_byte_from-Keeps fuel (suc n) start =
      bound w base far (get_time w) _ (get_time-Keeps w base far) (λ now.
        chosen w base far (ltb now (start + timeout))
          (read_once w fuel (read_byte_from w fuel n start))
          (modify disable_motor >> raise (fifo_timeout fifo_read))
          (read_once-Keeps fuel (read_byte_from w fuel n start) (read_byte_from-Keeps fuel n start))
          (bound w base far (modify disable_motor) _ (disable_motor-Keeps w base far)
            (λ _. raise-Keeps w base far (fifo_timeout fifo_read))))

  pub read_byte-Keeps : (fuel : ℕ) → Keeps w base far (read_byte w fuel)
  unfolding read_byte
  read_byte-Keeps fuel =
      bound w base far (get_time w) _ (get_time-Keeps w base far) (read_byte_from-Keeps fuel fuel)

  send_params-Keeps :
      (fuel : ℕ) (params : List ℕ) (idx : ℕ) → Keeps w base far (send_params w fuel params idx)
  unfolding send_params
  send_params-Keeps fuel [] idx = pure-Keeps w base far none
  send_params-Keeps fuel (param ∷ params) idx =
      handled w base far (send_byte w fuel param) (λ e. pure (some idx))
        (λ _. send_params w fuel params (idx + 1)) (send_byte-Keeps w base far fuel param)
        (λ e. pure-Keeps w base far (some idx)) (λ _. send_params-Keeps fuel params (idx + 1))

  module _ (fuel : ℕ) (reset : Op (Unit {0})) (kept : Keeps w base far reset) where
    reset_then-Keeps :
        (cmd : ℕ) (rest : Op (Unit {0}))
        → Keeps w base far rest
        → Keeps w base far (reset_then w fuel reset cmd rest)
    reset_then-Keeps cmd rest k =
        handled w base far reset (λ e. raise (send_command_error (reset_error cmd))) (λ _. rest)
          kept (λ e. raise-Keeps w base far _) (λ _. k)

    command_rounds-Keeps :
        (n cmd : ℕ) (params : List ℕ) (e : SendCmdError)
        → Keeps w base far (command_rounds w fuel reset n cmd params e)
    unfolding command_rounds
    command_rounds-Keeps zero cmd params e = raise-Keeps w base far _
    command_rounds-Keeps (suc n) cmd params e =
        let again = λ (e' : SendCmdError).
          reset_then w fuel reset cmd (command_rounds w fuel reset n cmd params e') in
        let again-Keeps = λ (e' : SendCmdError).
          reset_then-Keeps cmd (command_rounds w fuel reset n cmd params e')
            (command_rounds-Keeps n cmd params e') in
        handled w base far (send_byte w fuel cmd) (λ _. again (bad_command cmd))
          (λ _.
            send_params w fuel params 0
            >>= (λ bad. elim bad [ some idx ↦ again (bad_parameter cmd idx) | none ↦ pure tt ]))
          (send_byte-Keeps w base far fuel cmd) (λ _. again-Keeps (bad_command cmd))
          (λ _.
            bound w base far (send_params w fuel params 0) _ (send_params-Keeps fuel params 0)
              (λ bad.
                offered w base far bad (λ idx. again (bad_parameter cmd idx)) (pure tt)
                  (λ idx. again-Keeps (bad_parameter cmd idx)) (pure-Keeps w base far tt)))

    pub send_command-Keeps :
        (cmd : FloppyCommand) (params : List ℕ)
        → Keeps w base far (send_command w fuel reset cmd params)
    unfolding send_command
    send_command-Keeps cmd params =
        command_rounds-Keeps retries (command_byte cmd) params (bad_command (command_byte cmd))
