-- ===== src/Floppy/Sends/Ready.antt =====
-- What a controller that is always ready for a byte is sent.
use sunflower.Floppy.Disk.{has_bits, wait_for_rqm_from, wait_for_rqm, write_bytes}
use sunflower.Floppy.Command.{
  FloppyCommand, command_byte, send_params, reset_then, command_body, command_rounds, send_command,
}
use sunflower.Common.{
  ◌==◌, if◌then◌else◌, every_below, every_below-holds, ℕ, suc, ◌+◌, ◌/◌, ◌%◌, ◌^◌, ◌<◌, ◌≡◌, refl,
  sym, ap, subst, ◌∙◌, ◌≢◌, inr, true, false, none, some, List, [], ◌∷◌, ◌++◌, arith,
}
use sunflower.Common.Outcome.{pure, attempt, ok}
use sunflower.Floppy.Machine.{
  SendCmdError, bad_command, bad_parameter, Access, wrote, read_from, looked_at_clock, World,
  Machine, Op, writeb, add_offset, readb, msr, get_time,
}
use sunflower.Floppy.Motor.{motor_timeout, motor_disabling, disable_motor}
use sunflower.Floppy.Fifo.{send_byte, send_byte_from}
use sunflower.Floppy.Sends.{
  Sent, fifo_writes, IsReady, IsPrompt, IsAwake, kept_on, enable_motor-awake, in_time, Sends,
  then-Sends, pure-Sends, attempted, nil_right,
}

module _ (w : World) (base n : ℕ) (far : 5 + base ≢ 0x80) (ready : IsReady w base)
    (prompt : IsPrompt w) where
  is_ready : (a : List Access) → (w.answer a (4 + base) % 256 / 2 ^ 6 == 0b10) ≡ true
  is_ready a = ground (arith, ready a)

  -- After a byte: its write behind a read of the status register.
  after_byte : ℕ → Machine → Machine
  after_byte byte m = record m {
    accesses =
        wrote (5 + base) byte
        ∷ wrote 0x80 0
        ∷ read_from (4 + base)
        ∷ wrote 0x80 0
        ∷ looked_at_clock
        ∷ looked_at_clock
        ∷ m.accesses;
    motor_state = motor_disabling;
    motor_time_left = motor_timeout;
  }

  send_byte-after :
      (byte : ℕ) (m : Machine)
      → IsAwake base m
      → send_byte w (suc n) byte m ≡ (ok tt, after_byte byte m)
  unfolding send_byte send_byte_from get_time msr add_offset readb writeb disable_motor after_byte
      kept_on
  send_byte-after byte m v =
      let looked = record m { accesses = looked_at_clock ∷ looked_at_clock ∷ m.accesses } in
      rw
        (
          in_time w prompt m.accesses,
          enable_motor-awake w base (suc n) looked
              (record { at_base = v.at_base; awake = v.awake }),
          v.at_base,
          is_ready (wrote 0x80 0 ∷ looked_at_clock ∷ looked_at_clock ∷ m.accesses),
        )
        refl

  written_byte :
      (byte : ℕ) (m : Machine)
      → fifo_writes base (after_byte byte m).accesses ≡ byte ∷ fifo_writes base m.accesses
  unfolding after_byte
  written_byte byte m =
      let dummy : (0x80 == 5 + base) ≡ false = ground (arith, far) in
      let own : (5 + base == 5 + base) ≡ true = ground arith in rw (own, dummy) refl

  pub send_byte-Sends : (byte : ℕ) → Sends base (send_byte w (suc n) byte) tt (byte ∷ [])
  unfolding after_byte
  send_byte-Sends byte = record {
    sends = λ m v.
        let e = send_byte-after byte m v in
        record {
          result = ap (λ r. r.0) e;
          still_awake =
              subst (λ r. IsAwake base r.1) (sym e)
                (record { at_base = v.at_base; awake = λ e'. omega arith });
          written = ap (λ r. fifo_writes base r.1.accesses) e ∙ written_byte byte m;
        };
  }

  send_params-Sends :
      (params : List ℕ) (idx : ℕ) → Sends base (send_params w (suc n) params idx) none params
  unfolding send_params
  send_params-Sends [] idx = pure-Sends base none
  send_params-Sends (p ∷ params) idx =
      then-Sends base (attempt (send_byte w (suc n) p)) _ (inr tt) none (p ∷ []) params
        (attempted base (send_byte w (suc n) p) tt (p ∷ []) (send_byte-Sends p))
        (send_params-Sends params (idx + 1))

  command_body-Sends :
      (reset : Op (Unit {0})) (cmd : ℕ) (params : List ℕ) (failed : SendCmdError → Op (Unit {0}))
      → Sends base (command_body w (suc n) reset cmd params failed) tt (cmd ∷ params)
  command_body-Sends reset cmd params failed =
      let rest =
        then-Sends base (send_params w (suc n) params 0)
          (λ bad. elim bad [ some idx ↦ failed (bad_parameter cmd idx) | none ↦ pure tt ]) none tt
          params [] (send_params-Sends params 0) (pure-Sends base tt) in
      subst (Sends base (command_body w (suc n) reset cmd params failed) tt)
        (ap (λ l. cmd ∷ l) (nil_right params))
        (then-Sends base (attempt (send_byte w (suc n) cmd)) _ (inr tt) tt (cmd ∷ []) (params ++ [])
          (attempted base (send_byte w (suc n) cmd) tt (cmd ∷ []) (send_byte-Sends cmd)) rest)

  command_rounds-Sends :
      (reset : Op (Unit {0})) (k cmd : ℕ) (params : List ℕ) (e : SendCmdError)
      → Sends base (command_rounds w (suc n) reset (suc k) cmd params e) tt (cmd ∷ params)
  unfolding command_rounds
  command_rounds-Sends reset k cmd params e =
      command_body-Sends reset cmd params
        (λ e'. reset_then w (suc n) reset cmd (command_rounds w (suc n) reset k cmd params e'))

  send_command-Sends :
      (reset : Op (Unit {0})) (cmd : FloppyCommand) (params : List ℕ)
      → Sends base (send_command w (suc n) reset cmd params) tt (command_byte cmd ∷ params)
  unfolding send_command
  send_command-Sends reset cmd params =
      command_rounds-Sends reset 4 (command_byte cmd) params (bad_command (command_byte cmd))

  bits_ready :
      every_below 256 (λ v. if v / 2 ^ 6 == 0b10 then has_bits v 0b10000000 else true) ≡ true
  unfolding every_below
  bits_ready = refl

  bits_seen : (v : ℕ) → v < 256 → v / 2 ^ 6 ≡ 0b10 → has_bits v 0b10000000 ≡ true
  bits_seen v h e =
      let t =
        every_below-holds 256 v (λ v. if v / 2 ^ 6 == 0b10 then has_bits v 0b10000000 else true) h
          bits_ready in
      ground (arith, t, e)

  wait_for_rqm-Sends : (depth : ℕ) → Sends base (wait_for_rqm w (suc n) depth) tt []
  unfolding wait_for_rqm wait_for_rqm_from get_time msr add_offset readb
  wait_for_rqm-Sends depth = record {
    sends = λ m v.
        let dummy : (0x80 == 5 + base) ≡ false = ground (arith, far) in
        let before = wrote 0x80 0 ∷ looked_at_clock ∷ looked_at_clock ∷ m.accesses in
        rw
          (
            in_time w prompt m.accesses,
            v.at_base,
            bits_seen (w.answer before (4 + base) % 256) (omega arith) (ready before),
          )
          (record {
            result = refl;
            still_awake = record { at_base = v.at_base; awake = v.awake };
            written =
                ap (λ b. if b then 0 ∷ fifo_writes base m.accesses else fifo_writes base m.accesses)
                  dummy;
          });
  }

  write_bytes-Sends :
      (depth : ℕ) (buf : List ℕ) → Sends base (write_bytes w (suc n) depth buf) none buf
  unfolding write_bytes
  write_bytes-Sends depth [] = pure-Sends base none
  write_bytes-Sends depth (b ∷ buf) =
      then-Sends base (wait_for_rqm w (suc n) depth) _ tt none [] (b ∷ buf)
        (wait_for_rqm-Sends depth)
        (then-Sends base (attempt (send_byte w (suc n) b)) _ (inr tt) none (b ∷ []) buf
          (attempted base (send_byte w (suc n) b) tt (b ∷ []) (send_byte-Sends b))
          (write_bytes-Sends depth buf))

  -- On a controller that is always ready and whose FIFO is not the port of the dummy writes, with
  -- a clock that does not leap over the timeout between two looks, and with the base set and the
  -- motor not off: a command returns, whatever its reset would do, and has written its own byte
  -- and then its parameters to the FIFO, once each, in their order and nothing else.
  pub send_command-Sent :
      (reset : Op (Unit {0})) (cmd : FloppyCommand) (params : List ℕ) (m : Machine)
      → IsAwake base m
      → Sent base m tt (command_byte cmd ∷ params) (send_command w (suc n) reset cmd params m)
  send_command-Sent reset cmd params m v = (send_command-Sends reset cmd params).sends m v

  -- On a controller that is always ready and whose FIFO is not the port of the dummy writes, with
  -- a clock that does not leap over the timeout between two looks, and with the base set and the
  -- motor not off: all bytes of a transfer are written to the FIFO, once each and in their order,
  -- and the loop reports no error.
  pub write_bytes-Sent :
      (depth : ℕ) (buf : List ℕ) (m : Machine)
      → IsAwake base m
      → Sent base m none buf (write_bytes w (suc n) depth buf m)
  write_bytes-Sent depth buf m v = (write_bytes-Sends depth buf).sends m v
