-- ===== src/Floppy/Fifo.antt =====
-- `send_byte` and `read_byte` of kernel/src/floppy/fifo.rs. The polling loops are on fuel.
use sunflower.Common.{ltb, ◌==◌, if◌then◌else◌, ℕ, zero, suc, ◌+◌, ◌/◌, ◌^◌}
use sunflower.Common.Bits.{}
use sunflower.Common.Outcome.{raise, ◌>>=◌, ◌>>◌, modify, out_of_fuel}
use sunflower.Floppy.Machine.{
  timeout, fifo, fifo_read, fifo_write, fifo_timeout, World, Op, writeb, add_offset, readb, msr,
  get_time,
}
use sunflower.Floppy.Motor.{enable_motor, disable_motor}

module _ (w : World) (fuel : ℕ) where
  -- One round of `send_byte`, with the rounds after it.
  abbrev pub send_once : ℕ → Op (Unit {0}) → Op (Unit {0})
  send_once byte rest = do
    enable_motor w fuel
    bits ← msr w
    if bits / 2 ^ 6 == 0b10
        then (add_offset fifo >>= (λ port. writeb port byte) >> modify disable_motor)
        else rest

  -- The loop of `send_byte` from its test on.
  unfoldable pub send_byte_from : ℕ → ℕ → ℕ → Op (Unit {0})
  unfolding get_time enable_motor msr add_offset writeb disable_motor
  send_byte_from zero start_time byte = out_of_fuel
  send_byte_from (suc n) start_time byte =
      let rest = send_byte_from n start_time byte in
      get_time w >>= (λ now.
        if ltb now (start_time + timeout)
        then send_once byte rest
        else (modify disable_motor >> raise (fifo_timeout (fifo_write byte))))

  unfoldable pub send_byte : ℕ → Op (Unit {0})
  unfolding get_time send_byte_from
  send_byte byte = do start_time ← get_time w; send_byte_from fuel start_time byte

  abbrev pub read_once : Op ℕ → Op ℕ
  read_once rest = do
    enable_motor w fuel
    bits ← msr w
    if bits / 2 ^ 6 == 0b11 then (modify disable_motor >> (add_offset fifo >>= readb w)) else rest

  unfoldable pub read_byte_from : ℕ → ℕ → Op ℕ
  unfolding get_time enable_motor msr add_offset readb disable_motor
  read_byte_from zero start_time = out_of_fuel
  read_byte_from (suc n) start_time =
      let rest = read_byte_from n start_time in
      get_time w >>= (λ now.
        if ltb now (start_time + timeout)
        then read_once rest
        else (modify disable_motor >> raise (fifo_timeout fifo_read)))

  unfoldable pub read_byte : Op ℕ
  unfolding get_time read_byte_from
  read_byte = do start_time ← get_time w; read_byte_from fuel start_time
