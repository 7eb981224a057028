-- ===== src/Floppy/Protocol/Transfers.antt =====
-- Transfers keep to the protocol of the FIFO.
use sunflower.Common.{
  ltb, ◌==◌, length, ℕ, zero, suc, ◌+◌, ◌/◌, ◌%◌, ◌^◌, refl, ◌≢◌, ◌⊎◌, inl, inr, Bool, true, false,
  not, Option, none, some, List, [], ◌∷◌,
}
use sunflower.Common.Outcome.{pure, ◌>>=◌, modify}
use sunflower.Floppy.Machine.{
  timeout, sector_size, DiskError, bad_buf_len, controller_uninit, send_command_timeout, io_timeout,
  disk_fifo_timeout, FloppyError, read_or_write, World, Op, drive_number, msr, get_time,
}
use sunflower.Floppy.Motor.{disable_motor}
use sunflower.Floppy.Fifo.{send_byte, read_byte}
use sunflower.Floppy.Command.{FloppyCommand, send_command, seek, init_fdc}
use sunflower.Floppy.Disk.{
  disk_retries, seek_retries, Chs, check_transfer, has_bits, status_error, raise_disk,
  wait_for_rqm_from, wait_for_rqm, read_write_status, transfer_command, transfer_params,
  transfer_rounds, start_transfer, send_read_write, read_bytes, write_bytes, give_up, read_done,
  read_rounds, checked, read, write_done, write_rounds, write,
}
use sunflower.Floppy.Protocol.Keeps.{
  Keeps, pure-Keeps, raise-Keeps, out_of_fuel-Keeps, bound, gets-Keeps, chosen, tried, handled,
  offered, set-Keeps, send_byte-Keeps, get_time-Keeps, msr-Keeps,
}
use sunflower.Floppy.Protocol.Commands.{read_byte-Keeps, send_command-Keeps}
use sunflower.Floppy.Protocol.Driver.{seek-Keeps, init_fdc-Keeps}

module _ (w : World) (base : ℕ) (far : 5 + base ≢ 0x80) (fuel depth : ℕ) where
  wait_for_rqm_from-Keeps :
      (n start : ℕ) → Keeps w base far (wait_for_rqm_from w fuel depth n start)
  unfolding wait_for_rqm_from
  wait_for_rqm_from-Keeps zero start = out_of_fuel-Keeps w base far
  wait_for_rqm_from-Keeps (suc n) start =
      bound w base far (get_time w) _ (get_time-Keeps w base far) (λ now.
        chosen w base far (ltb now (start + timeout)) _ (raise_disk disk_fifo_timeout)
          (bound w base far (msr w) _ (msr-Keeps w base far) (λ bits.
            chosen w base far (has_bits bits 0b10000000) (pure tt)
              (wait_for_rqm_from w fuel depth n start) (pure-Keeps w base far tt)
              (wait_for_rqm_from-Keeps n start)))
          (raise-Keeps w base far (read_or_write disk_fifo_timeout)))

  wait_for_rqm-Keeps : Keeps w base far (wait_for_rqm w fuel depth)
  unfolding wait_for_rqm
  wait_for_rqm-Keeps =
      bound w base far (get_time w) _ (get_time-Keeps w base far) (wait_for_rqm_from-Keeps fuel)

  status_known :
      (e : Option DiskError)
      → Keeps w base far {A = Unit {0}} (elim e [ some e' ↦ raise_disk e' | none ↦ pure tt ])
  status_known none = pure-Keeps w base far tt
  status_known (some e) = raise-Keeps w base far (read_or_write e)

  -- A status byte, with what is done after it.
  one_byte :
      {B : Type 0} (f : ℕ → Op B)
      → ((byte : ℕ) → Keeps w base far (f byte))
      → Keeps w base far (read_byte w fuel >>= f)
  one_byte f = bound w base far (read_byte w fuel) f (read_byte-Keeps w base far fuel)

  read_write_status-Keeps : Keeps w base far (read_write_status w fuel depth)
  unfolding read_write_status
  read_write_status-Keeps = bound w base far (wait_for_rqm w fuel depth) _ wait_for_rqm-Keeps (λ _.
      one_byte _ (λ st0. one_byte _ (λ st1. one_byte _ (λ st2. one_byte _ (λ _.
        one_byte _
          (λ _. one_byte _ (λ _. one_byte _ (λ _. status_known (status_error st0 st1 st2)))))))))

  transfer_rounds-Keeps :
      (n : ℕ) (cmd : FloppyCommand) (params : List ℕ) (cyl : ℕ)
      → Keeps w base far (transfer_rounds w fuel depth n cmd params cyl)
  unfolding transfer_rounds
  transfer_rounds-Keeps zero cmd params cyl =
      raise-Keeps w base far (read_or_write send_command_timeout)
  transfer_rounds-Keeps (suc n) cmd params cyl =
      let reset = init_fdc w fuel depth in
      let kept = init_fdc-Keeps w base far fuel depth in
      bound w base far (seek w fuel reset none) _ (seek-Keeps w base far fuel reset kept none) (λ _.
        bound w base far (seek w fuel reset (some cyl)) _
          (seek-Keeps w base far fuel reset kept (some cyl))
          (λ _. bound w base far (wait_for_rqm w fuel depth) _ wait_for_rqm-Keeps (λ _.
            handled w base far (send_command w fuel reset cmd params)
              (λ e. transfer_rounds w fuel depth n cmd params cyl) (λ _. pure tt)
              (send_command-Keeps w base far fuel reset kept cmd params)
              (λ e. transfer_rounds-Keeps n cmd params cyl) (λ _. pure-Keeps w base far tt))))

  start_transfer-Keeps :
      (read : Bool) (s : DiskError ⊎ (Chs × ℕ))
      → Keeps w base far (start_transfer w fuel depth read s)
  start_transfer-Keeps read (inl e) = raise-Keeps w base far (read_or_write e)
  start_transfer-Keeps read (inr (start, end_sect)) =
      gets-Keeps w base far (λ m. m.drive_one) _
        (λ one.
          transfer_rounds-Keeps seek_retries (transfer_command w fuel depth read)
            (transfer_params w fuel depth (drive_number one) start end_sect) start.cyl)

  send_read_write-Keeps :
      (read : Bool) (ptr sects : ℕ) → Keeps w base far (send_read_write w fuel depth read ptr sects)
  unfolding send_read_write
  send_read_write-Keeps read ptr sects =
      gets-Keeps w base far (λ m. m.floppy_init) _
        (λ ready.
          chosen w base far ready (start_transfer w fuel depth read (check_transfer ptr sects))
            (raise_disk controller_uninit) (start_transfer-Keeps read (check_transfer ptr sects))
            (raise-Keeps w base far (read_or_write controller_uninit)))

  more_bytes-Keeps :
      (byte : ℕ) (s : FloppyError ⊎ List ℕ)
      → Keeps w base far (elim s [
        | inl e ↦ pure {A = FloppyError ⊎ List ℕ} (inl e)
        | inr bytes ↦ pure (inr (byte ∷ bytes))
      ])
  more_bytes-Keeps byte (inl e) = pure-Keeps w base far (inl e)
  more_bytes-Keeps byte (inr bytes) = pure-Keeps w base far (inr (byte ∷ bytes))

  read_bytes-Keeps : (n : ℕ) → Keeps w base far (read_bytes w fuel depth n)
  unfolding read_bytes
  read_bytes-Keeps zero = pure-Keeps w base far (inr [])
  read_bytes-Keeps (suc n) = bound w base far (wait_for_rqm w fuel depth) _ wait_for_rqm-Keeps (λ _.
      handled w base far (read_byte w fuel) (λ e. pure (inl e)) _ (read_byte-Keeps w base far fuel)
        (λ e. pure-Keeps w base far (inl e))
        (λ byte.
          bound w base far (read_bytes w fuel depth n) _ (read_bytes-Keeps n)
            (more_bytes-Keeps byte)))

  write_bytes-Keeps : (bytes : List ℕ) → Keeps w base far (write_bytes w fuel depth bytes)
  unfolding write_bytes
  write_bytes-Keeps [] = pure-Keeps w base far none
  write_bytes-Keeps (byte ∷ bytes) =
      bound w base far (wait_for_rqm w fuel depth) _ wait_for_rqm-Keeps (λ _.
        handled w base far (send_byte w fuel byte) (λ e. pure (some e))
          (λ _. write_bytes w fuel depth bytes) (send_byte-Keeps w base far fuel byte)
          (λ e. pure-Keeps w base far (some e)) (λ _. write_bytes-Keeps bytes))

  give_up-Keeps : {A : Type 0} (e : FloppyError) → Keeps w base far (give_up w fuel depth {A = A} e)
  unfolding disable_motor
  give_up-Keeps e =
      bound w base far (modify (λ m. disable_motor (record m { floppy_init = false }))) _
        (set-Keeps w base far _ (λ m. (refl, refl))) (λ _. raise-Keeps w base far e)

  read_done-Keeps : (bytes : List ℕ) → Keeps w base far (read_done w fuel depth bytes)
  unfolding disable_motor
  read_done-Keeps bytes =
      bound w base far (read_write_status w fuel depth) _ read_write_status-Keeps (λ _.
        bound w base far
          (modify (λ m.
            let m' = disable_motor m in
            record m' { bytes_read = (m'.bytes_read + length bytes) % 2 ^ 64 }))
          _ (set-Keeps w base far _ (λ m. (refl, refl))) (λ _. pure-Keeps w base far bytes))

  read_rounds-Keeps :
      (n ptr sects len : ℕ) (e : FloppyError)
      → Keeps w base far (read_rounds w fuel depth n ptr sects len e)
  unfolding read_rounds
  read_rounds-Keeps zero ptr sects len e = give_up-Keeps e
  read_rounds-Keeps (suc n) ptr sects len e =
      handled w base far (send_read_write w fuel depth true ptr sects)
        (λ e'. read_rounds w fuel depth n ptr sects len e') _ (send_read_write-Keeps true ptr sects)
        (λ e'. read_rounds-Keeps n ptr sects len e')
        (λ _. bound w base far (read_bytes w fuel depth len) _ (read_bytes-Keeps len) (λ got.
          tried w base far got (λ e'. read_rounds w fuel depth n ptr sects len e')
            (read_done w fuel depth) (λ e'. read_rounds-Keeps n ptr sects len e') read_done-Keeps))

  checked-Keeps :
      {A : Type 0} (len : ℕ) (nothing : A) (go : Op A)
      → Keeps w base far go
      → Keeps w base far (checked w fuel depth len nothing go)
  checked-Keeps len nothing go k =
      chosen w base far (len == 0) (pure nothing) _ (pure-Keeps w base far nothing) (
        gets-Keeps w base far (λ m. m.floppy_init) _
          (λ ready.
            chosen w base far (not ready) (raise_disk controller_uninit) _
              (raise-Keeps w base far (read_or_write controller_uninit))
              (chosen w base far (not (len % sector_size == 0)) (raise_disk (bad_buf_len len)) go
                (raise-Keeps w base far (read_or_write (bad_buf_len len))) k)))

  pub read-Keeps : (ptr len : ℕ) → Keeps w base far (read w fuel depth ptr len)
  unfolding read
  read-Keeps ptr len = checked-Keeps len [] _ (
      read_rounds-Keeps disk_retries (ptr % 2 ^ 16) (len / sector_size % 2 ^ 16) len
        (read_or_write io_timeout))

  write_rounds-Keeps :
      (n ptr sects : ℕ) (buf : List ℕ) (e : FloppyError)
      → Keeps w base far (write_rounds w fuel depth n ptr sects buf e)
  unfolding write_rounds disable_motor
  write_rounds-Keeps zero ptr sects buf e = give_up-Keeps e
  write_rounds-Keeps (suc n) ptr sects buf e =
      handled w base far (send_read_write w fuel depth false ptr sects)
        (λ e'. write_rounds w fuel depth n ptr sects buf e') _
        (send_read_write-Keeps false ptr sects) (λ e'. write_rounds-Keeps n ptr sects buf e')
        (λ _. bound w base far (write_bytes w fuel depth buf) _ (write_bytes-Keeps buf) (λ failed.
          offered w base far failed (λ e'. write_rounds w fuel depth n ptr sects buf e')
            (write_done w fuel depth (length buf)) (λ e'. write_rounds-Keeps n ptr sects buf e')
            (set-Keeps w base far _ (λ m. (refl, refl)))))

  pub write-Keeps : (ptr : ℕ) (buf : List ℕ) → Keeps w base far (write w fuel depth ptr buf)
  unfolding write
  write-Keeps ptr buf = checked-Keeps (length buf) tt _ (
      write_rounds-Keeps disk_retries (ptr % 2 ^ 16) (length buf / sector_size % 2 ^ 16) buf
        (read_or_write io_timeout))
