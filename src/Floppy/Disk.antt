-- ===== src/Floppy/Disk.antt =====
-- kernel/src/floppy/disk.rs. Where an operation fails, what it had put into the buffer is left out.
pub mod Address
pub mod Wait
use sunflower.Common.{
  ltb, leb, ◌==◌, if◌then◌else◌, length, ℕ, zero, suc, ◌+◌, ◌-◌, ◌*◌, ◌/◌, ◌%◌, ◌^◌, bit_or, ◌⊎◌,
  inl, inr, Bool, true, false, not, Option, none, some, List, [], ◌∷◌,
}
use sunflower.Common.Bits.{}
use sunflower.Common.Outcome.{pure, raise, ◌>>=◌, ◌>>◌, modify, gets, attempt, out_of_fuel}
use sunflower.Floppy.Machine.{
  timeout, st0_err_or_reset, heads, cylinders, sectors, sector_size, DiskError, bad_buf_len,
  controller_uninit, send_command_timeout, io_timeout, disk_fifo_timeout, bad_sect_or_head,
  not_writable, end_of_drive, bad_st0_bits, drive_not_ready, no_data_found, controller_timeout,
  end_of_cylinder, crc_error, bad_cylinder, differing_cylinder, no_address_mark, FloppyError,
  read_or_write, World, Op, drive_number, msr, get_time,
}
use sunflower.Floppy.Motor.{disable_motor}
use sunflower.Floppy.Fifo.{send_byte, read_byte}
use sunflower.Floppy.Command.{
  FloppyCommand, write_data_with_flags, read_data_with_flags, send_command, seek, init_fdc,
}

abbrev pub disk_retries : ℕ
disk_retries = 8

abbrev pub seek_retries : ℕ
seek_retries = 5

abbrev pub bytes_per_sector : ℕ
bytes_per_sector = 2

-- A head, a cylinder and a sector.
pub record Chs : Type 0 where
  pub head : ℕ
  pub cyl : ℕ
  pub sect : ℕ

unfoldable pub lba_to_chs : ℕ → Chs
lba_to_chs lba = record {
  head = lba % (heads * sectors) / sectors % 256;
  cyl = lba / (sectors * heads) % 256;
  sect = (lba % (sectors * heads) % sectors + 1) % 256;
}

-- What `send_read_write` finds wrong with a transfer, or where it starts and its last sector. The
-- address of the last block is a `u16`.
unfoldable pub check_transfer : ℕ → ℕ → DiskError ⊎ (Chs × ℕ)
unfolding lba_to_chs
check_transfer ptr sects =
    let start = lba_to_chs ptr in
    let last = lba_to_chs ((ptr + sects + 2 ^ 16 - 1) % 2 ^ 16) in
    if leb cylinders last.cyl
    then inl end_of_drive
    else if ltb sectors start.sect
    then inl (bad_sect_or_head start.sect start.head)
    else if start.sect == 0
    then inl (bad_sect_or_head start.sect start.head)
    else if not (start.head == last.head)
    then inl (bad_sect_or_head start.sect start.head)
    else if not (start.cyl == last.cyl)
    then inl (bad_sect_or_head start.sect start.head)
    else inr (start, last.sect)

-- The test `st | bits == st` of the status bytes.
abbrev pub has_bits : ℕ → ℕ → Bool
has_bits st bits = bit_or st bits == st

-- The errors of `read_write_status` in the order in which they are tested.
unfoldable pub status_error : ℕ → ℕ → ℕ → Option DiskError
status_error st0 st1 st2 =
    if has_bits st1 0x2
    then some not_writable
    else if has_bits st0 st0_err_or_reset
    then some bad_st0_bits
    else if has_bits st0 0x8
    then some drive_not_ready
    else if has_bits st1 0x4
    then some no_data_found
    else if has_bits st1 0x10
    then some controller_timeout
    else if has_bits st1 0x80
    then some end_of_cylinder
    else if has_bits st1 0x20
    then some crc_error
    else if has_bits st2 0x2
    then some bad_cylinder
    else if has_bits st2 0x10
    then some differing_cylinder
    else if has_bits st2 0x20
    then some crc_error
    else if has_bits st1 0x40
    then some no_address_mark
    else none

abbrev pub raise_disk : {A : Type 0} → DiskError → Op A
raise_disk e = raise (read_or_write e)

module _ (w : World) (fuel depth : ℕ) where
  unfoldable pub wait_for_rqm_from : ℕ → ℕ → Op (Unit {0})
  unfolding get_time msr
  wait_for_rqm_from zero start_time = out_of_fuel
  wait_for_rqm_from (suc n) start_time =
      let rest = wait_for_rqm_from n start_time in
      get_time w >>= (λ now.
        if ltb now (start_time + timeout)
        then (msr w >>= (λ bits. if has_bits bits 0b10000000 then pure tt else rest))
        else raise_disk disk_fifo_timeout)

  unfoldable pub wait_for_rqm : Op (Unit {0})
  unfolding get_time wait_for_rqm_from
  wait_for_rqm = get_time w >>= wait_for_rqm_from fuel

  unfoldable pub read_write_status : Op (Unit {0})
  unfolding wait_for_rqm read_byte status_error
  read_write_status = do
    wait_for_rqm
    st0 ← read_byte w fuel
    st1 ← read_byte w fuel
    st2 ← read_byte w fuel
    _ ← read_byte w fuel
    _ ← read_byte w fuel
    _ ← read_byte w fuel
    _ ← read_byte w fuel
    elim (status_error st0 st1 st2) [ some e ↦ raise_disk e | none ↦ pure tt ]

  abbrev pub transfer_command : Bool → FloppyCommand
  transfer_command read = if read then read_data_with_flags else write_data_with_flags

  abbrev pub transfer_params : ℕ → Chs → ℕ → List ℕ
  transfer_params drive start end_sect =
      bit_or drive (start.head * 2 ^ 2)
      ∷ start.cyl
      ∷ start.head
      ∷ start.sect
      ∷ bytes_per_sector
      ∷ end_sect
      ∷ 0x1B
      ∷ 0xFF
      ∷ []

  -- The rounds that seek and send the command.
  unfoldable pub transfer_rounds : ℕ → FloppyCommand → List ℕ → ℕ → Op (Unit {0})
  unfolding wait_for_rqm seek send_command init_fdc
  transfer_rounds zero cmd params cyl = raise_disk send_command_timeout
  transfer_rounds (suc n) cmd params cyl =
      let rest = transfer_rounds n cmd params cyl in
      do
        seek w fuel (init_fdc w fuel depth) none
        seek w fuel (init_fdc w fuel depth) (some cyl)
        wait_for_rqm
        sent ← attempt (send_command w fuel (init_fdc w fuel depth) cmd params)
        elim sent [ inl e ↦ rest | inr _ ↦ pure tt ]

  abbrev pub start_transfer : Bool → DiskError ⊎ (Chs × ℕ) → Op (Unit {0})
  start_transfer read (inl e) = raise_disk e
  start_transfer read (inr (start, end_sect)) = do
    one ← gets (λ m. m.drive_one)
    transfer_rounds seek_retries (transfer_command read)
        (transfer_params (drive_number one) start end_sect) start.cyl

  unfoldable pub send_read_write : Bool → ℕ → ℕ → Op (Unit {0})
  unfolding transfer_rounds check_transfer
  send_read_write read ptr sects = do
    ready ← gets (λ m. m.floppy_init)
    if ready then start_transfer read (check_transfer ptr sects) else raise_disk controller_uninit

  -- The loop over the buffer of `read`: an error of the controller goes to the next attempt.
  unfoldable pub read_bytes : ℕ → Op (FloppyError ⊎ List ℕ)
  unfolding wait_for_rqm read_byte
  read_bytes zero = pure (inr [])
  read_bytes (suc n) =
      let rest = read_bytes n in
      do
        wait_for_rqm
        got ← attempt (read_byte w fuel)
        elim got [
          | inl e ↦ pure (inl e)
          | inr byte ↦ rest >>= (λ later. elim later [
            | inl e ↦ pure (inl e)
            | inr bytes ↦ pure (inr (byte ∷ bytes))
          ])
        ]

  unfoldable pub write_bytes : List ℕ → Op (Option FloppyError)
  unfolding wait_for_rqm send_byte
  write_bytes [] = pure none
  write_bytes (byte ∷ bytes) =
      let rest = write_bytes bytes in
      do
        wait_for_rqm
        sent ← attempt (send_byte w fuel byte)
        elim sent [ inl e ↦ pure (some e) | inr _ ↦ rest ]

  -- After the last attempt the driver turns itself off.
  abbrev pub give_up : {A : Type 0} → FloppyError → Op A
  give_up e = modify (λ m. disable_motor (record m { floppy_init = false })) >> raise e

  abbrev pub read_done : List ℕ → Op (List ℕ)
  read_done bytes = do
    read_write_status
    modify (λ m.
        let m' = disable_motor m in
        record m' { bytes_read = (m'.bytes_read + length bytes) % 2 ^ 64 })
    pure bytes

  unfoldable pub read_rounds : ℕ → ℕ → ℕ → ℕ → FloppyError → Op (List ℕ)
  unfolding read_bytes send_read_write read_write_status disable_motor
  read_rounds zero ptr sects len e = give_up e
  read_rounds (suc n) ptr sects len e = attempt (send_read_write true ptr sects) >>= (λ started.
      elim started [
        | inl e' ↦ read_rounds n ptr sects len e'
        | inr _ ↦ read_bytes len >>= (λ got. elim got [
          | inl e' ↦ read_rounds n ptr sects len e'
          | inr bytes ↦ read_done bytes
        ])
      ])

  -- The checks before a transfer of `len` bytes, and what to do if they pass.
  abbrev pub checked : {A : Type 0} → ℕ → A → Op A → Op A
  checked len nothing go =
      if len == 0
      then pure nothing
      else gets (λ m. m.floppy_init) >>= (λ ready.
        if not ready
        then raise_disk controller_uninit
        else if not (len % sector_size == 0)
        then raise_disk (bad_buf_len len)
        else go)

  -- `read` into a buffer of `len` bytes: what the buffer then holds.
  unfoldable pub read : ℕ → ℕ → Op (List ℕ)
  unfolding read_rounds
  read ptr len = checked len [] (
      read_rounds disk_retries (ptr % 2 ^ 16) (len / sector_size % 2 ^ 16) len
        (read_or_write io_timeout))

  abbrev pub write_done : ℕ → Op (Unit {0})
  write_done len = modify (λ m.
      let m' = disable_motor m in record m' { bytes_written = (m'.bytes_written + len) % 2 ^ 64 })

  unfoldable pub write_rounds : ℕ → ℕ → ℕ → List ℕ → FloppyError → Op (Unit {0})
  unfolding write_bytes send_read_write disable_motor
  write_rounds zero ptr sects buf e = give_up e
  write_rounds (suc n) ptr sects buf e = attempt (send_read_write false ptr sects) >>= (λ started.
      elim started [
        | inl e' ↦ write_rounds n ptr sects buf e'
        | inr _ ↦ write_bytes buf >>= (λ failed. elim failed [
          | some e' ↦ write_rounds n ptr sects buf e'
          | none ↦ write_done (length buf)
        ])
      ])

  unfoldable pub write : ℕ → List ℕ → Op (Unit {0})
  unfolding write_rounds
  write ptr buf = checked (length buf) tt (
      write_rounds disk_retries (ptr % 2 ^ 16) (length buf / sector_size % 2 ^ 16) buf
        (read_or_write io_timeout))
