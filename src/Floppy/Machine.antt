-- ===== src/Floppy/Machine.antt =====
-- The statics and errors of kernel/src/floppy.rs, and the machine around the driver: what a port
-- or the clock answers is an argument, which may depend on every access made before.
use sunflower.Common.{
  ltb, if◌then◌else◌, ℕ, zero, suc, ◌+◌, ◌*◌, ◌%◌, Bool, Option, none, some, List, ◌∷◌,
}
use sunflower.Common.Outcome.{Exec, pure, ◌>>=◌, ◌>>◌, modify, gets, out_of_fuel, ok, err}

abbrev pub timeout : ℕ
timeout = 30

abbrev pub retries : ℕ
retries = 5

abbrev pub st0_err_or_reset : ℕ
st0_err_or_reset = 0xC0

abbrev pub heads : ℕ
heads = 2

abbrev pub cylinders : ℕ
cylinders = 80

abbrev pub sectors : ℕ
sectors = 18

abbrev pub sector_size : ℕ
sector_size = 512

abbrev pub cyl_boundary : ℕ
cyl_boundary = sectors * sector_size

pub data FloppyPort : Type 0 where
  digital_output_register main_status_register fifo config_ctrl_register : FloppyPort

abbrev pub port_number : FloppyPort → ℕ
port_number digital_output_register = 2
port_number main_status_register = 4
port_number fifo = 5
port_number config_ctrl_register = 7

pub data SendCmdError : Type 0 where
  bad_command : ℕ → SendCmdError
  bad_parameter : ℕ → ℕ → SendCmdError
  reset_error : ℕ → SendCmdError

pub data SenseIntError : Type 0 where
  resend_command controller_lockup command_failed unknown_error : SenseIntError

pub data FifoIoError : Type 0 where
  fifo_read : FifoIoError
  fifo_write : ℕ → FifoIoError

pub data DiskError : Type 0 where
  bad_buf_len : ℕ → DiskError
  controller_uninit send_command_timeout io_timeout disk_fifo_timeout : DiskError
  bad_sect_or_head : ℕ → ℕ → DiskError
  not_writable end_of_drive bad_st0_bits drive_not_ready no_data_found : DiskError
  controller_timeout end_of_cylinder crc_error bad_cylinder : DiskError
  differing_cylinder no_address_mark : DiskError

pub data FloppyError : Type 0 where
  init_static : FloppyError
  send_command_error : SendCmdError → FloppyError
  sense_interrupt : SenseIntError → FloppyError
  read_or_write : DiskError → FloppyError
  fifo_timeout : FifoIoError → FloppyError
  other : FloppyError

-- An access, the latest first in a list of them.
pub data Access : Type 0 where
  wrote : ℕ → ℕ → Access
  read_from : ℕ → Access
  looked_at_clock : Access

-- What reading a port gives (its last eight bits), and the kernel ticks at a look at the clock.
pub record World : Type 0 where
  pub answer : List Access → ℕ → ℕ
  pub clock : List Access → ℕ

-- The statics that the driver uses.
pub record Machine : Type 0 where
  pub accesses : List Access
  pub base_offset : Option ℕ
  pub floppy_space : Option ℕ
  pub drive_one : Bool
  pub motor_state : ℕ
  pub motor_time_left : ℕ
  pub pit_init : Bool
  pub floppy_init : Bool
  pub bytes_read : ℕ
  pub bytes_written : ℕ

abbrev pub Op : Type 0 → Type 0
Op A = Exec Machine FloppyError A

abbrev pub access : {E : Type 0} → Access → Exec Machine E (Unit {0})
access a = modify (λ m. record m { accesses = a ∷ m.accesses })

-- `ports::writeb`, with the dummy write before it.
unfoldable pub writeb : ℕ → ℕ → Op (Unit {0})
writeb port val = access (wrote 0x80 0) >> access (wrote port val)

-- `FloppyPort::add_offset`
unfoldable pub add_offset : FloppyPort → Op ℕ
add_offset port m = elim m.base_offset [
  | none ↦ (err init_static, m)
  | some base ↦ (ok (port_number port + base), m)
]

abbrev pub drive_number : Bool → ℕ
drive_number one = if one then 1 else 0

module _ (w : World) where
  -- `ports::readb`, with the dummy write before it.
  unfoldable pub readb : ℕ → Op ℕ
  readb port m =
      let before = wrote 0x80 0 ∷ m.accesses in
      (ok (w.answer before port % 256), record m { accesses = read_from port ∷ before })

  -- `FloppyPort::msr`
  unfoldable pub msr : Op ℕ
  msr = add_offset main_status_register >>= readb

  -- `time::get_time`
  unfoldable pub get_time : Op ℕ
  get_time m = (ok (w.clock m.accesses), record m { accesses = looked_at_clock ∷ m.accesses })

  -- The loop of `time::wait`, on fuel.
  unfoldable pub wait_until : ℕ → ℕ → Op (Unit {0})
  unfolding get_time
  wait_until zero target = out_of_fuel
  wait_until (suc n) target =
      let rest = wait_until n target in do now ← get_time; if ltb now target then rest else pure tt

  -- `time::wait`; the waiting character on the screen is left out.
  unfoldable pub wait : ℕ → ℕ → Op (Unit {0})
  unfolding get_time wait_until
  wait fuel ticks = do
    pit ← gets (λ m. m.pit_init)
    if pit then (get_time >>= (λ now. wait_until fuel (now + ticks + 1))) else pure tt
