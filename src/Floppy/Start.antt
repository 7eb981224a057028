-- ===== src/Floppy/Start.antt =====
-- The start of the driver in kernel/src/floppy.rs: what the CMOS says about the drives, and `init`.
-- A warning about unknown type bits, which is printed, is left out.
use sunflower.Common.{
  ◌==◌, if◌then◌else◌, ℕ, ◌/◌, ◌^◌, bit_and, Bool, true, false, not, Option, none, some, [],
}
use sunflower.Common.Bits.{}
use sunflower.Common.Outcome.{pure, raise, ◌>>=◌, ◌>>◌, modify, ok, err}
use sunflower.Floppy.Machine.{init_static, other, World, Op, writeb, readb}
use sunflower.Floppy.Motor.{enable_motor, disable_motor}
use sunflower.Floppy.Fifo.{read_byte}
use sunflower.Floppy.Command.{version, send_command, seek, send_configure, init_fdc}

pub record FloppyInfo : Type 0 where
  pub space : ℕ
  pub five_inch : Bool

-- By the type bits.
unfoldable pub new : ℕ → Option FloppyInfo
new bits =
    if bits == 0
    then none
    else if bits == 1
    then some (record { space = 360; five_inch = true })
    else if bits == 2
    then some (record { space = 1200; five_inch = true })
    else if bits == 3
    then some (record { space = 720; five_inch = false })
    else if bits == 4
    then some (record { space = 1440; five_inch = false })
    else if bits == 5
    then some (record { space = 2880; five_inch = false })
    else none

abbrev pub cmos_index : ℕ
cmos_index = 0x70

abbrev pub cmos_data : ℕ
cmos_data = 0x71

abbrev pub cmos_floppy_reg : ℕ
cmos_floppy_reg = 0x10

abbrev pub main_base : ℕ
main_base = 0x3F0

abbrev pub secondary_base : ℕ
secondary_base = 0x370

abbrev pub good_version : ℕ
good_version = 0x90

-- `FLOPPY_SPACE.init`: an error if it was initialised before.
unfoldable pub init_space : ℕ → Op (Unit {0})
init_space space m = elim m.floppy_space [
  | some _ ↦ (err init_static, m)
  | none ↦ (ok tt, record m { floppy_space = some space })
]

-- `BASE_OFFSET.init`
unfoldable pub init_base : ℕ → Op (Unit {0})
init_base base m = elim m.base_offset [
  | some _ ↦ (err init_static, m)
  | none ↦ (ok tt, record m { base_offset = some base })
]

-- The main drive if there is one, else the secondary one.
unfoldable pub choose_drive : Option FloppyInfo → Option FloppyInfo → Op (Unit {0})
unfolding init_space init_base
choose_drive (some floppy) secondary = init_space floppy.space >> init_base main_base
choose_drive none (some floppy) =
    init_space floppy.space
    >> (init_base secondary_base >> modify (λ m. record m { drive_one = true }))
choose_drive none none = raise other

module _ (w : World) (fuel depth : ℕ) where
  abbrev pub check_version : ℕ → Op (Unit {0})
  check_version v = if not (v == good_version) then raise other else pure tt

  -- What follows once the drive is chosen; the motor might have been left running.
  unfoldable pub start_controller : Op (Unit {0})
  start_controller = do
    enable_motor w fuel
    send_command w fuel (init_fdc w fuel depth) version []
    got ← read_byte w fuel
    check_version got
    send_configure w fuel (init_fdc w fuel depth)
    init_fdc w fuel depth
    seek w fuel (init_fdc w fuel depth) none
    modify (λ m. record m { floppy_init = true })
    modify disable_motor

  -- `time::read_cmos_reg`
  unfoldable pub read_cmos_reg : ℕ → Op ℕ
  read_cmos_reg reg = writeb cmos_index reg >> readb w cmos_data

  unfoldable pub init : Op (Unit {0})
  unfolding read_cmos_reg choose_drive start_controller
  init = do
    info ← read_cmos_reg cmos_floppy_reg
    choose_drive (new (info / 2 ^ 4)) (new (bit_and info 0b1111))
    start_controller
