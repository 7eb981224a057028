-- ===== src/Kernel/Time.antt =====
-- kernel/src/time.rs: the launch time that the handler of the real time clock takes from its
-- registers, and the interval of the timer.
pub mod Sync
pub mod Waiting
use sunflower.Common.{
  ◌==◌, if◌then◌else◌, ℕ, ◌+◌, ◌*◌, ◌/◌, ◌%◌, ◌^◌, bit_and, bit_or, Bool, not, ◌&&◌, Option, none,
  some, List, [], ◌∷◌,
}
use sunflower.Common.Bits.{}

pub record Time : Type 0 where
  pub year : ℕ
  pub month : ℕ
  pub day : ℕ
  pub hour : ℕ
  pub min : ℕ
  pub sec : ℕ

-- What the registers of the CMOS hold, in eight bits.
abbrev pub Registers : Type 0
Registers = ℕ → ℕ

abbrev pub cmos_reg_b : ℕ
cmos_reg_b = 0x8B

-- `Time::now`
unfoldable pub now : Registers → Time
now reg = record {
  year = reg 0x9;
  month = reg 0x8;
  day = reg 0x7;
  hour = reg 0x4;
  min = reg 0x2;
  sec = reg 0x0;
}

unfoldable pub bcd_to_bin : ℕ → ℕ
bcd_to_bin bcd = (bcd / 16 * 10 + bit_and bcd 0xF) % 256

-- The test `reg != reg | bits`.
abbrev pub clear_in : ℕ → ℕ → Bool
clear_in bits reg = not (reg == bit_or reg bits)

abbrev pub from_bcd : Time → Time
from_bcd t = record t {
  sec = bcd_to_bin t.sec;
  min = bcd_to_bin t.min;
  day = bcd_to_bin t.day;
  month = bcd_to_bin t.month;
  year = bcd_to_bin (t.year % 256);
}

-- The hour with its flag kept.
abbrev pub hour_from_bcd : ℕ → ℕ
hour_from_bcd hour =
    bit_or ((bit_and hour 0x0F + bit_and hour 0x70 / 16 * 10) % 256) (bit_and hour 0b10000000)

-- `sync_time_to_rtc` up to the store into `LAUNCH_TIME`; `century` is set when the kernel is built.
-- `&` binds tighter than `==`.
unfoldable pub sync_time : ℕ → Registers → Time
unfolding now
sync_time century reg =
    let reg_b = reg cmos_reg_b in
    let time = now reg in
    let bcd = clear_in 0b100 reg_b in
    let hour = if bcd then hour_from_bcd time.hour else time.hour in
    let read = if bcd then from_bcd time else time in
    let kept =
      if clear_in 0b10 reg_b && hour == bit_and hour 0b10000000
      then record read { hour = (bit_and hour 0b1111111 + 12) % 256 % 24 }
      else read in
    record kept { year = (kept.year + century * 100) % 2 ^ 16 }

abbrev pub pit_base_freq : ℕ
pit_base_freq = 1193180

abbrev pub kernel_ticks_hz : ℕ
kernel_ticks_hz = 100

abbrev pub tick_interval : ℕ
tick_interval = (pit_base_freq + kernel_ticks_hz / 2) / kernel_ticks_hz % 2 ^ 16

-- The port writes of `set_timer_interval`, or its error without a PIC.
unfoldable pub set_timer_interval : Bool → Option (List (ℕ × ℕ))
set_timer_interval pic_init =
    if pic_init
    then some (
        (0x43, 0b0_111_11_00)
        ∷ (0x40, tick_interval % 2 ^ 8)
        ∷ (0x40, tick_interval / 2 ^ 8 % 2 ^ 8)
        ∷ [])
    else none
