-- ===== src/Kernel/Time/Sync.antt =====
-- The time read from a clock in either of its formats.
use sunflower.Common.{
  ◌==◌, if◌then◌else◌, ==_iff, every_below, every_below-holds, ℕ, ◌+◌, ◌*◌, ◌/◌, ◌%◌, ◌^◌, ◌<◌, ◌≡◌,
  refl, Bool, true, arith,
}
use sunflower.Common.Bits.{}
use sunflower.Kernel.Time.{Time, Registers, now, bcd_to_bin, sync_time}

-- Two decimal digits as the clock holds them.
unfoldable pub to_bcd : ℕ → ℕ
to_bcd n = n / 10 * 16 + n % 10

abbrev digits_back : ℕ → Bool
digits_back n = bcd_to_bin (to_bcd n) == n

digits_back-table : every_below 100 digits_back ≡ true
unfolding every_below bcd_to_bin to_bcd
digits_back-table = refl

bcd_to_bin-to_bcd : (n : ℕ) → n < 100 → bcd_to_bin (to_bcd n) ≡ n
bcd_to_bin-to_bcd n h = (==_iff _ _).0 (every_below-holds 100 n digits_back h digits_back-table)

-- The registers of a clock that shows a time, in decimal digits, with register B.
unfoldable pub shows : Time → ℕ → Registers
shows t reg_b r =
    if r == 0x0
    then to_bcd t.sec
    else if r == 0x2
    then to_bcd t.min
    else if r == 0x4
    then to_bcd t.hour
    else if r == 0x7
    then to_bcd t.day
    else if r == 0x8
    then to_bcd t.month
    else if r == 0x9
    then to_bcd t.year
    else reg_b

-- A clock in decimal digits and 24 hours (register B holds only the bit for 24 hours), in a year
-- given by its last two digits: all of the launch time is right but the hour, which is left in
-- decimal digits.
pub sync_time-bcd :
    (t : Time) (century : ℕ)
    → t.year < 100
    → t.month < 100
    → t.day < 100
    → t.min < 100
    → t.sec < 100
    → century * 100 < 65436
    → sync_time century (shows t 0b10)
      ≡ record t { hour = to_bcd t.hour; year = t.year + century * 100 }
unfolding sync_time now shows
sync_time-bcd t century hy hmo hd hmi hs hc =
    let small : to_bcd t.year % 256 ≡ to_bcd t.year = unfold to_bcd in omega arith in
    let y : (bcd_to_bin (to_bcd t.year % 256) + century * 100) % 2 ^ 16 ≡ t.year + century * 100 =
      rw (small, bcd_to_bin-to_bcd t.year hy) (omega arith) in
    rw
      (
        y,
        bcd_to_bin-to_bcd t.month hmo,
        bcd_to_bin-to_bcd t.day hd,
        bcd_to_bin-to_bcd t.min hmi,
        bcd_to_bin-to_bcd t.sec hs,
      )
      refl
