-- ===== src/Startup/Rtc.antt =====
-- The handler of the real time clock in kernel/src/interrupts/idt.rs, and the wait for it in
-- kernel/src/time.rs. An interrupt is what the registers of the CMOS hold when it comes.
pub mod First
use sunflower.Common.{◌==◌, if◌then◌else◌, ℕ, bit_or, Bool, true, Option, none, some, List, [], ◌∷◌}
use sunflower.Common.Bits.{}
use sunflower.Sync.InitLater.{InitLater, InitResult}
use sunflower.Sync.InitLater
use sunflower.Kernel.Time.{Time, Registers, sync_time}

-- `RTC_UPDATE_ENDED`, `RTC_SYNC_DONE` and `LAUNCH_TIME`.
pub record Rtc : Type 0 where
  pub update_ended : Bool
  pub sync_done : Bool
  pub launch_time : InitLater Time

abbrev pub cmos_reg_c : ℕ
cmos_reg_c = 0x8C

-- `sync_time_to_rtc`
unfoldable pub sync_time_to_rtc : ℕ → Registers → Rtc → Rtc
sync_time_to_rtc century reg r = record r {
  launch_time = (InitLater.init r.launch_time (sync_time century reg)).1;
  sync_done = true;
}

-- "or ah, 16", "cmp al, ah": bit 4 of register C is set.
unfoldable pub has_ended : Registers → Bool
has_ended reg = reg cmos_reg_c == bit_or (reg cmos_reg_c) 16

-- `rtc_handler`, up to the end of interrupt.
unfoldable pub rtc_handler : ℕ → Registers → Rtc → Rtc
unfolding sync_time_to_rtc has_ended
rtc_handler century reg r =
    if r.update_ended
    then r
    else if has_ended reg
    then sync_time_to_rtc century reg (record r { update_ended = true })
    else r

pub data RtcSyncWaitError : Type 0 where
  no_irq : RtcSyncWaitError
  no_static : ℕ → RtcSyncWaitError

abbrev pub static_error : InitResult Time → Option RtcSyncWaitError
static_error (InitLater.ok t) = none
static_error (InitLater.err e) = some (no_static e.state)
static_error InitLater.undefined = none

-- The loop of `wait_for_rtc_sync`: the interrupts that come while it waits; none if they run out.
unfoldable pub wait_sync : ℕ → List Registers → Rtc → Option Rtc
unfolding rtc_handler
wait_sync century [] r = if r.sync_done then some r else none
wait_sync century (reg ∷ regs) r =
    let rest = wait_sync century regs (rtc_handler century reg r) in
    if r.sync_done then some r else rest
