-- ===== src/Startup/Rtc/First.antt =====
-- Which interrupt sets the launch time.
use sunflower.Common.{
  if◌then◌else◌, Bool-cases, ℕ, ◌≡◌, refl, ap, ◌∙◌, inl, inr, true, false, Option, none, some, List,
  [], ◌∷◌, arith,
}
use sunflower.Sync.InitLater.{InitLater}
use sunflower.Sync.InitLater
use sunflower.Kernel.Time.{Registers, sync_time}
use sunflower.Startup.Rtc.{Rtc, has_ended, rtc_handler, wait_sync}

-- The first interrupt at which register C says that an update has ended.
unfoldable pub first_ended : List Registers → Option Registers
first_ended [] = none
first_ended (reg ∷ regs) = let rest = first_ended regs in if has_ended reg then some reg else rest

-- The handler, for each interrupt of a list.
unfoldable pub handle_all : ℕ → List Registers → Rtc → Rtc
unfolding rtc_handler
handle_all century [] r = r
handle_all century (reg ∷ regs) r = handle_all century regs (rtc_handler century reg r)

-- Nothing has been received.
abbrev pub no_rtc : Rtc
no_rtc = record { update_ended = false; sync_done = false; launch_time = InitLater.uninit }

abbrev pub synced : ℕ → Option Registers → Rtc
synced century none = no_rtc
synced century (some reg) = record {
  update_ended = true;
  sync_done = true;
  launch_time = record { cell = some (sync_time century reg); state = InitLater.initialised };
}

rtc_handler-ended :
    (century : ℕ) (reg : Registers) (r : Rtc)
    → r.update_ended ≡ true
    → rtc_handler century reg r ≡ r
unfolding rtc_handler
rtc_handler-ended century reg r h = ground (arith, h)

handle_all-ended :
    (century : ℕ) (regs : List Registers) (r : Rtc)
    → r.update_ended ≡ true
    → handle_all century regs r ≡ r
unfolding handle_all
handle_all-ended century [] r h = refl
handle_all-ended century (reg ∷ regs) r h =
    ap (handle_all century regs) (rtc_handler-ended century reg r h)
    ∙ handle_all-ended century regs r h

-- However many interrupts come, the launch time is the one of the first interrupt at which an update
-- had ended, and nothing is set before.
pub handle_all-first :
    (century : ℕ) (regs : List Registers)
    → handle_all century regs no_rtc ≡ synced century (first_ended regs)
unfolding handle_all first_ended InitLater.init InitLater.uninit
handle_all-first century [] = refl
handle_all-first century (reg ∷ regs) = elim (Bool-cases (has_ended reg)) [
  | inl e ↦ rw e (handle_all-ended century regs (synced century (some reg)) refl)
  | inr e ↦ rw e (handle_all-first century regs)
]

wait_sync-done :
    (century : ℕ) (regs : List Registers) (r : Rtc)
    → r.sync_done ≡ true
    → wait_sync century regs r ≡ some r
unfolding wait_sync
wait_sync-done century [] r h = rw h refl
wait_sync-done century (reg ∷ regs) r h = ground (arith, h)

pub wait_sync-lem :
    (century : ℕ) (regs : List Registers)
    → wait_sync century regs no_rtc
      ≡ (elim (first_ended regs) [ none ↦ none | some reg ↦ some (synced century (some reg)) ])
unfolding wait_sync first_ended InitLater.init InitLater.uninit
wait_sync-lem century [] = refl
wait_sync-lem century (reg ∷ regs) = elim (Bool-cases (has_ended reg)) [
  | inl e ↦ rw e (wait_sync-done century regs (synced century (some reg)) refl)
  | inr e ↦ rw e (wait_sync-lem century regs)
]
