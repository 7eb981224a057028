-- ===== src/Floppy/Disk/Wait.antt =====
-- Polling the controller ends, in a world whose clock runs.
use native.Mathlib.Nat.{mul-le-mul_left}
use sunflower.Common.{
  ltb, ltb→lt, Bool-cases, length, ℕ, zero, suc, ◌+◌, ◌*◌, ◌≤◌, ◌<◌, ◌≡◌, ◌⊎◌, inl, inr, some, List,
  ◌∷◌, arith,
}
use sunflower.Common.Outcome.{Outcome, ok, err}
use sunflower.Floppy.Machine.{
  timeout, disk_fifo_timeout, FloppyError, read_or_write, Access, wrote, read_from, looked_at_clock,
  World, Machine, add_offset, readb, msr, get_time,
}
use sunflower.Floppy.Disk.{wait_for_rqm_from, wait_for_rqm}

-- Fewer than `slow` accesses are made in each tick of the clock.
abbrev pub IsRunning : World → ℕ → Type 0
IsRunning w slow = (a : List Access) → length a < slow * (w.clock a + 1)

abbrev pub Answered : Outcome FloppyError (Unit {0}) → Type 0
Answered r = (r ≡ ok tt) ⊎ (r ≡ err (read_or_write disk_fifo_timeout))

later_bound :
    (slow now start : ℕ) → now < start + timeout → slow * (now + 1) ≤ slow * (start + timeout)
later_bound slow now start h = mul-le-mul_left slow (omega (arith, h))

module _ (w : World) (slow fuel depth : ℕ) (run : IsRunning w slow) where
  wait_for_rqm_from-Answered :
      (n start : ℕ) (m : Machine) (base : ℕ)
      → m.base_offset ≡ some base
      → 0 < n
      → slow * (start + timeout) < n + length m.accesses
      → Answered (wait_for_rqm_from w fuel depth n start m).0
  unfolding wait_for_rqm_from get_time msr add_offset readb
  wait_for_rqm_from-Answered zero start m base e pos h = absurd (omega arith)
  wait_for_rqm_from-Answered (suc n) start m base e pos h =
      let paced = run m.accesses in
      let bound = later_bound slow (w.clock m.accesses) start in
      let again =
        wait_for_rqm_from-Answered n start
          (record m {
            accesses = read_from (4 + base) ∷ wrote 0x80 0 ∷ looked_at_clock ∷ m.accesses;
          })
          base e in
      elim (Bool-cases (ltb (w.clock m.accesses) (start + timeout))) [
        | inl waiting ↦ ground (arith, bound (ltb→lt _ _ waiting), again)
        | inr late ↦ ground arith
      ]

  -- In a world in which fewer than `slow` accesses are made in each tick, once the base offset is set,
  -- `wait_for_rqm` returns: with fuel for the accesses until the timeout, the RQM bit was seen or the
  -- timeout is reported.
  pub wait_for_rqm-Answered :
      (m : Machine) (base : ℕ)
      → m.base_offset ≡ some base
      → slow * (w.clock m.accesses + timeout) < fuel
      → Answered (wait_for_rqm w fuel depth m).0
  unfolding wait_for_rqm get_time
  wait_for_rqm-Answered m base e h =
      wait_for_rqm_from-Answered fuel (w.clock m.accesses)
        (record m { accesses = looked_at_clock ∷ m.accesses }) base e (omega arith) (omega arith)
