-- ===== src/Sync/InitLater/Race.antt =====
-- Two calls of `init` whose loads and stores interleave, as an interrupt handler and the code it
-- interrupts can make them.
use sunflower.Common.{
  ◌==◌, if◌then◌else◌, ℕ, zero, suc, ◌≡◌, refl, Bool, true, false, some, List, [], ◌∷◌, arith,
}
use sunflower.Sync.InitLater.{
  InitLater, uninit_state, initialising, initialised, store, write, init, uninit, InitResult, ok,
  err, undefined,
}

-- How far a call of `init` has come.
pub data Progress (T : Type 0) : Type 0 where
  started : T → Progress T
  loaded : T → ℕ → Progress T
  marked : T → ℕ → Progress T
  wrote : T → Progress T
  returned_ok : T → Progress T
  returned_err : ℕ → Progress T

module _ {T : Type 0} where
  -- One atomic step of a call of `init`.
  unfoldable pub advance : InitLater T → Progress T → InitLater T × Progress T
  advance l (started v) = (l, loaded v l.state)
  advance l (loaded v s) = (store l initialising, marked v s)
  advance l (marked v s) =
      if s == uninit_state then (write l v, wrote v) else (store l s, returned_err s)
  advance l (wrote v) = (store l initialised, returned_ok v)
  advance l (returned_ok v) = (l, returned_ok v)
  advance l (returned_err s) = (l, returned_err s)

  -- The steps of one call, with nothing in between.
  unfoldable pub alone : ℕ → InitLater T × Progress T → InitLater T × Progress T
  unfolding advance
  alone zero s = s
  alone (suc n) (l, p) = alone n (advance l p)

  -- What `init` returned.
  abbrev pub finished : InitResult T → Progress T
  finished (ok v) = returned_ok v
  finished (err e) = returned_err e.state
  finished undefined = returned_err 0

  -- Two calls at once; each step names the call that goes on, true for the first.
  unfoldable pub interleave :
      List Bool → InitLater T → Progress T → Progress T → InitLater T × Progress T × Progress T
  unfolding advance
  interleave [] l p q = (l, p, q)
  interleave (true ∷ sched) l p q = let (l', p') = advance l p in interleave sched l' p' q
  interleave (false ∷ sched) l p q = let (l', q') = advance l q in interleave sched l' p q'

  -- Four atomic steps of a call that is not interrupted do what `init` does: the same static
  -- afterwards and the same result.
  pub alone-init :
      (l : InitLater T) (v : T) → alone 4 (l, started v) ≡ ((init l v).1, finished (init l v).0)
  unfolding alone init store write
  alone-init l v = ground arith

  -- A call that interrupts another between its load and its store finds the static uninitialised
  -- too: both return success, and the value is the one that was interrupted.
  interleave-both :
      (v u : T)
      → interleave
          (true ∷ false ∷ false ∷ false ∷ false ∷ true ∷ true ∷ true ∷ [])
          uninit
          (started v)
          (started u)
        ≡ (record { cell = some v; state = initialised }, returned_ok v, returned_ok u)
  unfolding interleave store write uninit
  interleave-both v u = refl
