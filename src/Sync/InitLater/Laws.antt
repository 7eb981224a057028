-- ===== src/Sync/InitLater/Laws.antt =====
-- A sequence of calls on an `InitLater`, against a cell that is written once.
use sunflower.Common.{◌≡◌, refl, Option, none, some, List, [], ◌∷◌, arith}
use sunflower.Sync.InitLater.{
  InitLater, InitResult, ok, err, uninit, init, read, initialised, uninit_state,
}

pub data Call (T : Type 0) : Type 0 where
  inits : T → Call T
  reads : Call T

module _ {T : Type 0} where
  unfoldable pub run : InitLater T → List (Call T) → List (InitResult T)
  run l [] = []
  run l (inits v ∷ cs) = let (r, l') = init l v in r ∷ run l' cs
  run l (reads ∷ cs) = read l ∷ run l cs

  -- The specification: nothing, or the one value that was ever given.
  unfoldable pub once_run : Option T → List (Call T) → List (InitResult T)
  once_run none [] = []
  once_run none (inits v ∷ cs) = ok v ∷ once_run (some v) cs
  once_run none (reads ∷ cs) = err (record { state = uninit_state }) ∷ once_run none cs
  once_run (some w) [] = []
  once_run (some w) (inits v ∷ cs) = err (record { state = initialised }) ∷ once_run (some w) cs
  once_run (some w) (reads ∷ cs) = ok w ∷ once_run (some w) cs

  -- The state of an `InitLater` between calls.
  abbrev pub holding : Option T → InitLater T
  holding none = record { cell = none; state = uninit_state }
  holding (some v) = record { cell = some v; state = initialised }

  run-once : (o : Option T) (cs : List (Call T)) → run (holding o) cs ≡ once_run o cs
  unfolding run once_run init read
  run-once none [] = refl
  run-once none (inits v ∷ cs) = ground (arith, run-once (some v) cs)
  run-once none (reads ∷ cs) = ground (arith, run-once none cs)
  run-once (some w) [] = refl
  run-once (some w) (inits v ∷ cs) = ground (arith, run-once (some w) cs)
  run-once (some w) (reads ∷ cs) = ground (arith, run-once (some w) cs)

  -- Any sequence of `init` and `read` calls on a fresh `InitLater` returns what a write-once cell
  -- returns: the first `init` succeeds, every later one fails in the initialised state, a `read`
  -- fails before the first `init` and returns its value afterwards.
  pub run_refines : (cs : List (Call T)) → run uninit cs ≡ once_run none cs
  unfolding uninit
  run_refines cs = run-once none cs
