-- ===== src/Sync/Tests.antt =====
-- Tests and instances for the types of libutil/src/sync.rs.
use sunflower.Common.{ℕ, ◌≡◌, refl, true, false, none, List, [], ◌∷◌}
use sunflower.Sync.Exclusive.{compare_exchange}
use sunflower.Sync.Exclusive.Threads.{
  outside, inside, System, Step, enter, here, next, mutual_exclusion,
}
use sunflower.Sync.InitLater.{uninit}
use sunflower.Sync.InitLater.Laws.{Call, inits, reads, run, once_run, run_refines}

abbrev calls : List (Call ℕ)
calls = reads ∷ inits 0x42 ∷ inits 0x43 ∷ reads ∷ []

run_refines_example : run uninit calls ≡ once_run none calls
run_refines_example = run_refines calls

abbrev two_contexts : System ℕ
two_contexts = record {
  shared = record { cell = 7; access = false };
  places = outside ∷ outside ∷ [];
}

abbrev one_entered : System ℕ
one_entered = record { shared = record { cell = 7; access = true }; places = inside ∷ outside ∷ [] }

enter_first : Step two_contexts one_entered
unfolding compare_exchange
enter_first = enter 0 refl refl refl

mutual_exclusion_example :
    (◌≡◌ {A = ℕ} 0 0) × (compare_exchange one_entered.shared ≡ (false, one_entered.shared))
mutual_exclusion_example =
    mutual_exclusion {T = ℕ} {s = two_contexts} {t = one_entered} 0 0 refl refl
      (next here enter_first) refl refl
