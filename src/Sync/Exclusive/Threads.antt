-- ===== src/Sync/Exclusive/Threads.antt =====
-- Contexts (the main code and interrupt handlers) that share one `ExclusiveMap`: each step is one
-- atomic part of a call of `map`.
use sunflower.Common.{
  get_elem?, set, ℕ, zero, suc, ◌+◌, ◌<◌, ◌≡◌, refl, ap, ◌≢◌, true, false, some, List, [], ◌∷◌,
  arith, ℕ_discrete,
}
use sunflower.Sync.Exclusive.{ExclusiveMap, compare_exchange, run_closure, release}

-- Whether a context stands outside `map` or inside the closure it passed.
pub data Place : Type 0 where
  outside inside : Place

-- The map, and where each context stands.
pub record System (T : Type 0) : Type 0 where
  pub shared : ExclusiveMap T
  pub places : List Place

abbrev pub weight : Place → ℕ
weight outside = 0
weight inside = 1

abbrev pub count_inside : List Place → ℕ
count_inside [] = 0
count_inside (p ∷ ps) = weight p + count_inside ps

pub data Step {T : Type 0} (s t : System T) : Type 0 where
  enter :
      (i : ℕ)
      → get_elem? s.places i ≡ some outside
      → (compare_exchange s.shared).0 ≡ true
      → t ≡ record { shared = (compare_exchange s.shared).1; places = set s.places i inside }
      → Step s t
  refuse :
      (i : ℕ)
      → get_elem? s.places i ≡ some outside
      → (compare_exchange s.shared).0 ≡ false
      → t ≡ record s { shared = (compare_exchange s.shared).1 }
      → Step s t
  leave :
      (i : ℕ) (f : T → T)
      → get_elem? s.places i ≡ some inside
      → t ≡ record {
        shared = release (run_closure {0, 0} (λ v. (tt, f v)) s.shared).1;
        places = set s.places i outside;
      }
      → Step s t

pub data Reach {T : Type 0} (s : System T) : System T → Type 0 where
  here : Reach s s
  next : {t u : System T} → Reach s t → Step t u → Reach s u

-- Nobody is inside a map that is free, and one context is inside one that is taken.
pub record IsExclusive {T : Type 0} (s : System T) : Type 0 where
  pub free : s.shared.access ≡ false → count_inside s.places ≡ 0
  pub taken : s.shared.access ≡ true → count_inside s.places ≡ 1

count_inside-set :
    (ps : List Place) (i : ℕ) (p q : Place)
    → get_elem? ps i ≡ some p
    → count_inside (set ps i q) + weight p ≡ count_inside ps + weight q
count_inside-set [] i p q h = cc
count_inside-set (x ∷ ps) zero p q h = ground arith
count_inside-set (x ∷ ps) (suc i) p q h = omega (arith, count_inside-set ps i p q h)

count_inside-pos : (ps : List Place) (i : ℕ) → get_elem? ps i ≡ some inside → 0 < count_inside ps
count_inside-pos [] i h = cc
count_inside-pos (x ∷ ps) zero h = ground arith
count_inside-pos (x ∷ ps) (suc i) h = omega (arith, count_inside-pos ps i h)

count_inside_two :
    (ps : List Place) (i j : ℕ)
    → i ≢ j
    → get_elem? ps i ≡ some inside
    → get_elem? ps j ≡ some inside
    → 1 < count_inside ps
count_inside_two [] i j ne hi hj = cc
count_inside_two (x ∷ ps) zero zero ne hi hj = absurd (ne refl)
count_inside_two (x ∷ ps) zero (suc j) ne hi hj = ground (arith, count_inside-pos ps j hj)
count_inside_two (x ∷ ps) (suc i) zero ne hi hj = ground (arith, count_inside-pos ps i hi)
count_inside_two (x ∷ ps) (suc i) (suc j) ne hi hj =
    omega (arith, count_inside_two ps i j (λ e. ne (ap suc e)) hi hj)

Step-IsExclusive : {T : Type 0} {s t : System T} → Step s t → IsExclusive s → IsExclusive t
unfolding compare_exchange run_closure release
Step-IsExclusive {s = s} (enter i at took e) v =
    ground (arith, count_inside-set s.places i outside inside at)
Step-IsExclusive (refuse i at took e) v = ground arith
Step-IsExclusive {s = s} (leave i f at e) v =
    ground (arith, count_inside-set s.places i inside outside at, count_inside-pos s.places i at)

Reach-IsExclusive : {T : Type 0} {s t : System T} → IsExclusive s → Reach s t → IsExclusive t
Reach-IsExclusive v here = v
Reach-IsExclusive v (next r st) = Step-IsExclusive st (Reach-IsExclusive v r)

-- However the calls of `map` in any number of contexts interleave, from a free map with every
-- context outside, at most one context is inside its closure, and while one is, the map is taken,
-- so that the exchange of every other call fails.
pub mutual_exclusion :
    {T : Type 0} {s t : System T} (i j : ℕ)
    → s.shared.access ≡ false
    → count_inside s.places ≡ 0
    → Reach s t
    → get_elem? t.places i ≡ some inside
    → get_elem? t.places j ≡ some inside
    → (i ≡ j) × (compare_exchange t.shared ≡ (false, t.shared))
unfolding compare_exchange
mutual_exclusion {s = s} {t = t} i j free none_inside r hi hj =
    let v = Reach-IsExclusive (record { free = λ _. none_inside; taken = λ e. cc }) r in
    let pos = count_inside-pos t.places i hi in (same v hj, ground arith)
  where
    same : IsExclusive t → get_elem? t.places j ≡ some inside → i ≡ j
    same v hj = elim (ℕ_discrete i j) [
      | yes e ↦ e
      | no ne ↦ absurd (ground (arith, count_inside_two t.places i j ne hi hj))
    ]
