-- ===== src/Kernel/ContAccess/Nesting.antt =====
-- Which programs may use a `ContAccess`.
use mathlib.Core.Bool.{true≢false}
use sunflower.Common.{
  ◌==◌, if◌then◌else◌, Bool-cases, ◌≡◌, refl, sym, ap, subst, ◌∙◌, inl, inr, Bool, true, false, not,
  arith,
}
use sunflower.Common.Outcome.{Outcome, pure, ◌>>◌, modify, ok, panic}
use sunflower.Kernel.ContAccess.{ContAccess, Use, check_access, btemap, write, copy}

-- Code that uses one: in sequence, and inside the closure of a `btemap`, where it may also change
-- the value through the reference that it was given.
pub data Prog (T : Type 0) : Type 0 where
  done : Prog T
  copies : Prog T → Prog T
  writes : T → Prog T → Prog T
  maps : (T → T) → Prog T → Prog T → Prog T

module _ {T : Type 0} where
  unfoldable pub run_prog : Prog T → Use T (Unit {0})
  unfolding btemap write copy
  run_prog done = pure tt
  run_prog (copies p) = copy >> run_prog p
  run_prog (writes v p) = write v >> run_prog p
  run_prog (maps f inner p) =
      btemap (modify (λ ca. record ca { data_cell = f ca.data_cell }) >> run_prog inner)
      >> run_prog p

  -- A program that uses nothing.
  abbrev pub idle : Prog T → Bool
  idle done = true
  idle (copies p) = false
  idle (writes v p) = false
  idle (maps f inner p) = false

  -- No use inside the closure of a `btemap`.
  abbrev pub is_flat : Prog T → Bool
  is_flat done = true
  is_flat (copies p) = is_flat p
  is_flat (writes v p) = is_flat p
  is_flat (maps f inner p) = if idle inner then is_flat p else false

  -- What a flat program makes of the value.
  abbrev pub value : Prog T → T → T
  value done v = v
  value (copies p) v = value p v
  value (writes w p) v = value p w
  value (maps f inner p) v = value p (f v)

  -- Whether a use of the value is a bad access.
  abbrev pub busy : ContAccess T → Bool
  busy ca = if ca.locked then true else not (ca.int_depth == 0)

  run_prog-busy :
      (p : Prog T) (ca : ContAccess T) → busy ca ≡ true → idle p ≡ false → (run_prog p ca).0 ≡ panic
  unfolding run_prog check_access btemap write copy
  run_prog-busy done ca h k = absurd (true≢false k)
  run_prog-busy (copies p) ca h k = ground arith
  run_prog-busy (writes v p) ca h k = ground arith
  run_prog-busy (maps f inner p) ca h k = ground arith

  run_prog-idle : (p : Prog T) (ca : ContAccess T) → idle p ≡ true → run_prog p ca ≡ (ok tt, ca)
  unfolding run_prog
  run_prog-idle done ca h = refl
  run_prog-idle (copies p) ca h = absurd (true≢false (sym h))
  run_prog-idle (writes v p) ca h = absurd (true≢false (sym h))
  run_prog-idle (maps f inner p) ca h = absurd (true≢false (sym h))

  run_prog-copies :
      (p : Prog T) (ca : ContAccess T) → busy ca ≡ false → run_prog (copies p) ca ≡ run_prog p ca
  unfolding run_prog check_access copy
  run_prog-copies p ca h = ground arith

  run_prog-writes :
      (v : T) (p : Prog T) (ca : ContAccess T)
      → busy ca ≡ false
      → run_prog (writes v p) ca ≡ run_prog p (record ca { data_cell = v })
  unfolding run_prog check_access write
  run_prog-writes v p ca h = ground arith

  run_prog-maps :
      (f : T → T) (inner p : Prog T) (ca : ContAccess T)
      → busy ca ≡ false
      → idle inner ≡ true
      → run_prog (maps f inner p) ca ≡ run_prog p (record ca { data_cell = f ca.data_cell })
  unfolding run_prog check_access btemap
  run_prog-maps f inner p ca h k =
      let calm = run_prog-idle inner (record ca { data_cell = f ca.data_cell; locked = true }) k in
      ground arith

  run_prog-maps_nested :
      (f : T → T) (inner p : Prog T) (ca : ContAccess T)
      → idle inner ≡ false
      → (run_prog (maps f inner p) ca).0 ≡ panic
  unfolding run_prog check_access btemap
  run_prog-maps_nested f inner p ca k =
      let bad =
        run_prog-busy inner (record ca { data_cell = f ca.data_cell; locked = true }) refl k in
      ground arith

  -- What is expected of a program: the value as it leaves it, or a panic if it is not flat.
  abbrev pub Behaves : Prog T → ContAccess T → Outcome ⊥ (Unit {0}) × ContAccess T → Type 0
  Behaves p ca r =
      (is_flat p ≡ true → r ≡ (ok tt, record ca { data_cell = value p ca.data_cell }))
      × (is_flat p ≡ false → r.0 ≡ panic)

  run_prog-Behaves :
      (p : Prog T) (ca : ContAccess T)
      → (busy ca ≡ false → Behaves p ca (run_prog p ca))
        × (busy ca ≡ true → idle p ≡ false → (run_prog p ca).0 ≡ panic)
  run_prog-Behaves done ca =
      ((λ h. ((λ k. unfold run_prog in refl), (λ k. absurd (true≢false k)))), run_prog-busy done ca)
  run_prog-Behaves (copies p) ca = (
    (λ h.
        subst (Behaves (copies p) ca) (sym (run_prog-copies p ca h)) ((run_prog-Behaves p ca).0 h)),
    run_prog-busy (copies p) ca,
  )
  run_prog-Behaves (writes v p) ca = (
    (λ h.
        subst (Behaves (writes v p) ca) (sym (run_prog-writes v p ca h))
          ((run_prog-Behaves p (record ca { data_cell = v })).0 h)),
    run_prog-busy (writes v p) ca,
  )
  run_prog-Behaves (maps f inner p) ca = (
    (λ h. elim (Bool-cases (idle inner)) [
      | inl k ↦
          subst (Behaves (maps f inner p) ca) (sym (run_prog-maps f inner p ca h k))
            (rw k ((run_prog-Behaves p (record ca { data_cell = f ca.data_cell })).0 h))
      | inr k ↦ (
        (λ flat. absurd (true≢false (sym flat ∙ ap (λ b. if b then is_flat p else false) k))),
        (λ _. run_prog-maps_nested f inner p ca k),
      )
    ]),
    run_prog-busy (maps f inner p) ca,
  )

  -- How a program ends.
  abbrev pub ending : Prog T → ContAccess T → Outcome ⊥ (Unit {0})
  ending p ca =
      if busy ca then (if idle p then ok tt else panic) else if is_flat p then ok tt else panic

  -- Outside of interrupt handlers and of any `btemap`, a program of copies, writes and `btemap`s runs
  -- to its end exactly if no closure of a `btemap` in it uses the value again, and panics otherwise.
  -- Inside an interrupt handler or a `btemap`, any use at all panics.
  pub run_prog_lem : (p : Prog T) (ca : ContAccess T) → (run_prog p ca).0 ≡ ending p ca
  run_prog_lem p ca = elim (Bool-cases (busy ca)) [
    | inl b ↦ elim (Bool-cases (idle p)) [
      | inl k ↦ rw (b, k, run_prog-idle p ca k) refl
      | inr k ↦ rw (b, k) (run_prog-busy p ca b k)
    ]
    | inr b ↦ elim (Bool-cases (is_flat p)) [
      | inl k ↦ rw (b, k, ((run_prog-Behaves p ca).0 b).0 k) refl
      | inr k ↦ rw (b, k) (((run_prog-Behaves p ca).0 b).1 k)
    ]
  ]

  -- Outside of interrupt handlers and of any `btemap`, a program in which no closure uses the value
  -- again leaves the value that its parts make of it, in order, and the lock and the depth as they
  -- were.
  pub run_prog-value :
      (p : Prog T) (ca : ContAccess T)
      → busy ca ≡ false
      → is_flat p ≡ true
      → run_prog p ca ≡ (ok tt, record ca { data_cell = value p ca.data_cell })
  run_prog-value p ca free flat = ((run_prog-Behaves p ca).0 free).0 flat
