-- ===== src/Seeder/Passed.antt =====
-- What was built and checked when seeder returns without an error.
use Prim.Native.String.{String}
use sunflower.Common.{
  if◌then◌else◌, ℕ, ◌≡◌, refl, ap, ◌∙◌, Bool, true, false, ◌&&◌, List, [], ◌∷◌, arith,
}
use sunflower.Common.Outcome.{pure, raise, crash, ◌>>=◌, ◌>>◌, bound_ok, ok}
use sunflower.Seeder.{
  RunCommand, build, clippy, test, is_build, ArgMatches, Action, cargo, install_bootimage,
  write_floppy_img, copy_image, qemu, warned, Host, Op, note, status, exit_ok, features, try_run,
  retry_build, create_floppy, image_path, run_command, warn_unneeded_arg, run_dirs, dirs,
  run_alldirs,
}

module _ (host : Host) where
  abbrev if_passed :
      Bool → RunCommand × String → List (RunCommand × String) → List (RunCommand × String)
  if_passed done r rs = if done then r ∷ rs else rs

  -- The runs of cargo in a history that started and exited without an error, the latest first.
  abbrev pub passed : List Action → List (RunCommand × String)
  passed [] = []
  passed (cargo cmd dir fs ∷ h) =
      if_passed (host.starts h (cargo cmd dir fs) && host.exits_ok h (cargo cmd dir fs)) (cmd, dir)
        (passed h)
  passed (install_bootimage ∷ h) = passed h
  passed (write_floppy_img ∷ h) = passed h
  passed (copy_image p ∷ h) = passed h
  passed (qemu a m ∷ h) = passed h
  passed (warned a ∷ h) = passed h

  in_dir :
      (b : Bool) (cmd : RunCommand) (dir : String) (fs : List String) (h : List Action)
      (done : Bool)
      → let o = (if b then exit_ok host (cargo cmd dir fs) else crash) h in
        o.0 ≡ ok done → passed o.1 ≡ if_passed done (cmd, dir) (passed h)
  unfolding exit_ok
  in_dir true cmd dir fs h done e =
      let a = cargo cmd dir fs in
      let same : (host.starts h a && host.exits_ok h a) ≡ done = cc in
      ap (λ b. if_passed b (cmd, dir) (passed h)) same
  in_dir false cmd dir fs h done e = absurd (ground (arith, e))

  try_run-passed :
      (cmd : RunCommand) (dir : String) (args : ArgMatches) (h : List Action) (done : Bool)
      → (try_run host cmd dir args h).0 ≡ ok done
      → passed (try_run host cmd dir args h).1 ≡ if_passed done (cmd, dir) (passed h)
  unfolding try_run
  try_run-passed cmd dir args h done e =
      in_dir (host.dir_exists dir) cmd dir (features host args) h done e

  settled :
      (b : Bool) (code : ℕ) (r : RunCommand × String) (h h' : List Action)
      → passed h' ≡ if_passed b r (passed h)
      → let o : Op (Unit {0}) = if b then pure tt else raise code in
        (o h').0 ≡ ok tt → passed (o h').1 ≡ r ∷ passed h
  settled true code r h h' p e = p
  settled false code r h h' p e = absurd (ground (arith, e))

  create_floppy-passed :
      (h : List Action)
      → (create_floppy host h).0 ≡ ok tt
      → passed (create_floppy host h).1 ≡ passed h
  unfolding status
  create_floppy-passed h e = ground arith

  installed :
      (b : Bool) (cmd : RunCommand) (dir : String) (args : ArgMatches) (h : List Action)
      → let o : Op (Unit {0}) =
          if b
          then (try_run host cmd dir args >>= (λ built. if built then pure tt else raise 2))
          else raise 1 in
        (o h).0 ≡ ok tt → passed (o h).1 ≡ (cmd, dir) ∷ passed h
  installed true cmd dir args h e =
      let r = try_run host cmd dir args h in
      bound_ok (λ h'. passed h' ≡ (cmd, dir) ∷ passed h) r.0 _ r.1 tt e
        (λ built d e'. settled built 2 (cmd, dir) h r.1 (try_run-passed cmd dir args h built d) e')
  installed false cmd dir args h e = absurd (ground (arith, e))

  retry_build-passed :
      (cmd : RunCommand) (dir : String) (args : ArgMatches) (h : List Action)
      → (retry_build host cmd dir args h).0 ≡ ok tt
      → passed (retry_build host cmd dir args h).1 ≡ (cmd, dir) ∷ passed h
  unfolding status
  retry_build-passed cmd dir args h e =
      installed (host.starts h install_bootimage) cmd dir args (install_bootimage ∷ h) e

  abbrev tried_again : RunCommand → String → ArgMatches → Bool → Op (Unit {0})
  tried_again cmd dir args done =
      if done then pure tt else if is_build cmd then retry_build host cmd dir args else raise 6

  tried_again-passed :
      (cmd : RunCommand) (dir : String) (args : ArgMatches) (h h' : List Action) (done : Bool)
      → passed h' ≡ if_passed done (cmd, dir) (passed h)
      → (tried_again cmd dir args done h').0 ≡ ok tt
      → passed (tried_again cmd dir args done h').1 ≡ (cmd, dir) ∷ passed h
  tried_again-passed cmd dir args h h' true p e = p
  tried_again-passed build dir args h h' false p e =
      retry_build-passed build dir args h' e ∙ ap (◌∷◌ (build, dir)) p
  tried_again-passed clippy dir args h h' false p e = absurd (ground (arith, e))
  tried_again-passed test dir args h h' false p e = absurd (ground (arith, e))

  copied :
      (b : Bool) (path : String) (h : List Action)
      → let o : Op (Unit {0}) = if b then note (copy_image path) else pure tt in
        passed (o h).1 ≡ passed h
  copied true path h = refl
  copied false path h = refl

  pub run_command-passed :
      (cmd : RunCommand) (dir : String) (args : ArgMatches) (h : List Action)
      → (run_command host cmd dir args h).0 ≡ ok tt
      → passed (run_command host cmd dir args h).1 ≡ (cmd, dir) ∷ passed h
  unfolding run_command
  run_command-passed cmd dir args h e =
      let P = λ (h' : List Action). passed h' ≡ (cmd, dir) ∷ passed h in
      let r = try_run host cmd dir args h in
      bound_ok P r.0 _ r.1 tt e (λ done d e₁.
        let t = tried_again cmd dir args done r.1 in
        bound_ok P t.0 _ t.1 tt e₁ (λ _ d₁ e₂.
          let c = create_floppy host t.1 in
          bound_ok P c.0 _ c.1 tt e₂ (λ _ d₂ e₃.
            copied (is_build cmd) (image_path host args.path) c.1
            ∙ create_floppy-passed t.1 d₂
            ∙ tried_again-passed cmd dir args h r.1 done (try_run-passed cmd dir args h done d)
                d₁)))

  -- A warning changes nothing.
  Passes : (List (RunCommand × String) → List (RunCommand × String)) → Op (Unit {0}) → Type 0
  Passes rs k = (h : List Action) → (k h).0 ≡ ok tt → passed (k h).1 ≡ rs (passed h)

  warned_then :
      (flag : Bool) (arg : String) (rs : List (RunCommand × String) → List (RunCommand × String))
      (k : Op (Unit {0}))
      → Passes rs k
      → Passes rs (warn_unneeded_arg host flag arg >> k)
  unfolding Passes
  warned_then true arg rs k p h e = p (warned arg ∷ h) e
  warned_then false arg rs k p h e = p h e

  -- The runs of a command in a list of directories, the latest first.
  abbrev pub runs_in :
      RunCommand → List String → List (RunCommand × String) → List (RunCommand × String)
  runs_in cmd [] before = before
  runs_in cmd (dir ∷ dirs) before = runs_in cmd dirs ((cmd, dir) ∷ before)

  run_dirs-passed :
      (cmd : RunCommand) (args : ArgMatches) (dirs : List String) (h : List Action)
      → (run_dirs host cmd args dirs h).0 ≡ ok tt
      → passed (run_dirs host cmd args dirs h).1 ≡ runs_in cmd dirs (passed h)
  unfolding run_dirs
  run_dirs-passed cmd args [] h e = refl
  run_dirs-passed cmd args (dir ∷ dirs) h e =
      let r = run_command host cmd dir args h in
      bound_ok (λ h'. passed h' ≡ runs_in cmd dirs ((cmd, dir) ∷ passed h)) r.0 _ r.1 tt e
        (λ _ d e'.
          run_dirs-passed cmd args dirs r.1 e'
          ∙ ap (runs_in cmd dirs) (run_command-passed cmd dir args h d))

  build_then_dirs :
      (cmd : RunCommand) (args : ArgMatches)
      → Passes
          (λ before. runs_in cmd (dirs host) ((build, "./kernel") ∷ before))
          (run_command host build "./kernel" args >> run_dirs host cmd args (dirs host))
  unfolding Passes
  build_then_dirs cmd args h e =
      let r = run_command host build "./kernel" args h in
      let rs = λ (before : List (RunCommand × String)).
        runs_in cmd (dirs host) ((build, "./kernel") ∷ before) in
      bound_ok (λ h'. passed h' ≡ rs (passed h)) r.0 _ r.1 tt e
        (λ _ d e'.
          run_dirs-passed cmd args (dirs host) r.1 e'
          ∙ ap (runs_in cmd (dirs host)) (run_command-passed build "./kernel" args h d))

  -- Where the tests or the lints return without an exit code, cargo has built the kernel and then run
  -- the command in `seeder`, `libutil`, `libfs` and `kernel`, in this order, each without an error,
  -- and no other run of it has succeeded.
  pub run_alldirs-passed :
      (cmd : RunCommand) (args : ArgMatches) (h : List Action)
      → (run_alldirs host cmd args h).0 ≡ ok tt
      → passed (run_alldirs host cmd args h).1
        ≡ (cmd, "kernel")
          ∷ (cmd, "libfs")
          ∷ (cmd, "libutil")
          ∷ (cmd, "seeder")
          ∷ (build, "./kernel")
          ∷ passed h
  unfolding run_alldirs Passes
  run_alldirs-passed cmd args h e =
      let rs = λ (before : List (RunCommand × String)).
        runs_in cmd (dirs host) ((build, "./kernel") ∷ before) in
      warned_then args.debug "debug" rs _
        (warned_then args.noenter "noenter" rs _ (
          warned_then args.pipewire "pipewire" rs _ (
            warned_then args.pulseaudio "pulseaudio" rs _
              (warned_then args.nosound "nosound" rs _ (build_then_dirs cmd args)))))
        h e
