-- ===== src/Seeder/Tests.antt =====
-- An instance of the theorem about the build tool.
use sunflower.Common.{◌≡◌, refl, Bool, true, false, none, List, [], ◌∷◌}
use sunflower.Common.Outcome.{ok}
use sunflower.Seeder.{
  build, clippy, ArgMatches, Action, cargo, install_bootimage, Host, run_alldirs,
}
use sunflower.Seeder.Passed.{passed, run_alldirs-passed}

abbrev flags : ArgMatches
flags = record {
  debug = true;
  noenter = false;
  path = none;
  pipewire = false;
  pulseaudio = false;
  nosound = true;
}

-- Bootimage is missing at first, and so is the floppy's image.
abbrev installed : List Action → Bool
installed [] = false
installed (install_bootimage ∷ h) = true
installed (cargo cmd dir fs ∷ h) = installed h
installed (a ∷ h) = installed h

abbrev host : Host
host = record {
  starts = λ h a. true;
  exits_ok = λ h a. installed h;
  dir_exists = λ dir. true;
  has_floppy = λ h. false;
}

clippy_done : (run_alldirs host clippy flags []).0 ≡ ok tt
unfolding run_alldirs
clippy_done = refl

run_alldirs_example :
    passed host (run_alldirs host clippy flags []).1
    ≡ (clippy, "kernel")
      ∷ (clippy, "libfs")
      ∷ (clippy, "libutil")
      ∷ (clippy, "seeder")
      ∷ (build, "./kernel")
      ∷ []
run_alldirs_example = run_alldirs-passed host clippy flags [] clippy_done
