-- ===== src/Seeder.antt =====
-- seeder/src/main.rs and seeder/src/cmd.rs, the build tool. What it runs, in which directory and with
-- which arguments, is a list of actions; whether they start and succeed is an argument, which may
-- depend on everything done before. `process::exit` is an error with the exit code. What is printed
-- is left out but for the warnings about arguments, and so is clap, which parses the arguments.
pub mod Passed
mod Tests
use Prim.Native.String.{String}
use sunflower.Common.{
  if◌then◌else◌, ℕ, Bool, true, false, ◌&&◌, ◌||◌, Option, none, some, List, [], ◌∷◌,
}
use sunflower.Common.Outcome.{Exec, pure, raise, crash, ◌>>=◌, ◌>>◌, modify, gets, ok}

pub data RunCommand : Type 0 where
  build clippy test : RunCommand

unfoldable pub as_str : RunCommand → String
as_str build = "bootimage"
as_str clippy = "paperclip"
as_str test = "did-i-break-anything"

abbrev pub is_build : RunCommand → Bool
is_build build = true
is_build clippy = false
is_build test = false

-- The flags, and the path of the image.
pub record ArgMatches : Type 0 where
  pub debug : Bool
  pub noenter : Bool
  pub path : Option String
  pub pipewire : Bool
  pub pulseaudio : Bool
  pub nosound : Bool

pub data Action : Type 0 where
  -- Cargo: the command, the directory, and the arguments for features.
  cargo : RunCommand → String → List String → Action
  install_bootimage : Action
  write_floppy_img : Action
  copy_image : String → Action
  -- QEMU: the audio driver, and whether its monitor is on.
  qemu : String → Bool → Action
  warned : String → Action

-- The latest action first in a history: whether a program can be started, whether it exits without
-- an error, whether a directory is there, and whether floppy.img can be opened.
pub record Host : Type 0 where
  pub starts : List Action → Action → Bool
  pub exits_ok : List Action → Action → Bool
  pub dir_exists : String → Bool
  pub has_floppy : List Action → Bool

abbrev pub Op : Type 0 → Type 0
Op A = Exec (List Action) ℕ A

abbrev pub copied_kernel_img : String
copied_kernel_img = "sunflower.bin"

abbrev pub note : Action → Op (Unit {0})
note a = modify (◌∷◌ a)

module _ (host : Host) where
  -- `status()`, which fails if the program cannot be started.
  unfoldable pub status : Action → Op Bool
  status a h = (ok (host.starts h a), a ∷ h)

  -- `status()?.exit_ok()`
  unfoldable pub exit_ok : Action → Op Bool
  exit_ok a h = (ok (host.starts h a && host.exits_ok h a), a ∷ h)

  unfoldable pub features : ArgMatches → List String
  features args =
      if args.debug && args.noenter
      then "-F" ∷ "debug_info" ∷ "disable_enter" ∷ []
      else if args.debug
      then "-F" ∷ "debug_info" ∷ []
      else if args.noenter
      then "-F" ∷ "disable_enter" ∷ []
      else []

  -- A directory that is not there is a panic.
  unfoldable pub try_run : RunCommand → String → ArgMatches → Op Bool
  unfolding exit_ok
  try_run cmd dir args =
      if host.dir_exists dir then exit_ok (cargo cmd dir (features args)) else crash

  abbrev pub retry_build : RunCommand → String → ArgMatches → Op (Unit {0})
  retry_build cmd dir args = status install_bootimage >>= (λ started.
      if started
      then (try_run cmd dir args >>= (λ built. if built then pure tt else raise 2))
      else raise 1)

  abbrev pub create_floppy : Op (Unit {0})
  create_floppy = gets host.has_floppy >>= (λ there.
      if there
      then pure tt
      else (status write_floppy_img >>= (λ done. if done then pure tt else raise 3)))

  abbrev pub image_path : Option String → String
  image_path none = copied_kernel_img
  image_path (some path) = path

  -- A copy that fails is a warning.
  unfoldable pub run_command : RunCommand → String → ArgMatches → Op (Unit {0})
  unfolding try_run status
  run_command cmd dir args = try_run cmd dir args >>= (λ done.
      (if done then pure tt else if is_build cmd then retry_build cmd dir args else raise 6)
      >> (create_floppy
          >> (if is_build cmd then note (copy_image (image_path args.path)) else pure tt)))

  abbrev pub warn_unneeded_arg : Bool → String → Op (Unit {0})
  warn_unneeded_arg flag arg = if flag then note (warned arg) else pure tt

  unfoldable pub build_kernel : ArgMatches → Op (Unit {0})
  unfolding run_command
  build_kernel args = do
    warn_unneeded_arg args.pipewire "pipewire"
    warn_unneeded_arg args.pulseaudio "pulseaudio"
    warn_unneeded_arg args.nosound "nosound"
    run_command build "./kernel" args

  abbrev pub audio : ArgMatches → String
  audio args = if args.pipewire then "pipewire" else if args.pulseaudio then "pa" else "none"

  abbrev pub several_audio : ArgMatches → Bool
  several_audio args =
      args.pipewire && args.pulseaudio
      || args.pipewire && args.nosound
      || args.pulseaudio && args.nosound

  unfoldable pub run : ArgMatches → Op (Unit {0})
  unfolding run_command
  run args =
      if several_audio args
      then raise 4
      else (run_command build "./kernel" args
          >> (status (qemu (audio args) args.debug)
              >>= (λ started. if started then pure tt else raise 5)))

  unfoldable pub run_dirs : RunCommand → ArgMatches → List String → Op (Unit {0})
  unfolding run_command
  run_dirs cmd args [] = pure tt
  run_dirs cmd args (dir ∷ dirs) = run_command cmd dir args >> run_dirs cmd args dirs

  abbrev pub dirs : List String
  dirs = "seeder" ∷ "libutil" ∷ "libfs" ∷ "kernel" ∷ []

  unfoldable pub run_alldirs : RunCommand → ArgMatches → Op (Unit {0})
  unfolding run_command run_dirs
  run_alldirs cmd args = do
    warn_unneeded_arg args.debug "debug"
    warn_unneeded_arg args.noenter "noenter"
    warn_unneeded_arg args.pipewire "pipewire"
    warn_unneeded_arg args.pulseaudio "pulseaudio"
    warn_unneeded_arg args.nosound "nosound"
    run_command build "./kernel" args
    run_dirs cmd args dirs

  -- The arguments `-d -n`.
  abbrev pub dbg_args : ArgMatches
  dbg_args = record {
    debug = true;
    noenter = false;
    path = none;
    pipewire = false;
    pulseaudio = false;
    nosound = true;
  }

pub data Subcommand : Type 0 where
  no_command build_command run_subcommand test_command clippy_command dbg_command : Subcommand

module _ (host : Host) where
  unfoldable pub main : Subcommand → ArgMatches → Op (Unit {0})
  unfolding build_kernel run run_alldirs
  main no_command args = pure tt
  main build_command args = build_kernel host args
  main run_subcommand args = run host args
  main test_command args = run_alldirs host test args
  main clippy_command args = run_alldirs host clippy args
  main dbg_command args = run host (dbg_args host)
