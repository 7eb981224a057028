-- ===== src/Floppy/Tests.antt =====
-- Instances of the theorems about the floppy driver.
use sunflower.Fs.Inode.{zeroed}
use sunflower.Fs.Bitmap.{fresh_bitmap}
use sunflower.Common.Outcome.{Outcome, pure, ok, err}
use sunflower.Floppy.FloppyFs.{
  InitError, corrupt_drive, FsState, good_fs_header, bytes_eq, init_floppyfs,
}
use sunflower.Floppy.FloppyFs.Format.{zeros, formatted, statics, image_drive, init_floppyfs-format}
use sunflower.Fs.Header.{from_raw, magic_number}
use sunflower.Fs.Header.Layout.{IsSized}
use sunflower.Floppy.Start.{new, init}
use sunflower.Floppy.Sends.{IsPrompt, IsAwake, Sent}
use sunflower.Floppy.Sends.Ready.{send_command-Sent, write_bytes-Sent}
use sunflower.Floppy.Command.{seek_command, send_command, init_fdc}
use sunflower.Floppy.Receives.{Received, read_bytes-Received}
use sunflower.Floppy.Disk.{read_bytes, write_bytes, check_transfer, wait_for_rqm}
use sunflower.Floppy.Motor.{
  motor_disabling, motor_off, disable_command, motor_timeout, enable_motor, disable_motor,
  decrease_motor_time,
}
use sunflower.Floppy.Fifo.{send_byte}
use sunflower.Floppy.Disk
use sunflower.Floppy.Machine.{sectors, sector_size, wrote, World, Machine, writeb, readb}
use sunflower.Floppy.Protocol.{Orderly}
use sunflower.Floppy.Protocol.Boot.{read_call, tick, booted, boot_run}
use sunflower.Floppy.Protocol.Boot.Whole.{boot_run-Orderly}
use sunflower.Common.{
  ◌==◌, if◌then◌else◌, length, get_elem?, take, drop, replicate, length-replicate, ℕ, ◌+◌, ◌-◌, ◌*◌,
  ◌^◌, ◌≤◌, ◌≡◌, refl, true, false, none, some, List, [], ◌∷◌, arith,
}
use sunflower.Floppy.Motor.Laws.{ticks, disable_motor-ticks}
use sunflower.Floppy.Disk.Address.{transfer_spec, check_transfer_lem}
use sunflower.Floppy.Disk.Wait.{IsRunning, Answered, wait_for_rqm-Answered}
use sunflower.Floppy.Chunks.{requests, read, write}
use sunflower.Floppy.Chunks.Cover.{Covers, requests-Covers}
use sunflower.Floppy.Chunks.Image.{image_read, part, read-part, third, recorder, write-stray}

check_transfer_example : check_transfer 40 10 ≡ transfer_spec 40 10
check_transfer_example = check_transfer_lem 40 10 (omega arith) (omega arith)

-- A controller that never answers, with a clock that ticks at every access.
abbrev silent : World
silent = record { answer = λ a port. 0; clock = length }

abbrev started : Machine
started = record {
  accesses = [];
  base_offset = some 0x3F0;
  floppy_space = some 1440;
  drive_one = false;
  motor_state = motor_off;
  motor_time_left = 0;
  pit_init = true;
  floppy_init = true;
  bytes_read = 0;
  bytes_written = 0;
}

silent-IsRunning : IsRunning silent 1
silent-IsRunning a = omega arith

wait_for_rqm_example : Answered (wait_for_rqm silent 100 0 started).0
wait_for_rqm_example =
    wait_for_rqm-Answered silent 1 100 0 silent-IsRunning started 0x3F0 refl (omega arith)

disable_motor-ticks_example :
    (ticks 20 (disable_motor started)
      ≡ record started { motor_time_left = motor_timeout - 20; motor_state = motor_disabling })
    × (ticks (motor_timeout + 1) (disable_motor started) ≡ record started {
      accesses =
          wrote (2 + 0x3F0) (disable_command started.drive_one) ∷ wrote 0x80 0 ∷ started.accesses;
      motor_time_left = 2 ^ 16 - 1;
      motor_state = motor_off;
    })
disable_motor-ticks_example = disable_motor-ticks started 0x3F0 20 refl (omega arith)

requests-Covers_example : Covers 1 35 (requests sectors 1 (35 * sector_size))
requests-Covers_example = requests-Covers 1 35 (omega arith) (omega arith) (omega arith)

abbrev image : List ℕ
image = replicate 9216 7

read-part_example :
    read {S = ℕ} {E = ⊥} (image_read image) 1 (17 * sector_size) 0 ≡ (ok (part image 1 17), 0)
read-part_example = read-part {S = ℕ} {E = ⊥} image 0 1 17 (omega arith) (omega arith) (omega arith)

write-stray_example :
    let (r, disk) = write recorder 1 (replicate (40 * sector_size) 7) [] in
    (r ≡ ok tt)
    × (get_elem? disk 2
        ≡ some (
          9234,
          take
              (third 1 40 * sector_size)
              (drop ((2 * sectors - 1) * sector_size) (replicate (40 * sector_size) 7)),
        ))
    × (check_transfer 9234 (third 1 40) ≡ check_transfer 18 (third 1 40))
write-stray_example =
    write-stray 1 40 (replicate (40 * sector_size) 7)
      (length-replicate {A = ℕ} (40 * sector_size) 7) (omega arith) (omega arith) (omega arith)

-- A 1.44 MB drive whose controller never answers.
abbrev present : World
present = record { answer = λ a port. if port == 0x71 then 0x40 else 0; clock = length }

present_base :
    (boot_run present 20 1 (tick ∷ read_call 0 512 ∷ []) (booted false)).1.base_offset ≡ some 0x3F0
unfolding boot_run init writeb readb new enable_motor send_command send_byte init_fdc Disk.read
    decrease_motor_time
present_base = refl

boot_run-Orderly_example :
    Orderly present 0x3F0
      (boot_run present 20 1 (tick ∷ read_call 0 512 ∷ []) (booted false)).1.accesses
boot_run-Orderly_example =
    boot_run-Orderly present 20 1 false (tick ∷ read_call 0 512 ∷ []) 0x3F0 present_base

good_fs_header-IsSized : IsSized (good_fs_header 100 2026)
unfolding good_fs_header
good_fs_header-IsSized = record {
  magic_len = refl;
  release_fits = omega arith;
  features_fit = omega arith;
  name_sized = refl;
  size_fits = omega arith;
  reserved_len = length-replicate {A = ℕ} 472 0;
}

blank_room : 18432 ≤ length (zeros 18432)
blank_room = omega (arith, length-replicate {A = ℕ} 18432 0)

blank_unformatted : bytes_eq (from_raw (take 512 (zeros 18432))).magic magic_number ≡ false
unfolding bytes_eq from_raw
blank_unformatted = refl

init_floppyfs-format_example :
    let h = good_fs_header 100 2026 in
    let done : Outcome (InitError (Unit {0})) (Unit {0}) × FsState (List ℕ) =
      (ok tt, statics (zeroed ∷ []) fresh_bitmap (formatted h (zeros 18432)) true) in
    (init_floppyfs {E = Unit {0}} image_drive 100 2026 false
        (statics (zeroed ∷ []) fresh_bitmap (zeros 18432) false)
      ≡ (err corrupt_drive, statics (zeroed ∷ []) fresh_bitmap (zeros 18432) false))
    × (init_floppyfs {E = Unit {0}} image_drive 100 2026 true
          (statics (zeroed ∷ []) fresh_bitmap (zeros 18432) false)
        ≡ done)
    × (init_floppyfs {E = Unit {0}} image_drive 200 2030 false
          (statics (zeroed ∷ []) fresh_bitmap (formatted h (zeros 18432)) false)
        ≡ done)
init_floppyfs-format_example =
    init_floppyfs-format (zeros 18432) (zeroed ∷ []) fresh_bitmap false 100 2026
      good_fs_header-IsSized blank_room blank_unformatted 200 2030 false

-- A 1.44 MB drive whose controller always takes a byte.
abbrev willing : World
willing = record { answer = λ a port. 0x80; clock = length }

willing-IsPrompt : IsPrompt willing
willing-IsPrompt a = omega arith

started-IsAwake : IsAwake 0x3F0 (record started { motor_state = motor_disabling })
started-IsAwake = record { at_base = refl; awake = λ e. omega arith }

send_command-Sent_example :
    let m = record started { motor_state = motor_disabling } in
    Sent 0x3F0 m tt
      (15 ∷ 0 ∷ 40 ∷ [])
      (send_command willing 3 (pure tt) seek_command (0 ∷ 40 ∷ []) m)
send_command-Sent_example =
    send_command-Sent willing 0x3F0 2 (λ e. omega arith) (λ a. refl) willing-IsPrompt (pure tt)
      seek_command (0 ∷ 40 ∷ []) (record started { motor_state = motor_disabling }) started-IsAwake

write_bytes-Sent_example :
    let m = record started { motor_state = motor_disabling } in
    Sent 0x3F0 m none (1 ∷ 2 ∷ 3 ∷ []) (write_bytes willing 1 0 (1 ∷ 2 ∷ 3 ∷ []) m)
write_bytes-Sent_example =
    write_bytes-Sent willing 0x3F0 0 (λ e. omega arith) (λ a. refl) willing-IsPrompt 0
      (1 ∷ 2 ∷ 3 ∷ []) (record started { motor_state = motor_disabling }) started-IsAwake

-- A controller that always has a byte: how many accesses came before.
abbrev giving : World
giving = record { answer = λ a port. if port == 0x3F4 then 0xC0 else length a; clock = length }

giving-IsPrompt : IsPrompt giving
giving-IsPrompt a = omega arith

read_bytes-Received_example :
    let m = record started { motor_state = motor_disabling } in
    Received giving 0x3F0 m 3 (read_bytes giving 1 0 3 m)
read_bytes-Received_example =
    read_bytes-Received giving 0x3F0 0 (λ a. refl) giving-IsPrompt 0 3
      (record started { motor_state = motor_disabling }) started-IsAwake
