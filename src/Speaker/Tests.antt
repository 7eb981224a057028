-- ===== src/Speaker/Tests.antt =====
-- An instance of the theorem about songs.
use sunflower.Common.{length, ℕ, ◌≡◌, refl, Bool, true, false, some, List, [], ◌∷◌}
use sunflower.Common.Outcome.{ok}
use sunflower.Floppy.Machine.{World, Machine, writeb, readb, get_time, wait_until, wait}
use sunflower.Floppy.Motor.{motor_off}
use sunflower.Speaker.{play, stop, pulses, play_special, play_notes}
use sunflower.Speaker.Quiet.{IsQuiet, play_notes-IsQuiet}

abbrev world : World
world = record { answer = λ a port. 0x33; clock = length }

abbrev started : Machine
started = record {
  accesses = [];
  base_offset = some 0x3F0;
  floppy_space = some 1440;
  drive_one = false;
  motor_state = motor_off;
  motor_time_left = 0;
  pit_init = true;
  floppy_init = true;
  bytes_read = 0;
  bytes_written = 0;
}

abbrev notes : List (ℕ × ℕ × Bool)
notes = (600, 160, true) ∷ (500, 26, false) ∷ []

notes_played : (play_notes world 20 notes started).0 ≡ ok tt
unfolding play_notes play_special pulses play stop writeb readb get_time wait wait_until
notes_played = refl

play_notes_example : IsQuiet (play_notes world 20 notes started).1.accesses
play_notes_example = play_notes-IsQuiet world 20 notes started tt notes_played
