-- ===== src/Speaker.antt =====
-- kernel/src/speaker.rs. The ports and the clock are those of the floppy driver's machine; warnings
-- are left out.
pub mod Quiet
mod Tests
use sunflower.Common.{
  ◌==◌, if◌then◌else◌, ℕ, zero, suc, ◌*◌, ◌/◌, ◌%◌, ◌^◌, bit_and, bit_or, Bool, true, false, not,
  List, [], ◌∷◌, ◌++◌,
}
use sunflower.Common.Bits.{}
use sunflower.Common.Outcome.{pure, crash, ◌>>=◌, ◌>>◌, gets}
use sunflower.Floppy.Machine.{World, Op, writeb, readb, wait}
use sunflower.Kernel.Time.{pit_base_freq}

abbrev pub play_bits : ℕ
play_bits = 0b11

abbrev pub pit_cmd : ℕ
pit_cmd = 0x43

abbrev pub pit_channel_2 : ℕ
pit_channel_2 = 0x42

abbrev pub pc_speaker : ℕ
pc_speaker = 0x61

abbrev pub pulse_length : ℕ
pulse_length = 6

module _ (w : World) (fuel : ℕ) where
  -- Set the play bits, unless they are set.
  abbrev pub set_bits : ℕ → Op (Unit {0})
  set_bits val =
      if not (val == bit_or val play_bits)
      then writeb pc_speaker (bit_or val play_bits)
      else pure tt

  -- A division by zero is a panic.
  unfoldable pub play : ℕ → Op (Unit {0})
  play freq = do
    pit ← gets (λ m. m.pit_init)
    if not pit
        then pure tt
        else if freq == 0
        then crash
        else (writeb pit_cmd 0b10110110
            >> (writeb pit_channel_2 (pit_base_freq / freq % 2 ^ 8)
                >> (writeb pit_channel_2 (pit_base_freq / freq / 2 ^ 8 % 2 ^ 8)
                    >> (readb w pc_speaker >>= set_bits))))

  unfoldable pub stop : Op (Unit {0})
  stop = readb w pc_speaker >>= (λ val. writeb pc_speaker (bit_and val 0b11111100))

  -- The rounds that are left.
  unfoldable pub pulses : ℕ → ℕ → Op (Unit {0})
  unfolding play stop
  pulses zero freq = pure tt
  pulses (suc n) freq =
      play freq
      >> (wait w fuel pulse_length >> (stop >> (wait w fuel pulse_length >> pulses n freq)))

  unfoldable pub play_special : ℕ → ℕ → Bool → Op (Unit {0})
  unfolding pulses
  play_special freq millis repeat = do
    pit ← gets (λ m. m.pit_init)
    if not pit
        then pure tt
        else if repeat
        then pulses (millis / 13 / (pulse_length * 2)) freq
        else (play freq >> (wait w fuel (millis / 13) >> stop))

  -- A song: the frequency, the milliseconds and whether it is repeated, for each note.
  unfoldable pub play_notes : List (ℕ × ℕ × Bool) → Op (Unit {0})
  unfolding play_special
  play_notes [] = pure tt
  play_notes ((freq, millis, repeat) ∷ notes) = play_special freq millis repeat >> play_notes notes

  unfoldable pub play_chime : Op (Unit {0})
  unfolding play_notes
  play_chime =
      play_notes
        ((600, 350, false) ∷ (620, 450, false) ∷ (600, 350, false) ∷ (780, 900, false) ∷ [])

abbrev pub rising : List (ℕ × ℕ × Bool)
rising =
    (400, 300, false)
    ∷ (430, 300, false)
    ∷ (450, 300, false)
    ∷ (500, 250, false)
    ∷ (550, 250, false)
    ∷ []

abbrev pub beeping_1 : List (ℕ × ℕ × Bool)
beeping_1 = (450, 100, false) ∷ (400, 150, false) ∷ (500, 250, false) ∷ (550, 250, false) ∷ []

abbrev pub beeping_2 : List (ℕ × ℕ × Bool)
beeping_2 =
    (600, 100, false)
    ∷ (620, 100, false)
    ∷ (600, 100, false)
    ∷ (620, 100, false)
    ∷ (600, 100, false)
    ∷ (620, 100, false)
    ∷ (500, 100, false)
    ∷ (480, 100, false)
    ∷ []

abbrev pub uh_oh : List (ℕ × ℕ × Bool)
uh_oh = (600, 900, true) ∷ (500, 800, false) ∷ (600, 900, true) ∷ []

abbrev pub fade_out : List (ℕ × ℕ × Bool)
fade_out =
    (550, 100, false)
    ∷ (540, 100, false)
    ∷ (530, 100, false)
    ∷ (520, 100, false)
    ∷ (510, 100, false)
    ∷ (500, 100, false)
    ∷ (490, 100, false)
    ∷ (480, 100, false)
    ∷ (470, 100, false)
    ∷ (460, 100, false)
    ∷ (450, 1350, false)
    ∷ []

abbrev pub song : List (ℕ × ℕ × Bool)
song =
    rising
    ++ (beeping_1 ++ (beeping_2 ++ (beeping_1 ++ (rising ++ (beeping_1 ++ (uh_oh ++ fade_out))))))

module _ (w : World) (fuel : ℕ) where
  unfoldable pub play_song : Op (Unit {0})
  unfolding play_notes
  play_song = play_notes w fuel song
