-- ===== src/Speaker/Quiet.antt =====
-- The speaker does not go on after a song.
use sunflower.Common.Outcome.{pure, ◌>>=◌, gets, bound_ok, ok}
use sunflower.Common.{
  ltb, ◌==◌, if◌then◌else◌, ==_iff, every_below, every_below-holds, ℕ, zero, suc, ◌+◌, ◌*◌, ◌/◌,
  ◌%◌, ◌<◌, bit_and, ◌≡◌, refl, Bool, true, false, not, List, [], ◌∷◌, arith,
}
use sunflower.Common.Bits.{}
use sunflower.Floppy.Machine.{
  Access, wrote, read_from, looked_at_clock, World, Machine, Op, writeb, readb, get_time,
  wait_until, wait,
}
use sunflower.Speaker.{pc_speaker, pulse_length, play, stop, pulses, play_special, play_notes}

-- The last value written to the speaker's port, if any, has the play bits clear.
abbrev pub IsQuiet : List Access → Type 0
IsQuiet [] = Unit
IsQuiet (wrote p v ∷ a) = if p == pc_speaker then v % 4 ≡ 0 else IsQuiet a
IsQuiet (read_from p ∷ a) = IsQuiet a
IsQuiet (looked_at_clock ∷ a) = IsQuiet a

cleared-table : every_below 256 (λ v. bit_and v 0b11111100 % 4 == 0) ≡ true
unfolding every_below
cleared-table = refl

cleared : (v : ℕ) → v < 256 → bit_and v 0b11111100 % 4 ≡ 0
cleared v h =
    (==_iff _ 0).0 (every_below-holds 256 v (λ v. bit_and v 0b11111100 % 4 == 0) h cleared-table)

-- Where the operation returns, the speaker is off: whatever it was before, or if it was off before.
record Silences {A : Type 0} (o : Op A) : Type 0 where
  off : (m : Machine) (a : A) → (o m).0 ≡ ok a → IsQuiet (o m).1.accesses

record Stays {A : Type 0} (o : Op A) : Type 0 where
  stay : (m : Machine) (a : A) → (o m).0 ≡ ok a → IsQuiet m.accesses → IsQuiet (o m).1.accesses

module _ {A B : Type 0} (o : Op A) (f : A → Op B) where
  then-Stays : Stays o → ((a : A) → Stays (f a)) → Stays (o >>= f)
  then-Stays h k = record {
    stay = λ m b e v.
        bound_ok (λ m'. IsQuiet m'.accesses) (o m).0 f (o m).1 b e
          (λ a d e'. (k a).stay (o m).1 b e' (h.stay m a d v));
  }

  then-Silences : ((a : A) → Silences (f a)) → Silences (o >>= f)
  then-Silences k = record {
    off = λ m b e.
        bound_ok (λ m'. IsQuiet m'.accesses) (o m).0 f (o m).1 b e
          (λ a d e'. (k a).off (o m).1 b e');
  }

  Silences-then : Silences o → ((a : A) → Stays (f a)) → Silences (o >>= f)
  Silences-then h k = record {
    off = λ m b e.
        bound_ok (λ m'. IsQuiet m'.accesses) (o m).0 f (o m).1 b e
          (λ a d e'. (k a).stay (o m).1 b e' (h.off m a d));
  }

Silences-Stays : {A : Type 0} {o : Op A} → Silences o → Stays o
Silences-Stays h = record { stay = λ m a e v. h.off m a e }

pure-Stays : {A : Type 0} (a : A) → Stays (pure a)
pure-Stays a = record { stay = λ m b e v. v }

chosen-Stays : {A : Type 0} (b : Bool) (x y : Op A) → Stays x → Stays y → Stays (if b then x else y)
chosen-Stays true x y h k = h
chosen-Stays false x y h k = k

-- To decide on a part of the state first.
gets-Stays :
    {A B : Type 0} (g : Machine → A) (f : A → Op B) → ((a : A) → Stays (f a)) → Stays (gets g >>= f)
gets-Stays g f k = record { stay = λ m. (k (g m)).stay m }

module _ (w : World) (fuel : ℕ) where
  stop-Silences : Silences (stop w fuel)
  unfolding stop readb writeb
  stop-Silences = record { off = λ m u e. cleared _ (omega arith) }

  pub stop-IsQuiet : (m : Machine) → IsQuiet (stop w fuel m).1.accesses
  unfolding stop readb writeb
  stop-IsQuiet m = cleared _ (omega arith)

  get_time-Stays : Stays (get_time w)
  unfolding get_time
  get_time-Stays = record { stay = λ m a e v. v }

  wait_until-Stays : (n target : ℕ) → Stays (wait_until w n target)
  unfolding wait_until
  wait_until-Stays zero target = record { stay = λ m u e v. v }
  wait_until-Stays (suc n) target = then-Stays (get_time w) _ get_time-Stays (λ now.
      chosen-Stays (ltb now target) (wait_until w n target) (pure tt) (wait_until-Stays n target)
        (pure-Stays tt))

  wait-Stays : (ticks : ℕ) → Stays (wait w fuel ticks)
  unfolding wait
  wait-Stays ticks =
      gets-Stays (λ m. m.pit_init) _
        (λ pit.
          chosen-Stays pit _ (pure tt)
            (then-Stays (get_time w) _ get_time-Stays
              (λ now. wait_until-Stays fuel (now + ticks + 1)))
            (pure-Stays tt))

  pulses-Stays : (n freq : ℕ) → Stays (pulses w fuel n freq)
  unfolding pulses
  pulses-Stays zero freq = pure-Stays tt
  pulses-Stays (suc n) freq = Silences-Stays (
      then-Silences (play w fuel freq) _ (λ _. then-Silences (wait w fuel pulse_length) _ (λ _.
        Silences-then (stop w fuel) _ stop-Silences (λ _.
          then-Stays (wait w fuel pulse_length) _ (wait-Stays pulse_length)
            (λ _. pulses-Stays n freq)))))

  play_special-Stays :
      (freq millis : ℕ) (repeat : Bool) → Stays (play_special w fuel freq millis repeat)
  unfolding play_special
  play_special-Stays freq millis repeat =
      gets-Stays (λ m. m.pit_init) _
        (λ pit. chosen-Stays (not pit) (pure tt) _ (pure-Stays tt) (
          chosen-Stays repeat _ _ (pulses-Stays (millis / 13 / (pulse_length * 2)) freq) (
            Silences-Stays (
              then-Silences (play w fuel freq) _
                (λ _. then-Silences (wait w fuel (millis / 13)) _ (λ _. stop-Silences))))))

  notes-Stays : (notes : List (ℕ × ℕ × Bool)) → Stays (play_notes w fuel notes)
  unfolding play_notes
  notes-Stays [] = pure-Stays tt
  notes-Stays ((freq, millis, repeat) ∷ notes) =
      then-Stays (play_special w fuel freq millis repeat) _ (play_special-Stays freq millis repeat)
        (λ _. notes-Stays notes)

  -- Any list of notes, pulsed or not, with or without a timer: if the speaker was off before and
  -- the last note returns, the speaker is off again, whatever the ports and the clock answer.
  pub play_notes-IsQuiet :
      (notes : List (ℕ × ℕ × Bool)) (m : Machine)
      → IsQuiet m.accesses
      → (play_notes w fuel notes m).0 ≡ ok tt
      → IsQuiet (play_notes w fuel notes m).1.accesses
  play_notes-IsQuiet notes m v e = (notes-Stays notes).stay m tt e v
