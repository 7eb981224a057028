-- ===== src/Floppy/Receives.antt =====
-- What is read from a controller that always has a byte.
use sunflower.Common.{
  ◌==◌, if◌then◌else◌, every_below, every_below-holds, length, ℕ, zero, suc, ◌+◌, ◌/◌, ◌%◌, ◌^◌,
  ◌<◌, ◌≡◌, refl, sym, ap, ◌∙◌, ◌⊎◌, inl, inr, true, false, List, [], ◌∷◌, arith,
}
use sunflower.Common.Outcome.{Outcome, pure, continue, ok, err, panic, hang}
use sunflower.Floppy.Machine.{
  FloppyError, Access, wrote, read_from, looked_at_clock, World, Machine, Op, add_offset, readb,
  msr, get_time,
}
use sunflower.Floppy.Motor.{motor_timeout, motor_disabling, disable_motor}
use sunflower.Floppy.Fifo.{read_byte, read_byte_from}
use sunflower.Floppy.Disk.{has_bits, wait_for_rqm, wait_for_rqm_from, read_bytes}
use sunflower.Floppy.Sends.{onto, kept_on, enable_motor-awake, in_time, IsPrompt, IsAwake}

-- The bytes read from the FIFO, the latest first.
abbrev pub fifo_reads : World → ℕ → List Access → List ℕ
fifo_reads w base [] = []
fifo_reads w base (wrote p v ∷ a) = fifo_reads w base a
fifo_reads w base (read_from p ∷ a) =
    if p == 5 + base then w.answer a p % 256 ∷ fifo_reads w base a else fifo_reads w base a
fifo_reads w base (looked_at_clock ∷ a) = fifo_reads w base a

-- The status register always says that a byte can be read.
abbrev pub HasBytes : World → ℕ → Type 0
HasBytes w base = (a : List Access) → w.answer a (4 + base) % 256 / 2 ^ 6 ≡ 0b11

module _ (w : World) (base : ℕ) where
  -- The call returned as many bytes, those that it read from the FIFO in their order.
  pub record Received (m : Machine) (len : ℕ)
      (r : Outcome FloppyError (FloppyError ⊎ List ℕ) × Machine) : Type 0 where
    pub bytes : List ℕ
    pub result : r.0 ≡ ok (inr bytes)
    pub count : length bytes ≡ len
    pub taken : fifo_reads w base r.1.accesses ≡ onto bytes (fifo_reads w base m.accesses)

module _ (w : World) (base n : ℕ) (has_bytes : HasBytes w base) (prompt : IsPrompt w) where
  is_ready : (a : List Access) → (w.answer a (4 + base) % 256 / 2 ^ 6 == 0b11) ≡ true
  is_ready a = ground (arith, has_bytes a)

  bits_ready :
      every_below 256 (λ v. if v / 2 ^ 6 == 0b11 then has_bits v 0b10000000 else true) ≡ true
  unfolding every_below
  bits_ready = refl

  bits_seen : (v : ℕ) → v < 256 → v / 2 ^ 6 ≡ 0b11 → has_bits v 0b10000000 ≡ true
  bits_seen v h e =
      let t =
        every_below-holds 256 v (λ v. if v / 2 ^ 6 == 0b11 then has_bits v 0b10000000 else true) h
          bits_ready in
      ground (arith, t, e)

  polled : Machine → List Access
  polled m = read_from (4 + base) ∷ wrote 0x80 0 ∷ looked_at_clock ∷ looked_at_clock ∷ m.accesses

  wait_for_rqm-polled :
      (depth : ℕ) (m : Machine)
      → IsAwake base m
      → wait_for_rqm w (suc n) depth m ≡ (ok tt, record m { accesses = polled m })
  unfolding wait_for_rqm wait_for_rqm_from get_time msr add_offset readb polled
  wait_for_rqm-polled depth m v =
      let before = wrote 0x80 0 ∷ looked_at_clock ∷ looked_at_clock ∷ m.accesses in
      rw
        (
          in_time w prompt m.accesses,
          v.at_base,
          bits_seen (w.answer before (4 + base) % 256) (omega arith) (has_bytes before),
        )
        (ap (λ o. (ok tt, record m { accesses = polled m; base_offset = o })) v.at_base)

  abbrev got : Machine → ℕ
  got m = w.answer (wrote 0x80 0 ∷ polled m) (5 + base) % 256

  after_byte : Machine → Machine
  after_byte m = record m {
    accesses = read_from (5 + base) ∷ wrote 0x80 0 ∷ polled m;
    motor_state = motor_disabling;
    motor_time_left = motor_timeout;
  }

  read_byte-after :
      (m : Machine) → IsAwake base m → read_byte w (suc n) m ≡ (ok (got m), after_byte m)
  unfolding read_byte read_byte_from get_time msr add_offset readb disable_motor after_byte kept_on
      polled
  read_byte-after m v =
      let looked = record m { accesses = looked_at_clock ∷ looked_at_clock ∷ m.accesses } in
      rw
        (
          in_time w prompt m.accesses,
          enable_motor-awake w base (suc n) looked
              (record { at_base = v.at_base; awake = v.awake }),
          v.at_base,
          is_ready (wrote 0x80 0 ∷ looked_at_clock ∷ looked_at_clock ∷ m.accesses),
        )
        refl

  read_in :
      (m : Machine)
      → fifo_reads w base (after_byte m).accesses ≡ got m ∷ fifo_reads w base m.accesses
  unfolding after_byte polled
  read_in m =
      let own : (5 + base == 5 + base) ≡ true = ground arith in
      let status : (4 + base == 5 + base) ≡ false = ground arith in rw (own, status) refl

  polled_in : (m : Machine) → fifo_reads w base (polled m) ≡ fifo_reads w base m.accesses
  unfolding polled
  polled_in m = let status : (4 + base == 5 + base) ≡ false = ground arith in rw status refl

  with_byte :
      (m m' : Machine) (len b : ℕ) (r : Outcome FloppyError (FloppyError ⊎ List ℕ) × Machine)
      → fifo_reads w base m'.accesses ≡ b ∷ fifo_reads w base m.accesses
      → Received w base m' len r
      → let f : FloppyError ⊎ List ℕ → Op (FloppyError ⊎ List ℕ) =
          λ later. elim later [ inl e ↦ pure (inl e) | inr bytes ↦ pure (inr (b ∷ bytes)) ] in
        Received w base m (suc len) (continue r.0 f r.1)
  with_byte m m' len b (ok (inr bytes), m'') e h =
      let same : bytes ≡ h.bytes = ground (arith, h.result) in
      record {
        bytes = b ∷ bytes;
        result = refl;
        count = ap suc (ap length same ∙ h.count);
        taken =
            h.taken
            ∙ ap (λ bs. onto bs (fifo_reads w base m'.accesses)) (sym same)
            ∙ ap (onto bytes) e;
      }
  with_byte m m' len b (ok (inl x), m'') e h = absurd (ground (arith, h.result))
  with_byte m m' len b (err x, m'') e h = absurd (ground (arith, h.result))
  with_byte m m' len b (panic, m'') e h = absurd (ground (arith, h.result))
  with_byte m m' len b (hang, m'') e h = absurd (ground (arith, h.result))

  -- On a controller that always has a byte, with a clock that does not leap over the timeout between
  -- two looks, and with the base set and the motor not off: the loop of a read fills the buffer with
  -- as many bytes as it has room for, each of them read from the FIFO once, in their order, and
  -- reads no byte that it does not return.
  pub read_bytes-Received :
      (depth len : ℕ) (m : Machine)
      → IsAwake base m
      → Received w base m len (read_bytes w (suc n) depth len m)
  unfolding read_bytes after_byte polled
  read_bytes-Received depth zero m v = record {
    bytes = [];
    result = refl;
    count = refl;
    taken = refl;
  }
  read_bytes-Received depth (suc len) m v =
      let m₁ = record m { accesses = polled m } in
      let m₂ = after_byte m₁ in
      let v₁ : IsAwake base m₁ = record { at_base = v.at_base; awake = v.awake } in
      let v₂ : IsAwake base m₂ = record { at_base = v.at_base; awake = λ e. omega arith } in
      rw (wait_for_rqm-polled depth m v, read_byte-after m₁ v₁)
        (with_byte m m₂ len (got m₁) (read_bytes w (suc n) depth len m₂)
          (read_in m₁ ∙ ap (λ bs. got m₁ ∷ bs) (polled_in m)) (read_bytes-Received depth len m₂ v₂))
