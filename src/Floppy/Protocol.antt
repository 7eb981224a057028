-- ===== src/Floppy/Protocol.antt =====
-- When the driver writes a byte to the controller's FIFO.
pub mod Keeps
pub mod Commands
pub mod Driver
pub mod Transfers
pub mod Boot
use sunflower.Floppy.Fifo.{send_once, send_byte_from, send_byte}
use sunflower.Common.{
  ltb, ◌==◌, if◌then◌else◌, ==_iff, Bool-cases, ℕ, zero, suc, ◌+◌, ◌/◌, ◌%◌, ◌^◌, ◌≡◌, refl, sym,
  subst, ◌≢◌, inl, inr, Bool, true, false, some, List, [], ◌∷◌, arith,
}
use sunflower.Common.Outcome.{
  Outcome, pure, raise, continue, ◌>>=◌, ◌>>◌, modify, ok, err, panic, hang,
}
use sunflower.Floppy.Machine.{
  timeout, FloppyPort, digital_output_register, main_status_register, fifo, port_number, fifo_write,
  FloppyError, fifo_timeout, Access, wrote, read_from, looked_at_clock, World, Machine, Op, writeb,
  add_offset, readb, msr, get_time, wait_until, wait,
}
use sunflower.Floppy.Motor.{
  motor_on, motor_disabling, motor_off, enable_command, send_enable_cmd, enable_motor,
  disable_motor,
}

module _ (w : World) (base : ℕ) where
  -- The last access but the dummy write was a read of the status register that answered with the
  -- bits for a byte to be written.
  abbrev pub WasReady : List Access → Type 0
  WasReady [] = ⊥
  WasReady (wrote p v ∷ []) = ⊥
  WasReady (wrote p v ∷ wrote q u ∷ a) = ⊥
  WasReady (wrote p v ∷ read_from r ∷ a) = (r ≡ 4 + base) × (w.answer a r % 256 / 2 ^ 6 ≡ 0b10)
  WasReady (wrote p v ∷ looked_at_clock ∷ a) = ⊥
  WasReady (read_from p ∷ a) = ⊥
  WasReady (looked_at_clock ∷ a) = ⊥

  -- Every write to the FIFO in a list of accesses was made when the controller was ready for it.
  abbrev pub Orderly : List Access → Type 0
  Orderly [] = Unit
  Orderly (wrote p v ∷ a) = (if p == 5 + base then WasReady a else Unit) × Orderly a
  Orderly (read_from p ∷ a) = Orderly a
  Orderly (looked_at_clock ∷ a) = Orderly a

  pub record IsOrderly (m : Machine) : Type 0 where
    pub at_base : m.base_offset ≡ some base
    pub orderly : Orderly m.accesses

module _ (w : World) (base : ℕ) (far : 5 + base ≢ 0x80) where
  skipped : (p q : ℕ) (X : Type 0) → p ≢ q → if p == q then X else Unit
  skipped p q X ne =
      let e : (p == q) ≡ false = ground (arith, ne) in subst (λ b. if b then X else Unit) (sym e) tt

  -- An access that is no write to the FIFO.
  pub looked :
      (m : Machine)
      → IsOrderly w base m
      → IsOrderly w base (record m { accesses = looked_at_clock ∷ m.accesses })
  looked m v = record { at_base = v.at_base; orderly = v.orderly }

  pub written :
      (m : Machine) (port val : ℕ)
      → port ≢ 5 + base
      → IsOrderly w base m
      → IsOrderly w base (record m { accesses = wrote port val ∷ wrote 0x80 0 ∷ m.accesses })
  written m port val ne v = record {
    at_base = v.at_base;
    orderly =
        (skipped port (5 + base) _ ne, (skipped 0x80 (5 + base) _ (λ e. far (sym e)), v.orderly));
  }

  pub either_way :
      {A : Type 0} (b : Bool) (x y : Op A) (m : Machine)
      → IsOrderly w base (x m).1
      → IsOrderly w base (y m).1
      → IsOrderly w base ((if b then x else y) m).1
  either_way true x y m h k = h
  either_way false x y m h k = k

  pub after :
      {A B : Type 0} (r : Outcome FloppyError A) (f : A → Op B) (m : Machine)
      → IsOrderly w base m
      → ((a : A) → IsOrderly w base (f a m).1)
      → IsOrderly w base (continue r f m).1
  after (ok a) f m v k = k a
  after (err e) f m v k = v
  after panic f m v k = v
  after hang f m v k = v

  wait_until-IsOrderly :
      (n target : ℕ) (m : Machine)
      → IsOrderly w base m
      → IsOrderly w base (wait_until w n target m).1
  unfolding wait_until get_time
  wait_until-IsOrderly zero target m v = v
  wait_until-IsOrderly (suc n) target m v =
      let m' = record m { accesses = looked_at_clock ∷ m.accesses } in
      elim (Bool-cases (ltb (w.clock m.accesses) target)) [
        | inl e ↦ rw e (wait_until-IsOrderly n target m' (looked m v))
        | inr e ↦ rw e (looked m v)
      ]

  pub wait-IsOrderly :
      (fuel n : ℕ) (m : Machine) → IsOrderly w base m → IsOrderly w base (wait w fuel n m).1
  unfolding wait get_time
  wait-IsOrderly fuel n m v =
      let m' = record m { accesses = looked_at_clock ∷ m.accesses } in
      either_way m.pit_init (get_time w >>= (λ now. wait_until w fuel (now + n + 1))) (pure tt) m
        (wait_until-IsOrderly fuel (w.clock m.accesses + n + 1) m' (looked m v)) v

  pub add_offset-base :
      (p : FloppyPort) (m : Machine)
      → IsOrderly w base m
      → add_offset p m ≡ (ok (port_number p + base), m)
  unfolding add_offset
  add_offset-base p m v = rw v.at_base refl

  send_enable_cmd-IsOrderly :
      (fuel : ℕ) (m : Machine) → IsOrderly w base m → IsOrderly w base (send_enable_cmd w fuel m).1
  unfolding send_enable_cmd writeb
  send_enable_cmd-IsOrderly fuel m v =
      let ne : 2 + base ≢ 5 + base = λ e. omega (arith, e) in
      let v' = written m (2 + base) (enable_command m.drive_one) ne v in
      rw (add_offset-base digital_output_register m v) (
        wait-IsOrderly fuel 50
          (record m {
            accesses = wrote (2 + base) (enable_command m.drive_one) ∷ wrote 0x80 0 ∷ m.accesses;
            motor_state = motor_on;
          })
          (record { at_base = v'.at_base; orderly = v'.orderly }))

  pub enable_motor-IsOrderly :
      (fuel : ℕ) (m : Machine) → IsOrderly w base m → IsOrderly w base (enable_motor w fuel m).1
  unfolding enable_motor
  enable_motor-IsOrderly fuel m v = elim (Bool-cases (m.motor_state == motor_off)) [
    | inl e ↦ rw e (send_enable_cmd-IsOrderly fuel m v)
    | inr e ↦ elim (Bool-cases (m.motor_state == motor_disabling)) [
      | inl f ↦ rw (e, f) (record { at_base = v.at_base; orderly = v.orderly })
      | inr f ↦ rw (e, f) v
    ]
  ]

  -- The state after the status register was read.
  abbrev pub status_read : Machine → Machine
  status_read m = record m { accesses = read_from (4 + base) ∷ wrote 0x80 0 ∷ m.accesses }

  abbrev pub status : Machine → ℕ
  status m = w.answer (wrote 0x80 0 ∷ m.accesses) (4 + base) % 256

  pub msr-read : (m : Machine) → IsOrderly w base m → msr w m ≡ (ok (status m), status_read m)
  unfolding msr readb
  msr-read m v = rw (add_offset-base main_status_register m v) refl

  pub status_read-IsOrderly : (m : Machine) → IsOrderly w base m → IsOrderly w base (status_read m)
  status_read-IsOrderly m v = record {
    at_base = v.at_base;
    orderly = (skipped 0x80 (5 + base) _ (λ e. far (sym e)), v.orderly);
  }

  pub readb-IsOrderly :
      (port : ℕ) (m : Machine) → IsOrderly w base m → IsOrderly w base (readb w port m).1
  unfolding readb
  readb-IsOrderly port m v = record {
    at_base = v.at_base;
    orderly = (skipped 0x80 (5 + base) _ (λ e. far (sym e)), v.orderly);
  }

  -- Any port but the FIFO.
  pub writeb-IsOrderly :
      (port val : ℕ)
      → port ≢ 5 + base
      → (m : Machine) → IsOrderly w base m
      → IsOrderly w base (writeb port val m).1
  unfolding writeb
  writeb-IsOrderly port val ne m v = written m port val ne v

  -- The byte is written right after the status was read.
  sent :
      (byte : ℕ) (m : Machine)
      → status m / 2 ^ 6 ≡ 0b10
      → IsOrderly w base m
      → IsOrderly w base ((add_offset fifo >>= (λ port. writeb port byte)) (status_read m)).1
  unfolding writeb
  sent byte m ready v =
      let v' = status_read-IsOrderly m v in
      let e : (5 + base == 5 + base) ≡ true = (==_iff (5 + base) (5 + base)).1 refl in
      rw (add_offset-base fifo (status_read m) v') (record {
        at_base = v.at_base;
        orderly = (
          subst (λ b. if b then WasReady w base (wrote 0x80 0 ∷ (status_read m).accesses) else Unit)
              (sym e) (refl, ready),
          (skipped 0x80 (5 + base) _ (λ e. far (sym e)), v'.orderly),
        );
      })

  pub stopped : (m : Machine) → IsOrderly w base m → IsOrderly w base (disable_motor m)
  unfolding disable_motor
  stopped m v = record { at_base = v.at_base; orderly = v.orderly }

  send_if :
      (b : Bool) (byte : ℕ) (rest : Op (Unit {0})) (m : Machine)
      → (b ≡ true → status m / 2 ^ 6 ≡ 0b10)
      → IsOrderly w base m
      → IsOrderly w base (rest (status_read m)).1
      → IsOrderly w base
          ((if b
              then (add_offset fifo >>= (λ port. writeb port byte) >> modify disable_motor)
              else rest)
            (status_read m)).1
  send_if true byte rest m ready v k =
      let write = add_offset fifo >>= (λ port. writeb port byte) in
      let v' = sent byte m (ready refl) v in
      after (write (status_read m)).0 (λ _. modify disable_motor) (write (status_read m)).1 v'
        (λ _. stopped (write (status_read m)).1 v')
  send_if false byte rest m ready v k = k

  send_once-IsOrderly :
      (fuel byte : ℕ) (rest : Op (Unit {0})) (m : Machine)
      → ((m' : Machine) → IsOrderly w base m' → IsOrderly w base (rest m').1)
      → IsOrderly w base m
      → IsOrderly w base (send_once w fuel byte rest m).1
  send_once-IsOrderly fuel byte rest m k v =
      let v₁ = enable_motor-IsOrderly fuel m v in
      let m₁ = (enable_motor w fuel m).1 in
      after (enable_motor w fuel m).0 _ m₁ v₁ (λ _. rw (msr-read m₁ v₁) (
        send_if (status m₁ / 2 ^ 6 == 0b10) byte rest m₁ ((==_iff _ _).0) v₁
          (k (status_read m₁) (status_read-IsOrderly m₁ v₁))))

  send_byte_from-IsOrderly :
      (fuel n start byte : ℕ) (m : Machine)
      → IsOrderly w base m
      → IsOrderly w base (send_byte_from w fuel n start byte m).1
  unfolding send_byte_from get_time
  send_byte_from-IsOrderly fuel zero start byte m v = v
  send_byte_from-IsOrderly fuel (suc n) start byte m v =
      let m' = record m { accesses = looked_at_clock ∷ m.accesses } in
      either_way (ltb (w.clock m.accesses) (start + timeout))
        (send_once w fuel byte (send_byte_from w fuel n start byte))
        (modify disable_motor >> raise (fifo_timeout (fifo_write byte))) m'
        (send_once-IsOrderly fuel byte (send_byte_from w fuel n start byte) m'
          (send_byte_from-IsOrderly fuel n start byte) (looked m v))
        (stopped m' (looked m v))

  -- With the controller's ports apart from the port of the dummy writes, `send_byte` keeps to the
  -- protocol, whatever the controller and the clock answer: if so far every byte was written to the
  -- FIFO right after the status register allowed it, that still holds when it returns or times out.
  pub send_byte-IsOrderly :
      (fuel byte : ℕ) (m : Machine)
      → IsOrderly w base m
      → IsOrderly w base (send_byte w fuel byte m).1
  unfolding send_byte get_time
  send_byte-IsOrderly fuel byte m v =
      send_byte_from-IsOrderly fuel fuel (w.clock m.accesses) byte
        (record m { accesses = looked_at_clock ∷ m.accesses }) (looked m v)
