-- ===== src/Floppy/Protocol/Keeps.antt =====
-- Operations of the driver that keep to the protocol of the FIFO, and how they are put together.
use sunflower.Common.{
  if◌then◌else◌, ℕ, ◌+◌, ◌≡◌, sym, subst, ◌∙◌, ◌≢◌, ◌⊎◌, inl, inr, Bool, true, false, Option, none,
  some,
}
use sunflower.Common.Outcome.{
  Outcome, pure, raise, ◌>>=◌, modify, gets, as_value, attempt, out_of_fuel, ok, err, panic, hang,
}
use sunflower.Floppy.Machine.{
  FloppyPort, port_number, FloppyError, World, Machine, Op, writeb, add_offset, readb, msr,
  get_time, wait,
}
use sunflower.Floppy.Motor.{enable_motor, disable_motor}
use sunflower.Floppy.Fifo.{send_byte}
use sunflower.Floppy.Protocol.{
  Orderly, IsOrderly, looked, after, wait-IsOrderly, add_offset-base, enable_motor-IsOrderly,
  msr-read, status_read-IsOrderly, readb-IsOrderly, writeb-IsOrderly, stopped, send_byte-IsOrderly,
}

module _ (w : World) (base : ℕ) (far : 5 + base ≢ 0x80) where
  pub record Keeps {A : Type 0} (o : Op A) : Type 0 where
    pub keep : (m : Machine) → IsOrderly w base m → IsOrderly w base (o m).1

  pub pure-Keeps : {A : Type 0} (a : A) → Keeps (pure a)
  pure-Keeps a = record { keep = λ m v. v }

  pub raise-Keeps : {A : Type 0} (e : FloppyError) → Keeps {A = A} (raise e)
  raise-Keeps e = record { keep = λ m v. v }

  pub out_of_fuel-Keeps : {A : Type 0} → Keeps {A = A} out_of_fuel
  out_of_fuel-Keeps = record { keep = λ m v. v }

  pub bound :
      {A B : Type 0} (o : Op A) (f : A → Op B) → Keeps o → ((a : A) → Keeps (f a)) → Keeps (o >>= f)
  bound o f h k = record {
    keep = λ m v.
        after w base far (o m).0 f (o m).1 (h.keep m v) (λ a. (k a).keep (o m).1 (h.keep m v));
  }

  pub gets-Keeps :
      {A B : Type 0} (g : Machine → A) (f : A → Op B)
      → ((a : A) → Keeps (f a))
      → Keeps (gets g >>= f)
  gets-Keeps g f k = record { keep = λ m v. (k (g m)).keep m v }

  valued :
      {A : Type 0} (r : Outcome FloppyError A) (m : Machine)
      → IsOrderly w base m
      → IsOrderly w base (as_value {F = FloppyError} r m).1
  valued (ok a) m v = v
  valued (err e) m v = v
  valued panic m v = v
  valued hang m v = v

  pub attempted : {A : Type 0} (o : Op A) → Keeps o → Keeps (attempt {F = FloppyError} o)
  attempted o h = record { keep = λ m v. valued (o m).0 (o m).1 (h.keep m v) }

  pub chosen : {A : Type 0} (b : Bool) (x y : Op A) → Keeps x → Keeps y → Keeps (if b then x else y)
  chosen true x y h k = h
  chosen false x y h k = k

  -- A call that failed, or what follows it.
  pub tried :
      {A B : Type 0} (s : FloppyError ⊎ A) (failed : FloppyError → Op B) (rest : A → Op B)
      → ((e : FloppyError) → Keeps (failed e))
      → ((a : A) → Keeps (rest a))
      → Keeps (elim s [ inl e ↦ failed e | inr a ↦ rest a ])
  tried (inl e) failed rest h k = h e
  tried (inr a) failed rest h k = k a

  -- A call whose failure is handled here.
  pub handled :
      {A B : Type 0} (o : Op A) (failed : FloppyError → Op B) (rest : A → Op B)
      → Keeps o
      → ((e : FloppyError) → Keeps (failed e))
      → ((a : A) → Keeps (rest a))
      → Keeps (attempt o >>= (λ s. elim s [ inl e ↦ failed e | inr a ↦ rest a ]))
  handled o failed rest h k l = bound (attempt o) _ (attempted o h) (λ s. tried s failed rest k l)

  pub offered :
      {A B : Type 0} (o : Option A) (f : A → Op B) (x : Op B)
      → ((a : A) → Keeps (f a))
      → Keeps x
      → Keeps (elim o [ some a ↦ f a | none ↦ x ])
  offered none f x h k = k
  offered (some a) f x h k = h a

  -- What leaves the accesses and the base alone.
  pub set-Keeps :
      (g : Machine → Machine)
      → ((m : Machine) → ((g m).base_offset ≡ m.base_offset) × ((g m).accesses ≡ m.accesses))
      → Keeps (modify g)
  set-Keeps g same = record {
    keep = λ m v. record {
      at_base = (same m).0 ∙ v.at_base;
      orderly = subst (Orderly w base) (sym (same m).1) v.orderly;
    };
  }

  pub send_byte-Keeps : (fuel byte : ℕ) → Keeps (send_byte w fuel byte)
  send_byte-Keeps fuel byte = record { keep = send_byte-IsOrderly w base far fuel byte }

  pub enable_motor-Keeps : (fuel : ℕ) → Keeps (enable_motor w fuel)
  enable_motor-Keeps fuel = record { keep = enable_motor-IsOrderly w base far fuel }

  pub wait-Keeps : (fuel n : ℕ) → Keeps (wait w fuel n)
  wait-Keeps fuel n = record { keep = wait-IsOrderly w base far fuel n }

  pub readb-Keeps : (port : ℕ) → Keeps (readb w port)
  readb-Keeps port = record { keep = readb-IsOrderly w base far port }

  pub writeb-Keeps : (port val : ℕ) → port ≢ 5 + base → Keeps (writeb port val)
  writeb-Keeps port val ne = record { keep = writeb-IsOrderly w base far port val ne }

  -- A port of the controller, with what is done with its number.
  pub add_offset-Keeps :
      {B : Type 0} (p : FloppyPort) (f : ℕ → Op B)
      → Keeps (f (port_number p + base))
      → Keeps (add_offset p >>= f)
  add_offset-Keeps p f k = record {
    keep = λ m v. rw (add_offset-base w base far p m v) (k.keep m v);
  }

  pub get_time-Keeps : Keeps (get_time w)
  unfolding get_time
  get_time-Keeps = record { keep = looked w base far }

  pub disable_motor-Keeps : Keeps (modify disable_motor)
  disable_motor-Keeps = record { keep = stopped w base far }

  pub msr-Keeps : Keeps (msr w)
  msr-Keeps = record {
    keep = λ m v. rw (msr-read w base far m v) (status_read-IsOrderly w base far m v);
  }

pub ruleset keeps = (
  pure-Keeps, raise-Keeps, out_of_fuel-Keeps, bound, gets-Keeps, attempted, chosen, tried, offered,
  send_byte-Keeps, enable_motor-Keeps, wait-Keeps, readb-Keeps, add_offset-Keeps, get_time-Keeps,
  disable_motor-Keeps, msr-Keeps,
)
