-- ===== src/Floppy/Sends.antt =====
-- What a controller is sent: operations that return and have written certain bytes to the FIFO.
pub mod Ready
use sunflower.Common.{
  ltb, ◌==◌, if◌then◌else◌, ℕ, ◌+◌, ◌/◌, ◌%◌, ◌^◌, ◌<◌, ◌≡◌, refl, sym, ap, subst, ◌∙◌, ◌≢◌, inr,
  true, some, List, [], ◌∷◌, ◌++◌, arith,
}
use sunflower.Common.Outcome.{
  Outcome, pure, continue, ◌>>=◌, as_value, attempt, ok, err, panic, hang,
}
use sunflower.Floppy.Machine.{
  timeout, FloppyError, Access, wrote, read_from, looked_at_clock, World, Machine, Op,
}
use sunflower.Floppy.Motor.{motor_off, motor_on, motor_disabling, enable_motor}

-- The bytes written to the FIFO, the latest first.
abbrev pub fifo_writes : ℕ → List Access → List ℕ
fifo_writes base [] = []
fifo_writes base (wrote p v ∷ a) =
    if p == 5 + base then v ∷ fifo_writes base a else fifo_writes base a
fifo_writes base (read_from p ∷ a) = fifo_writes base a
fifo_writes base (looked_at_clock ∷ a) = fifo_writes base a

-- The first of the bytes first.
abbrev pub onto : List ℕ → List ℕ → List ℕ
onto [] before = before
onto (b ∷ bytes) before = onto bytes (b ∷ before)

onto-append : (xs ys before : List ℕ) → onto (xs ++ ys) before ≡ onto ys (onto xs before)
onto-append [] ys before = refl
onto-append (x ∷ xs) ys before = onto-append xs ys (x ∷ before)

pub nil_right : (xs : List ℕ) → xs ++ [] ≡ xs
nil_right [] = refl
nil_right (x ∷ xs) = ap (λ l. x ∷ l) (nil_right xs)

-- The status register always says that a byte can be written.
abbrev pub IsReady : World → ℕ → Type 0
IsReady w base = (a : List Access) → w.answer a (4 + base) % 256 / 2 ^ 6 ≡ 0b10

-- Two looks at the clock in a row lie within the timeout.
abbrev pub IsPrompt : World → Type 0
IsPrompt w = (a : List Access) → w.clock (looked_at_clock ∷ a) < w.clock a + timeout

-- The base is set, and the motor is on or not yet off.
pub record IsAwake (base : ℕ) (m : Machine) : Type 0 where
  pub at_base : m.base_offset ≡ some base
  pub awake : m.motor_state ≢ motor_off

unfoldable pub kept_on : Machine → Machine
kept_on m = record m {
  motor_state = if m.motor_state == motor_disabling then motor_on else m.motor_state;
}

-- The motor of such a machine is kept on without a wait.
pub enable_motor-awake :
    (w : World) (base fuel : ℕ) (m : Machine)
    → IsAwake base m
    → enable_motor w fuel m ≡ (ok tt, kept_on m)
unfolding enable_motor kept_on
enable_motor-awake w base fuel m v = ground (arith, v.awake)

pub in_time :
    (w : World)
    → IsPrompt w
    → (a : List Access) → ltb (w.clock (looked_at_clock ∷ a)) (w.clock a + timeout) ≡ true
in_time w prompt a = ground (arith, prompt a)

module _ (base : ℕ) where
  -- The call returned this value after it had written these bytes.
  pub record Sent {A : Type 0} (m : Machine) (a : A) (bytes : List ℕ)
      (r : Outcome FloppyError A × Machine) : Type 0 where
    pub result : r.0 ≡ ok a
    pub still_awake : IsAwake base r.1
    pub written : fifo_writes base r.1.accesses ≡ onto bytes (fifo_writes base m.accesses)

  pub record Sends {A : Type 0} (o : Op A) (a : A) (bytes : List ℕ) : Type 0 where
    pub sends : (m : Machine) → IsAwake base m → Sent m a bytes (o m)

  then-Sent :
      {A B : Type 0} (m : Machine) (a : A) (b : B) (xs ys : List ℕ)
      (r : Outcome FloppyError A × Machine) (f : A → Op B)
      → Sent m a xs r
      → Sends (f a) b ys
      → Sent m b (xs ++ ys) (continue r.0 f r.1)
  then-Sent m a b xs ys (ok a', m') f h k =
      let same : a ≡ a' = ground (arith, h.result) in
      let next = k.sends m' h.still_awake in
      subst (λ a'. Sent m b (xs ++ ys) (f a' m')) same
        (record {
          result = next.result;
          still_awake = next.still_awake;
          written =
              next.written
              ∙ ap (onto ys) h.written
              ∙ sym (onto-append xs ys (fifo_writes base m.accesses));
        })
  then-Sent m a b xs ys (err e, m') f h k = absurd (ground (arith, h.result))
  then-Sent m a b xs ys (panic, m') f h k = absurd (ground (arith, h.result))
  then-Sent m a b xs ys (hang, m') f h k = absurd (ground (arith, h.result))

  pub then-Sends :
      {A B : Type 0} (o : Op A) (f : A → Op B) (a : A) (b : B) (xs ys : List ℕ)
      → Sends o a xs
      → Sends (f a) b ys
      → Sends (o >>= f) b (xs ++ ys)
  then-Sends o f a b xs ys h k = record {
    sends = λ m v. then-Sent m a b xs ys (o m) f (h.sends m v) k;
  }

  pub pure-Sends : {A : Type 0} (a : A) → Sends (pure a) a []
  pure-Sends a = record { sends = λ m v. record { result = refl; still_awake = v; written = refl } }

  as_value-Sent :
      {A : Type 0} (m : Machine) (a : A) (bytes : List ℕ) (r : Outcome FloppyError A × Machine)
      → Sent m a bytes r
      → Sent m (inr a) bytes (as_value {F = FloppyError} r.0 r.1)
  as_value-Sent m a bytes (ok a', m') h = record {
    result = ap (λ o. (as_value {F = FloppyError} o m').0) h.result;
    still_awake = h.still_awake;
    written = h.written;
  }
  as_value-Sent m a bytes (err e, m') h = absurd (ground (arith, h.result))
  as_value-Sent m a bytes (panic, m') h = absurd (ground (arith, h.result))
  as_value-Sent m a bytes (hang, m') h = absurd (ground (arith, h.result))

  pub attempted :
      {A : Type 0} (o : Op A) (a : A) (bytes : List ℕ)
      → Sends o a bytes
      → Sends (attempt {F = FloppyError} o) (inr a) bytes
  attempted o a bytes h = record { sends = λ m v. as_value-Sent m a bytes (o m) (h.sends m v) }
