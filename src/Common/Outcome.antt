-- ===== src/Common/Outcome.antt =====
-- What a call ends in: a value, an error, a Rust panic, or fuel that ran out. `Exec` is a call that
-- changes a state and may end in any of these: what was changed before stays changed.
use mathlib.Core.Path.{◌≡◌, refl}
use native.Mathlib.Omega.{arith}
use mathlib.Core.Logic.{◌⊎◌, inl, inr}
use mathlib.Core.Option.{Option, none, some}

pub data Outcome (E A : Type 0) : Type 0 where
  ok : A → Outcome E A
  err : E → Outcome E A
  panic : Outcome E A
  hang : Outcome E A

-- A value or an error.
abbrev pub Settled : {E A : Type 0} → Outcome E A → Type 0
Settled (ok a) = Unit
Settled (err e) = Unit
Settled panic = ⊥
Settled hang = ⊥

-- `map_err`, with which `?` converts an error.
abbrev pub map_err : {E F A : Type 0} → (E → F) → Outcome E A → Outcome F A
map_err f (ok a) = ok a
map_err f (err e) = err (f e)
map_err f panic = panic
map_err f hang = hang

abbrev pub Exec : Type 0 → Type 0 → Type 0 → Type 0
Exec S E A = S → Outcome E A × S

module _ {S E : Type 0} where
  abbrev pub pure : {A : Type 0} → A → Exec S E A
  pure a s = (ok a, s)

  abbrev pub raise : {A : Type 0} → E → Exec S E A
  raise e s = (err e, s)

  abbrev pub crash : {A : Type 0} → Exec S E A
  crash s = (panic, s)

  abbrev pub continue : {A B : Type 0} → Outcome E A → (A → Exec S E B) → Exec S E B
  continue (ok a) f s = f a s
  continue (err e) f s = (err e, s)
  continue panic f s = (panic, s)
  continue hang f s = (hang, s)

  infixl 5 ◌>>=◌ ◌>>◌
  abbrev pub ◌>>=◌ : {A B : Type 0} → Exec S E A → (A → Exec S E B) → Exec S E B
  ◌>>=◌ m f s = let (r, s') = m s in continue r f s'

  abbrev pub ◌>>◌ : {A B : Type 0} → Exec S E A → Exec S E B → Exec S E B
  m >> k = m >>= λ _. k

  -- An effect that cannot fail.
  abbrev pub modify : (S → S) → Exec S E (Unit {0})
  modify f s = (ok tt, f s)

  abbrev pub gets : {A : Type 0} → (S → A) → Exec S E A
  gets f s = (ok (f s), s)

  -- `ok_or`, then `?`.
  abbrev pub or_raise : {A : Type 0} → Option A → E → Exec S E A
  or_raise none e = raise e
  or_raise (some a) e = pure a

abbrev pub with_err : {S E F A : Type 0} → (E → F) → Exec S E A → Exec S F A
with_err f m s = let (r, s') = m s in (map_err f r, s')

module _ {S E F A : Type 0} where
  abbrev pub as_value : Outcome E A → Exec S F (E ⊎ A)
  as_value (ok a) s = (ok (inr a), s)
  as_value (err e) s = (ok (inl e), s)
  as_value panic s = (panic, s)
  as_value hang s = (hang, s)

  -- The result of a call as a value, as `match`, `if let Err` and `is_err` see it.
  abbrev pub attempt : Exec S E A → Exec S F (E ⊎ A)
  attempt m s = let (r, s') = m s in as_value r s'

abbrev pub out_of_fuel : {S E A : Type 0} → Exec S E A
out_of_fuel s = (hang, s)

-- What holds after a bind that returned: its first part did.
pub bound_ok :
    {S E A B : Type 0} (P : S → Type 0) (r : Outcome E A) (f : A → Exec S E B) (s : S) (b : B)
    → (continue r f s).0 ≡ ok b
    → ((a : A) → r ≡ ok a → (f a s).0 ≡ ok b → P (f a s).1)
    → P (continue r f s).1
bound_ok P (ok a) f s b e h = h a refl e
bound_ok P (err x) f s b e h = absurd (ground (arith, e))
bound_ok P panic f s b e h = absurd (ground (arith, e))
bound_ok P hang f s b e h = absurd (ground (arith, e))
