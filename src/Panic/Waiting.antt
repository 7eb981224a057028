-- ===== src/Panic/Waiting.antt =====
-- What a panic does after its texts: nothing to the speaker or the floppy controller.
use sunflower.Common.{
  ◌==◌, if◌then◌else◌, All, ℕ, zero, suc, ◌≡◌, refl, sym, ap, subst, ◌∙◌, ◌⊎◌, inl, inr, Bool, true,
  false, List, [], ◌∷◌, ◌++◌, arith,
}
use sunflower.Common.Outcome.{Outcome, ok, err, panic, hang}
use sunflower.Floppy.Machine.{Access, wrote, read_from, looked_at_clock, World, Machine, readb}
use sunflower.Vga.Screen.{Screen}
use sunflower.Vga.Cursor.{port_selector_c, port_register_c, update_visual_pos}
use sunflower.Vga.Valid.{IsValid, Returns}
use sunflower.Vga.Valid.Printed.{update_visual_pos_id}
use sunflower.Speaker.Quiet.{IsQuiet}
use sunflower.Panic.{State, ps2_data, send_writes, wait_for_esc, waited, show_and_wait}

-- A write to the dummy port or the cursor's ports, or a read of the scancode.
abbrev pub IsAside : Access → Type 0
IsAside (wrote port val) = (port ≡ 0x80) ⊎ (port ≡ port_selector_c) ⊎ (port ≡ port_register_c)
IsAside (read_from port) = port ≡ ps2_data
IsAside looked_at_clock = ⊥

-- The machine after such accesses alone.
pub record Idles (m m' : Machine) : Type 0 where
  pub later : List Access
  pub aside : All IsAside later
  pub accesses : m'.accesses ≡ later ++ m.accesses
  pub motor : m'.motor_state ≡ m.motor_state

aside-IsQuiet : (later a : List Access) → All IsAside later → IsQuiet a → IsQuiet (later ++ a)
aside-IsQuiet [] a v q = q
aside-IsQuiet (wrote port val ∷ later) a (p, v) q =
    let ih = aside-IsQuiet later a v q in
    let ne : (port == 0x61) ≡ false = elim p [
      | inl e ↦ ground (arith, e)
      | inr (inl e) ↦ ground (arith, e)
      | inr (inr e) ↦ ground (arith, e)
    ] in
    rw ne ih
aside-IsQuiet (read_from port ∷ later) a (p, v) q = aside-IsQuiet later a v q
aside-IsQuiet (looked_at_clock ∷ later) a (p, v) q = elim p [ ]

pub Idles-IsQuiet : (m m' : Machine) → Idles m m' → IsQuiet m.accesses → IsQuiet m'.accesses
Idles-IsQuiet m m' i q = subst IsQuiet (sym i.accesses) (aside-IsQuiet i.later m.accesses i.aside q)

idle : (m : Machine) → Idles m m
idle m = record { later = []; aside = tt; accesses = refl; motor = refl }

-- One more port, behind the dummy write.
accessed :
    (m m' : Machine) (x : Access)
    → IsAside x
    → Idles m m'
    → Idles m (record m' { accesses = x ∷ wrote 0x80 0 ∷ m'.accesses })
accessed m m' x v i = record {
  later = x ∷ wrote 0x80 0 ∷ i.later;
  aside = (v, (inl refl, i.aside));
  accesses = ap (λ a. x ∷ wrote 0x80 0 ∷ a) i.accesses;
  motor = i.motor;
}

cursor-Idles : (m : Machine) (s : Screen) → Idles m (send_writes (update_visual_pos s).1 m)
unfolding send_writes update_visual_pos
cursor-Idles m s = accessed m _ _ (inr (inr refl)) (
    accessed m _ _ (inr (inl refl))
      (accessed m _ _ (inr (inr refl)) (accessed m _ _ (inr (inl refl)) (idle m))))

-- It has restarted the device, or waits.
abbrev pub IsWaiting : Outcome ⊥ (Unit {0}) → Type 0
IsWaiting (ok u) = Unit
IsWaiting (err e) = ⊥
IsWaiting panic = ⊥
IsWaiting hang = Unit

module _ (w : World) where
  chosen-Idles :
      (b : Bool) (m m' : Machine) (rest : Bool × Machine)
      → Idles m m'
      → Idles m rest.1
      → Idles m (if b then (true, m') else rest).1
  chosen-Idles true m m' rest i j = i
  chosen-Idles false m m' rest i j = j

  wait_for_esc-Idles :
      (rounds fuel : ℕ) (m m' : Machine) → Idles m m' → Idles m (wait_for_esc w fuel rounds m').1
  unfolding wait_for_esc readb
  wait_for_esc-Idles zero fuel m m' i = i
  wait_for_esc-Idles (suc n) fuel m m' i =
      let j = accessed m m' (read_from ps2_data) refl i in
      chosen-Idles _ m _ _ j (wait_for_esc-Idles n fuel m _ j)

  waited-IsWaiting : (fuel : ℕ) (b : Bool) → IsWaiting (waited w fuel b)
  waited-IsWaiting fuel true = tt
  waited-IsWaiting fuel false = tt

  -- From texts that were printed on a valid screen.
  pub show_and_wait_lem :
      (fuel rounds : ℕ) (s : State) (o : Outcome ⊥ Screen)
      → Returns true o
      → let r = show_and_wait w fuel rounds s o in
        IsWaiting r.0
        × (o ≡ ok r.1.screen)
        × IsValid r.1.screen
        × (r.1.screen.allow_row_0 ≡ true)
        × Idles s.machine r.1.machine
  show_and_wait_lem fuel rounds s (ok shown) (v, a) =
      let moved = update_visual_pos_id shown v in
      let m = send_writes (update_visual_pos shown).1 s.machine in
      (
        waited-IsWaiting fuel (wait_for_esc w fuel rounds m).0,
        ap ok (sym moved),
        subst IsValid (sym moved) v,
        ap (λ s'. s'.allow_row_0) moved ∙ a,
        wait_for_esc-Idles rounds fuel s.machine m (cursor-Idles s.machine shown),
      )
  show_and_wait_lem fuel rounds s (err e) h = elim h [ ]
  show_and_wait_lem fuel rounds s panic h = elim h [ ]
  show_and_wait_lem fuel rounds s hang h = elim h [ ]

  pub show_and_wait-panics :
      (fuel rounds : ℕ) (s : State) (o : Outcome ⊥ Screen)
      → (show_and_wait w fuel rounds s o).1.panics ≡ s.panics
  show_and_wait-panics fuel rounds s (ok shown) = refl
  show_and_wait-panics fuel rounds s (err e) = refl
  show_and_wait-panics fuel rounds s panic = refl
  show_and_wait-panics fuel rounds s hang = refl
