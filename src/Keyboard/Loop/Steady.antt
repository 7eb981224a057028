-- ===== src/Keyboard/Loop/Steady.antt =====
-- The poll loop keeps the screen.
use sunflower.Common.{
  ◌==◌, Bool-cases, ℕ, ◌%◌, ◌≡◌, refl, sym, subst, inl, inr, Bool, true, false, List, [], ◌∷◌,
  arith,
}
use sunflower.Common.Outcome.{Outcome, ok, err, panic, hang}
use sunflower.Vga.Screen.{Screen}
use sunflower.Vga.Valid.{IsValid, Returns, onward}
use sunflower.Vga.Print.{bind}
use sunflower.Vga.Valid.Run.{perform, run, moved-Returns}
use sunflower.Keyboard.Keys.{Effect, screen, play_song, badbug, triple_fault}
use sunflower.Keyboard.Poll.{Decoder, Driver, Config, poll_keyboard}
use sunflower.Keyboard.Poll.Safe.{commands_on, all_screen, requests, poll_keyboard-safe}
use sunflower.Keyboard.Loop.{Round, do_effects, every_tenth, next_driver, poll_loop}

bind_same :
    (o : Outcome ⊥ Screen) (f g : Screen → Outcome ⊥ Screen)
    → ((s : Screen) → f s ≡ g s)
    → bind o f ≡ bind o g
bind_same (ok s) f g h = h s
bind_same (err e) f g h = refl
bind_same panic f g h = refl
bind_same hang f g h = refl

effects_run :
    (es : List Effect) (s : Screen) → all_screen es ≡ true → do_effects es s ≡ run (requests es) s
unfolding do_effects run
effects_run [] s e = refl
effects_run (screen r ∷ es) s e =
    bind_same (perform r s) (do_effects es) (run (requests es)) (λ s'. effects_run es s' e)
effects_run (play_song ∷ es) s e = absurd (ground (arith, e))
effects_run (badbug ∷ es) s e = absurd (ground (arith, e))
effects_run (triple_fault ∷ es) s e = absurd (ground (arith, e))

tenth-Returns :
    (time : ℕ) (s : Screen)
    → IsValid s
    → s.allow_row_0 ≡ false
    → Returns false (ok (every_tenth time s))
tenth-Returns time s v a = elim (Bool-cases (time % 10 == 0)) [
  | inl e ↦ rw e (moved-Returns s v a)
  | inr e ↦ rw e (v, a)
]

module _ {K : Type 0} (dec : Decoder K) (cfg : Config) (kbd_init : Bool) where
  -- At the end of each poll neither SysRq nor Ctrl with Alt are held.
  abbrev pub StaysOff : List Round → Driver K → Type 0
  StaysOff [] d = Unit
  StaysOff (round ∷ rounds) d =
      let d' = (poll_keyboard dec cfg d).1 in
      (commands_on (dec.get_modifiers d'.kbd) d'.held ≡ false)
      × StaysOff rounds (next_driver dec cfg kbd_init round d)

  -- With any decoder and from a valid screen with row 0 for the topbar: however many rounds the
  -- poll loop runs, whatever scancodes come between them and whenever the clock ticks, while
  -- neither SysRq nor Ctrl with Alt are held at the end of a poll, no round panics or restarts,
  -- and the screen stays valid with row 0 for the topbar.
  pub poll_loop-Returns :
      (rounds : List Round) (d : Driver K) (s : Screen)
      → IsValid s
      → s.allow_row_0 ≡ false
      → StaysOff rounds d
      → Returns false (poll_loop dec cfg kbd_init rounds d s)
  unfolding poll_loop
  poll_loop-Returns [] d s v a off = (v, a)
  poll_loop-Returns (round ∷ rounds) d s v a (off, later) =
      let es = (poll_keyboard dec cfg d).0 in
      let (quiet, polled) = poll_keyboard-safe dec cfg d s v a off in
      onward (do_effects es s) _ (subst (Returns false) (sym (effects_run es s quiet)) polled)
        (λ s' v' a'.
          let (w, b) = tenth-Returns round.time s' v' a' in
          poll_loop-Returns rounds (next_driver dec cfg kbd_init round d)
            (every_tenth round.time s') w b later)
