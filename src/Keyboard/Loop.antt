-- ===== src/Keyboard/Loop.antt =====
-- `kbd_poll_loop` and `kbd_wait_for_response` of kernel/src/interrupts.rs, on the poll, the scancode
-- buffer and the screen.
pub mod Steady
pub mod Stale
use sunflower.Common.{◌==◌, if◌then◌else◌, ℕ, ◌%◌, Bool, Option, none, some, List, [], ◌∷◌, ◌++◌}
use sunflower.Common.Outcome.{Outcome, ok, panic, hang}
use sunflower.Common.Text.{codes}
use sunflower.Vga.Screen.{Screen}
use sunflower.Vga.Cursor.{update_visual_pos}
use sunflower.Vga.Print.{black, white, bind, write_str}
use sunflower.Vga.Valid.Run.{perform}
use sunflower.Keyboard.Ring.{Ring, kbd_handler, wait_for_response}
use sunflower.Keyboard.Keys.{Effect, screen, play_song, badbug, triple_fault}
use sunflower.Keyboard.Poll.{Decoder, Driver, Config, poll_keyboard}

-- What an effect does to the screen: a song leaves it, and a restart never returns.
abbrev pub do_effect : Effect → Screen → Outcome ⊥ Screen
do_effect (screen r) s = perform r s
do_effect play_song s = ok s
do_effect badbug s = panic
do_effect triple_fault s = hang

unfoldable pub do_effects : List Effect → Screen → Outcome ⊥ Screen
do_effects [] s = ok s
do_effects (e ∷ es) s = bind (do_effect e s) (do_effects es)

-- The scancodes that come until `hlt` ends, and the ticks then.
pub record Round : Type 0 where
  pub scancodes : List ℕ
  pub time : ℕ

unfoldable pub deliver : Bool → List ℕ → Ring → Ring
unfolding kbd_handler
deliver kbd_init [] r = r
deliver kbd_init (scancode ∷ later) r = deliver kbd_init later (kbd_handler kbd_init scancode r)

abbrev pub every_tenth : ℕ → Screen → Screen
every_tenth time s = if time % 10 == 0 then (update_visual_pos s).0 else s

module _ {K : Type 0} (dec : Decoder K) (cfg : Config) (kbd_init : Bool) where
  abbrev pub next_driver : Round → Driver K → Driver K
  next_driver round d =
      let d' = (poll_keyboard dec cfg d).1 in
      record d' { ring = deliver kbd_init round.scancodes d'.ring }

  -- The loop for as many rounds.
  unfoldable pub poll_loop : List Round → Driver K → Screen → Outcome ⊥ Screen
  unfolding poll_keyboard do_effects deliver update_visual_pos
  poll_loop [] d s = ok s
  poll_loop (round ∷ rounds) d s =
      bind (do_effects (poll_keyboard dec cfg d).0 s)
        (λ s'. poll_loop rounds (next_driver round d) (every_tenth round.time s'))

abbrev pub question : List ℕ → Bool → List ℕ
question prompt enter_eq_y = prompt ++ (if enter_eq_y then codes "? [Y/n] " else codes "? [y/N] ")

abbrev pub answered : Outcome ⊥ Screen → Option Bool → Option Bool × Outcome ⊥ Screen
answered asked none = (none, asked)
answered asked (some result) =
    (some result, bind asked (write_str (if result then codes "y\n" else codes "n\n") white black))

-- The result and the screen, on the successive values of `PREV_RESPONSE`.
unfoldable pub kbd_wait_for_response :
    List ℕ → Bool → List ℕ → Screen → Option Bool × Outcome ⊥ Screen
unfolding wait_for_response update_visual_pos
kbd_wait_for_response prompt enter_eq_y prevs s =
    let asked =
      bind (write_str (question prompt enter_eq_y) white black s)
        (λ s'. ok (update_visual_pos s').0) in
    answered asked (wait_for_response enter_eq_y prevs)
