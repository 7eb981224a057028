-- ===== src/Keyboard/Poll/Safe.antt =====
-- What one poll of the keyboard can do to the rest of the kernel.
use sunflower.Common.{
  if◌then◌else◌, ℕ, ◌≡◌, refl, Bool, true, false, Option, none, some, List, [], ◌∷◌, arith,
}
use sunflower.Common.Outcome.{}
use sunflower.Vga.Screen.{Screen}
use sunflower.Vga.Valid.{IsValid, Returns}
use sunflower.Vga.Valid.Run.{Request, run, run_lem}
use sunflower.Keyboard.Ring.{next_scancode}
use sunflower.Keyboard.Keys.{
  KeyCode, f1, f2, f3, f4, f5, f6, f7, arrow_left, arrow_right, arrow_up, arrow_down, other_key,
  KeyEvent, Modifiers, DecodedKey, raw_key, unicode, Held, Effect, screen, play_song, badbug,
  triple_fault, Texts, check_syscmd, check_arrows, print_char,
}
use sunflower.Keyboard.Poll.{
  Decoder, Driver, Config, decoded, keyboard_input, on_event, on_scancode, poll_keyboard,
}

abbrev is_screen : Effect → Bool
is_screen (screen r) = true
is_screen play_song = false
is_screen badbug = false
is_screen triple_fault = false

abbrev pub all_screen : List Effect → Bool
all_screen [] = true
all_screen (e ∷ es) = if is_screen e then all_screen es else false

abbrev pub requests : List Effect → List Request
requests [] = []
requests (screen r ∷ es) = r ∷ requests es
requests (play_song ∷ es) = requests es
requests (badbug ∷ es) = requests es
requests (triple_fault ∷ es) = requests es

abbrev pub commands_on : Modifiers → Held → Bool
commands_on mods h = if h.sysrq then true else if mods.is_ctrl then mods.is_alt else false

check_arrows-screen : (key : KeyCode) → all_screen (check_arrows key) ≡ true
unfolding check_arrows
check_arrows-screen f1 = refl
check_arrows-screen f2 = refl
check_arrows-screen f3 = refl
check_arrows-screen f4 = refl
check_arrows-screen f5 = refl
check_arrows-screen f6 = refl
check_arrows-screen f7 = refl
check_arrows-screen arrow_left = refl
check_arrows-screen arrow_right = refl
check_arrows-screen arrow_up = refl
check_arrows-screen arrow_down = refl
check_arrows-screen (other_key n) = refl

print_char-screen :
    (enter : Bool) (key : ℕ) (mods : Modifiers) (h : Held)
    → all_screen (print_char enter key mods h) ≡ true
unfolding print_char
print_char-screen enter key mods h = ground arith

check_syscmd-off :
    (t : Texts) (key : KeyCode) (mods : Modifiers) (h : Held)
    → commands_on mods h ≡ false
    → check_syscmd t key mods h ≡ []
unfolding check_syscmd
check_syscmd-off t key mods h off = rw off refl

module _ {K : Type 0} (dec : Decoder K) (cfg : Config) where
  decoded-screen :
      (code : KeyCode) (mods : Modifiers) (h : Held) (key : Option DecodedKey)
      → commands_on mods h ≡ false
      → all_screen (decoded dec cfg code mods h key) ≡ true
  decoded-screen code mods h none off = refl
  decoded-screen code mods h (some (raw_key key)) off =
      rw (check_syscmd-off cfg.texts code mods h off) (check_arrows-screen key)
  decoded-screen code mods h (some (unicode key)) off =
      rw (check_syscmd-off cfg.texts code mods h off)
        (print_char-screen cfg.disable_enter key mods h)

  on_event-screen :
      (scancode : ℕ) (d : Driver K) (event : Option KeyEvent)
      → commands_on
          (dec.get_modifiers (on_event dec cfg scancode d event).1.kbd)
          (on_event dec cfg scancode d event).1.held
        ≡ false
      → all_screen (on_event dec cfg scancode d event).0 ≡ true
  unfolding keyboard_input
  on_event-screen scancode d none off = refl
  on_event-screen scancode d (some event) off =
      decoded-screen event.code _ _ (dec.process_keyevent event d.kbd).0 off

  on_scancode-screen :
      (d : Driver K) (scancode : Option ℕ)
      → commands_on
          (dec.get_modifiers (on_scancode dec cfg d scancode).1.kbd)
          (on_scancode dec cfg d scancode).1.held
        ≡ false
      → all_screen (on_scancode dec cfg d scancode).0 ≡ true
  on_scancode-screen d none off = refl
  on_scancode-screen d (some scancode) off =
      on_event-screen scancode (record d { kbd = (dec.add_byte scancode d.kbd).1 })
        (dec.add_byte scancode d.kbd).0 off

  -- With any decoder: if, when a poll of the keyboard ends, neither SysRq nor Ctrl with Alt are held,
  -- then all that the poll asked for are requests to the screen (no panic, reset or song), and they
  -- leave a valid screen valid.
  pub poll_keyboard-safe :
      (d : Driver K) (s : Screen)
      → IsValid s
      → s.allow_row_0 ≡ false
      → commands_on
          (dec.get_modifiers (poll_keyboard dec cfg d).1.kbd)
          (poll_keyboard dec cfg d).1.held
        ≡ false
      → (all_screen (poll_keyboard dec cfg d).0 ≡ true)
        × Returns false (run (requests (poll_keyboard dec cfg d).0) s)
  unfolding poll_keyboard
  poll_keyboard-safe d s v a off = (
    on_scancode-screen (record d { ring = (next_scancode d.ring).1 }) (next_scancode d.ring).0 off,
    run_lem (requests (poll_keyboard dec cfg d).0) s v a,
  )
