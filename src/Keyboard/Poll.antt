-- ===== src/Keyboard/Poll.antt =====
-- `poll_keyboard` and `keyboard_input` of kernel/src/interrupts/keyboard.rs. The decoder of the
-- pc_keyboard crate is a parameter.
pub mod Safe
use sunflower.Common.{ℕ, Bool, Option, none, some, List, [], ◌++◌}
use sunflower.Common.Outcome.{}
use sunflower.Keyboard.Ring.{Ring, next_scancode}
use sunflower.Keyboard.Keys.{
  KeyCode, KeyEvent, Modifiers, DecodedKey, raw_key, unicode, Held, note_held, Effect, Texts,
  check_syscmd, check_arrows, print_char,
}

-- `pc_keyboard::Keyboard`; an error of `add_byte` is no event.
pub record Decoder (K : Type 0) : Type 0 where
  pub clear : K → K
  pub add_byte : ℕ → K → Option KeyEvent × K
  pub process_keyevent : KeyEvent → K → Option DecodedKey × K
  pub get_modifiers : K → Modifiers

pub record Driver (K : Type 0) : Type 0 where
  pub ring : Ring
  pub held : Held
  pub kbd : K

-- The cargo feature and the texts.
pub record Config : Type 0 where
  pub disable_enter : Bool
  pub texts : Texts

module _ {K : Type 0} (dec : Decoder K) (cfg : Config) where
  abbrev pub decoded : KeyCode → Modifiers → Held → Option DecodedKey → List Effect
  decoded code mods h none = []
  decoded code mods h (some (raw_key key)) = check_syscmd cfg.texts code mods h ++ check_arrows key
  decoded code mods h (some (unicode key)) =
      check_syscmd cfg.texts code mods h ++ print_char cfg.disable_enter key mods h

  unfoldable pub keyboard_input : ℕ → KeyEvent → Driver K → List Effect × Driver K
  keyboard_input scancode event d =
      let h = note_held scancode event.state d.held in
      let (key, kbd') = dec.process_keyevent event d.kbd in
      (decoded event.code (dec.get_modifiers kbd') h key, record d { held = h; kbd = kbd' })

  abbrev pub on_event : ℕ → Driver K → Option KeyEvent → List Effect × Driver K
  on_event scancode d none = ([], d)
  on_event scancode d (some event) = keyboard_input scancode event d

  abbrev pub on_scancode : Driver K → Option ℕ → List Effect × Driver K
  on_scancode d none = ([], record d { kbd = dec.clear d.kbd })
  on_scancode d (some scancode) =
      let (event, kbd') = dec.add_byte scancode d.kbd in
      on_event scancode (record d { kbd = kbd' }) event

  unfoldable pub poll_keyboard : Driver K → List Effect × Driver K
  poll_keyboard d =
      let (scancode, ring') = next_scancode d.ring in
      on_scancode (record d { ring = ring' }) scancode
