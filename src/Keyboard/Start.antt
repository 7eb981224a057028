-- ===== src/Keyboard/Start.antt =====
-- `init` of kernel/src/interrupts/keyboard.rs. What the ps2 crate's controller is asked is a history;
-- whether it succeeds, which may depend on everything asked before, is an argument.
pub mod Ended
use Prim.Native.String.{String}
use sunflower.Common.{
  if◌then◌else◌, ℕ, ◌≡◌, refl, Bool, true, false, not, Option, none, some, List, [], ◌∷◌, arith,
}
use sunflower.Common.Outcome.{Exec, raise, continue, ◌>>◌, modify, ok, err}

-- The flags of the configuration that are not set.
pub record ControllerConfigFlags : Type 0 where
  pub disable_keyboard_flag : Bool
  pub enable_mouse_interrupt : Bool
  pub enable_translate : Bool

pub data Ps2Command : Type 0 where
  disable_keyboard disable_mouse read_data test_controller test_keyboard : Ps2Command
  write_config : ControllerConfigFlags → Ps2Command
  echo : Ps2Command
  set_scancode_set : ℕ → Ps2Command
  set_num_lock_led reset_and_self_test : Ps2Command

-- The message, and the command whose error it was.
pub record KbdInitError : Type 0 where
  pub msg : String
  pub kbd_err : Option Ps2Command

-- The latest command first, whether interrupts are let in, and `KBD_INIT`.
pub record State : Type 0 where
  pub asked : List Ps2Command
  pub lets_in : Bool
  pub kbd_init : Bool

abbrev pub Op : Type 0 → Type 0
Op A = Exec State KbdInitError A

abbrev pub Controller : Type 0
Controller = List Ps2Command → Ps2Command → Bool

-- All flags but these three.
abbrev pub set_config : Ps2Command
set_config = write_config (record {
  disable_keyboard_flag = false;
  enable_mouse_interrupt = false;
  enable_translate = false;
})

abbrev pub ask : Ps2Command → State → State
ask cmd s = record s { asked = cmd ∷ s.asked }

module _ (succeeds : Controller) where
  unfoldable pub parse_err : String → Ps2Command → Op (Unit {0})
  parse_err msg cmd s = (
    if succeeds s.asked cmd then ok tt else err (record { msg = msg; kbd_err = some cmd }),
    ask cmd s,
  )

  -- Behind the check of the PIC.
  unfoldable pub start : Op (Unit {0})
  unfolding parse_err
  start =
      parse_err "Disable keyboard" disable_keyboard
      >> (parse_err "Disable mouse" disable_mouse
          >> (modify (ask read_data)
              >> (parse_err "Controller test" test_controller
                  >> (parse_err "Keyboard test" test_keyboard
                      >> (parse_err "Set config" set_config
                          >> (parse_err "Keyboard Echo" echo
                              >> (parse_err "Set scancode" (set_scancode_set 2)
                                  >> (parse_err "Set LEDS" set_num_lock_led
                                      >> (parse_err "Reset keyboard" reset_and_self_test
                                          >> modify (λ s. record s { kbd_init = true }))))))))))

  unfoldable pub init : Bool → Op (Unit {0})
  unfolding start
  init pic_init =
      modify (λ s. record s { lets_in = true })
      >> (if not pic_init
          then raise (record { msg = "The PIC ins't init!"; kbd_err = none })
          else start)

  -- Each of the commands succeeded when it was asked for; the flush may fail.
  abbrev pub AllSucceeded : List Ps2Command → Type 0
  AllSucceeded [] = Unit
  AllSucceeded (read_data ∷ asked) = AllSucceeded asked
  AllSucceeded (cmd ∷ asked) = (succeeds asked cmd ≡ true) × AllSucceeded asked

  branch :
      (P : State → Type 0) (b : Bool) (e : KbdInitError) (k : Op (Unit {0})) (s : State)
      → (continue (if b then ok tt else err e) (λ _. k) s).0 ≡ ok tt
      → (b ≡ true → (k s).0 ≡ ok tt → P (k s).1)
      → P (continue (if b then ok tt else err e) (λ _. k) s).1
  branch P true e k s h f = f refl h
  branch P false e k s h f = absurd (ground (arith, h))

  went_on :
      (P : State → Type 0) (msg : String) (cmd : Ps2Command) (k : Op (Unit {0})) (s : State)
      → ((parse_err msg cmd >> k) s).0 ≡ ok tt
      → (succeeds s.asked cmd ≡ true → (k (ask cmd s)).0 ≡ ok tt → P (k (ask cmd s)).1)
      → P ((parse_err msg cmd >> k) s).1
  unfolding parse_err
  went_on P msg cmd k s h f =
      branch P (succeeds s.asked cmd) (record { msg = msg; kbd_err = some cmd }) k (ask cmd s) h f

  abbrev pub unasked : Bool → Bool → State
  unasked lets_in kbd_init = record { asked = []; lets_in = lets_in; kbd_init = kbd_init }

  -- What is asked, the last first.
  abbrev pub whole_start : List Ps2Command
  whole_start =
      reset_and_self_test
      ∷ set_num_lock_led
      ∷ set_scancode_set 2
      ∷ echo
      ∷ set_config
      ∷ test_keyboard
      ∷ test_controller
      ∷ read_data
      ∷ disable_mouse
      ∷ disable_keyboard
      ∷ []

  -- From a controller that was asked nothing before: where `init` returns without an error, the PIC
  -- was initialised, interrupts are let in, the keyboard's flag is set, and the controller was asked
  -- for all of the start in its order, each part with success but perhaps the flush.
  pub init-AllSucceeded :
      (pic_init kbd_init lets_in : Bool)
      → (init pic_init (unasked lets_in kbd_init)).0 ≡ ok tt
      → (pic_init ≡ true)
        × ((init pic_init (unasked lets_in kbd_init)).1
            ≡ record { asked = whole_start; lets_in = true; kbd_init = true })
        × AllSucceeded whole_start
  unfolding init start
  init-AllSucceeded false kbd_init lets_in h = absurd (ground (arith, h))
  init-AllSucceeded true kbd_init lets_in h =
      let P = λ (s : State).
        (s ≡ record { asked = whole_start; lets_in = true; kbd_init = true })
        × AllSucceeded whole_start in
      let (end, all) = went_on P "Disable keyboard" disable_keyboard _ _ h (λ b₁ h₁.
        went_on P "Disable mouse" disable_mouse _ _ h₁ (λ b₂ h₂.
          went_on P "Controller test" test_controller _ _ h₂ (λ b₃ h₃.
            went_on P "Keyboard test" test_keyboard _ _ h₃ (λ b₄ h₄.
              went_on P "Set config" set_config _ _ h₄ (λ b₅ h₅.
                went_on P "Keyboard Echo" echo _ _ h₅ (λ b₆ h₆.
                  went_on P "Set scancode" (set_scancode_set 2) _ _ h₆ (λ b₇ h₇.
                    went_on P "Set LEDS" set_num_lock_led _ _ h₇ (λ b₈ h₈.
                      went_on P "Reset keyboard" reset_and_self_test _ _ h₈ (λ b₉ h₉.
                        (refl, (b₉, (b₈, (b₇, (b₆, (b₅, (b₄, (b₃, (b₂, (b₁, tt))))))))))))))))))) in
      (refl, end, all)
