-- ===== src/Keyboard/Start/Ended.antt =====
-- However the keyboard's start ends, it returns with interrupts let in.
use Prim.Native.String.{String}
use sunflower.Common.{if◌then◌else◌, ◌≡◌, refl, Bool, true, false, some}
use sunflower.Common.Outcome.{Outcome, Settled, continue, ◌>>◌, ok, err}
use sunflower.Keyboard.Start.{
  Ps2Command, disable_keyboard, disable_mouse, read_data, test_controller, test_keyboard, echo,
  set_scancode_set, set_num_lock_led, reset_and_self_test, KbdInitError, State, Op, Controller,
  set_config, ask, parse_err, start, init,
}

abbrev LetsIn : Outcome KbdInitError (Unit {0}) × State → Type 0
LetsIn r = Settled r.0 × (r.1.lets_in ≡ true)

-- A call that returns with interrupts let in, where it was called so.
abbrev KeepsIn : Op (Unit {0}) → Type 0
KeepsIn k = (s : State) → s.lets_in ≡ true → LetsIn (k s)

branched :
    (b : Bool) (e : KbdInitError) (k : Op (Unit {0})) (s : State)
    → s.lets_in ≡ true
    → KeepsIn k
    → LetsIn (continue (if b then ok tt else err e) (λ _. k) s)
branched true e k s v h = h s v
branched false e k s v h = (tt, v)

module _ (succeeds : Controller) where
  asked-KeepsIn :
      (msg : String) (cmd : Ps2Command) (k : Op (Unit {0}))
      → KeepsIn k
      → KeepsIn (parse_err succeeds msg cmd >> k)
  unfolding parse_err
  asked-KeepsIn msg cmd k h s v =
      branched (succeeds s.asked cmd) (record { msg = msg; kbd_err = some cmd }) k (ask cmd s) v h

  start-KeepsIn : KeepsIn (start succeeds)
  unfolding start
  start-KeepsIn = asked-KeepsIn _ disable_keyboard _ (
      asked-KeepsIn _ disable_mouse _ (λ s v.
        asked-KeepsIn _ test_controller _
          (asked-KeepsIn _ test_keyboard _ (
            asked-KeepsIn _ set_config _ (
              asked-KeepsIn _ echo _ (
                asked-KeepsIn _ (set_scancode_set 2) _ (
                  asked-KeepsIn _ set_num_lock_led _
                    (asked-KeepsIn _ reset_and_self_test _ (λ s v. (tt, v))))))))
          (ask read_data s) v))

  pub init-Settled :
      (pic_init : Bool) (s : State)
      → Settled (init succeeds pic_init s).0 × ((init succeeds pic_init s).1.lets_in ≡ true)
  unfolding init
  init-Settled true s = start-KeepsIn (record s { lets_in = true }) refl
  init-Settled false s = (tt, refl)
