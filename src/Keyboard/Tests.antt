-- ===== src/Keyboard/Tests.antt =====
-- Instances of the theorems about the keyboard.
use sunflower.Common.{◌==◌, ℕ, ◌≡◌, refl, true, false, none, some, List, [], ◌∷◌, ◌++◌, arith}
use sunflower.Common.Outcome.{}
use sunflower.Vga.Tests.{blank, blank-IsValid}
use sunflower.Vga.Valid.{Returns}
use sunflower.Keyboard.Ring.{Ring, fresh, kbd_handler, next_scancode}
use sunflower.Keyboard.Ring.Fifo.{
  Event, interrupt, poll, received, serve, unread, queue, IsOrdered, Agrees, serve_refines,
  poll-wrapped,
}
use sunflower.Keyboard.Keys.{
  other_key, KeyState, key_down, key_up, unicode, lshift_scancode, rshift_scancode, is_sysrq,
  note_held, shown,
}
use sunflower.Keyboard.Keys.Shift.{
  encoded, held, note_all, note_all-held, plain_form, shown-plain_form,
}
use sunflower.Vga.Print.{black, white, write_str}
use sunflower.Keyboard.Loop.{Round, question, deliver, poll_loop, kbd_wait_for_response}
use sunflower.Keyboard.Loop.Steady.{StaysOff, poll_loop-Returns}
use sunflower.Keyboard.Loop.Stale.{enter_key, typed, answer_text, response-stale}
use sunflower.Keyboard.Poll.{Decoder, Driver, Config, keyboard_input, poll_keyboard}

fresh-IsOrdered : IsOrdered fresh
fresh-IsOrdered = record { cells_256 = refl; behind = omega arith; unwrapped = omega arith }

abbrev typed_events : List Event
typed_events = interrupt 0x1C ∷ poll ∷ interrupt 0x32 ∷ interrupt 0x21 ∷ poll ∷ poll ∷ poll ∷ []

serve_example : Agrees (serve typed_events fresh) (queue typed_events (unread fresh))
unfolding received
serve_example = serve_refines typed_events fresh fresh-IsOrdered (omega arith)

abbrev at_end : Ring
at_end = record fresh { rptr = 250; wptr = 255 }

poll-wrapped_example :
    ((next_scancode (kbd_handler true 0x1C at_end)).0 ≡ none)
    × (unread (next_scancode (kbd_handler true 0x1C at_end)).1 ≡ [])
poll-wrapped_example = poll-wrapped at_end 0x1C refl

abbrev presses : List (ℕ × KeyState)
presses = (0x12, key_down) ∷ (0x1C, key_down) ∷ (0x59, key_down) ∷ (0x12, key_up) ∷ []

note_all-held_example :
    note_all presses (encoded false false false)
    ≡ encoded
        (held (λ c. c == lshift_scancode) false presses)
        (held (λ c. c == rshift_scancode) false presses)
        (held is_sysrq false presses)
note_all-held_example = note_all-held presses false false false

shown-plain_form_example :
    (plain_form (shown b'%' false true) ≡ plain_form b'%')
    × (shown (plain_form b'%') false true ≡ shown b'%' false true)
shown-plain_form_example = shown-plain_form b'%' false true (omega arith)

-- A decoder that gives the letter of every scancode and has no state.
abbrev letters : Decoder (Unit {0})
letters = record {
  clear = λ k. k;
  add_byte = λ scancode k. (some (record { code = other_key scancode; state = key_down }), k);
  process_keyevent = λ event k. (some (unicode b'a'), k);
  get_modifiers = λ k. record { is_ctrl = false; is_alt = false; capslock = false };
}

abbrev config : Config
config = record {
  disable_enter = false;
  texts = record {
    bar = [];
    sysinfo = [];
    sysinfo_title = [];
    stored = [];
    help = [];
    help_title = [];
  };
}

abbrev driver : Driver (Unit {0})
driver = record { ring = record fresh { wptr = 1 }; held = encoded false false false; kbd = tt }

abbrev rounds : List Round
rounds =
    record { scancodes = 0x1C ∷ 0xF0 ∷ 0x1C ∷ []; time = 9 }
    ∷ record { scancodes = []; time = 10 }
    ∷ []

rounds-StaysOff : StaysOff letters config true rounds driver
unfolding poll_keyboard keyboard_input next_scancode note_held deliver kbd_handler
rounds-StaysOff = (refl, (refl, tt))

poll_loop_example : Returns false (poll_loop letters config true rounds driver blank)
poll_loop_example =
    poll_loop-Returns letters config true rounds driver blank blank-IsValid refl rounds-StaysOff

response-stale_example :
    let prevs = (deliver true (typed enter_key) fresh).prev_response ∷ 0x31 ∷ [] in
    let o = kbd_wait_for_response (b'F' ∷ []) true prevs blank in
    (o.0 ≡ some true)
    × (o.1 ≡ write_str (question (b'F' ∷ []) true ++ answer_text true) white black blank)
    × Returns false o.1
response-stale_example =
    response-stale enter_key (b'F' ∷ []) true fresh (0x31 ∷ []) blank blank-IsValid
