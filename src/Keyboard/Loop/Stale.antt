-- ===== src/Keyboard/Loop/Stale.antt =====
-- What a question takes for an answer.
use sunflower.Common.{if◌then◌else◌, ℕ, ◌≡◌, refl, Bool, true, false, some, List, [], ◌∷◌, ◌++◌}
use sunflower.Common.Text.{codes}
use sunflower.Vga.Screen.{Screen}
use sunflower.Vga.Print.{black, white, write_str}
use sunflower.Vga.Valid.{IsValid, Returns, write_str-Returns}
use sunflower.Vga.Valid.Printed.{write_str-append, then_moved}
use sunflower.Keyboard.Ring.{
  Ring, kbd_handler, y_scancode, n_scancode, enter_scancode, wait_for_response,
}
use sunflower.Keyboard.Loop.{question, deliver, kbd_wait_for_response}

-- The keys that answer a question.
pub data AnswerKey : Type 0 where
  y_key n_key enter_key : AnswerKey

abbrev pub scancode_of : AnswerKey → ℕ
scancode_of y_key = y_scancode
scancode_of n_key = n_scancode
scancode_of enter_key = enter_scancode

-- The scancodes of a press and a release.
abbrev pub typed : AnswerKey → List ℕ
typed key = scancode_of key ∷ 0xF0 ∷ scancode_of key ∷ []

-- What a key means where Enter means `enter_eq_y`.
abbrev pub meaning : AnswerKey → Bool → Bool
meaning y_key enter_eq_y = true
meaning n_key enter_eq_y = false
meaning enter_key enter_eq_y = enter_eq_y

abbrev pub answer_text : Bool → List ℕ
answer_text result = if result then codes "y\n" else codes "n\n"

seen :
    (key : AnswerKey) (enter_eq_y : Bool) (ring : Ring) (later : List ℕ)
    → wait_for_response enter_eq_y ((deliver true (typed key) ring).prev_response ∷ later)
      ≡ some (meaning key enter_eq_y)
unfolding deliver kbd_handler wait_for_response
seen y_key enter_eq_y ring later = refl
seen n_key enter_eq_y ring later = refl
seen enter_key enter_eq_y ring later = refl

-- With the keyboard initialised and from a valid screen: a question for which the last key that was
-- pressed and released before it is y, n or Enter takes that key for its answer at its first look,
-- whatever comes later. Y means yes, n no, and Enter what the question says; the question and this
-- answer are printed and nothing else, and the screen is valid.
pub response-stale :
    (key : AnswerKey) (prompt : List ℕ) (enter_eq_y : Bool) (ring : Ring) (later : List ℕ)
    (s : Screen)
    → IsValid s
    → let prevs = (deliver true (typed key) ring).prev_response ∷ later in
      let o = kbd_wait_for_response prompt enter_eq_y prevs s in
      let result = meaning key enter_eq_y in
      (o.0 ≡ some result)
      × (o.1 ≡ write_str (question prompt enter_eq_y ++ answer_text result) white black s)
      × Returns s.allow_row_0 o.1
unfolding kbd_wait_for_response
response-stale key prompt enter_eq_y ring later s v =
    let ask = question prompt enter_eq_y in
    let answer = answer_text (meaning key enter_eq_y) in
    let asked = write_str-Returns ask white black s v in
    let both = write_str-append white black ask answer s in
    rw (seen key enter_eq_y ring later, then_moved _ (write_str ask white black s) asked, both)
      (refl, refl, write_str-Returns (ask ++ answer) white black s v)
