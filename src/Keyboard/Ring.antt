-- ===== src/Keyboard/Ring.antt =====
-- The scancode buffer of kernel/src/interrupts/keyboard.rs, between the interrupt handler and the
-- poll loop, and `wait_for_response`.
pub mod Fifo
use sunflower.Common.{
  leb, ◌==◌, if◌then◌else◌, set, get_or, replicate, ℕ, ◌+◌, ◌%◌, Bool, true, false, Option, none,
  some, List, [], ◌∷◌,
}

-- `KBD_BUF`, `KBD_RPTR`, `KBD_WPTR` and `PREV_RESPONSE`.
pub record Ring : Type 0 where
  pub buf : List ℕ
  pub rptr : ℕ
  pub wptr : ℕ
  pub prev_response : ℕ

abbrev pub fresh : Ring
fresh = record { buf = replicate 256 0; rptr = 0; wptr = 0; prev_response = 0 }

-- `kbd_handler`; `scancode` is what port 0x60 holds. Interrupts are off between `cli` and `sti`,
-- so that the handler is one step.
unfoldable pub kbd_handler : Bool → ℕ → Ring → Ring
kbd_handler kbd_init scancode s =
    if kbd_init
    then (let ptr = s.wptr in
        record s {
          wptr = (s.wptr + 1) % 256;
          buf = set s.buf ptr scancode;
          prev_response = scancode;
        })
    else s

-- The part of `poll_keyboard` up to the decoder: the next scancode, or none at the end of the
-- buffer, where the decoder is cleared.
unfoldable pub next_scancode : Ring → Option ℕ × Ring
next_scancode s =
    let read_ptr = s.rptr in
    let write_ptr = s.wptr in
    if leb write_ptr read_ptr
    then (none, record s { rptr = write_ptr })
    else (some (get_or s.buf read_ptr 0), record s { rptr = (s.rptr + 1) % 256 })

abbrev pub y_scancode : ℕ
y_scancode = 0x35

abbrev pub n_scancode : ℕ
n_scancode = 0x31

abbrev pub enter_scancode : ℕ
enter_scancode = 0x5A

-- `wait_for_response`, on the successive values that its loads of `PREV_RESPONSE` return; none
-- when they end before an answer.
unfoldable pub wait_for_response : Bool → List ℕ → Option Bool
wait_for_response enter_eq_true [] = none
wait_for_response enter_eq_true (prev ∷ later) =
    let rest = wait_for_response enter_eq_true later in
    if prev == y_scancode
    then some true
    else if prev == n_scancode
    then some false
    else if prev == enter_scancode
    then some enter_eq_true
    else rest
