-- ===== src/Keyboard/Keys/Shift.antt =====
-- The shift keys held, and the characters that they change.
use sunflower.Common.{
  ◌==◌, if◌then◌else◌, every_below, every_below-holds, ℕ, ◌<◌, ◌≡◌, refl, ap, ◌∙◌, Bool, true,
  false, Option, none, some, List, [], ◌∷◌, arith,
}
use sunflower.Common.Bits.{}
use sunflower.Keyboard.Keys.{
  KeyState, key_down, key_up, single_shot, Held, lshift_scancode, rshift_scancode, is_sysrq,
  set_bit, clear_bit, note_held, shift_mapping, find_mapping, to_ascii_lowercase,
  to_ascii_uppercase, shown,
}

-- The two shift keys as `SHIFT` encodes them.
abbrev bits : Bool → Bool → ℕ
bits false false = 0
bits true false = 1
bits false true = 2
bits true true = 3

abbrev pub encoded : Bool → Bool → Bool → Held
encoded left_shift right_shift q = record { shift_bits = bits left_shift right_shift; sysrq = q }

-- Whether a key is held after an event: the last press or release of it decides.
abbrev held_after : Bool → KeyState → Bool → Bool
held_after true key_down was = true
held_after true key_up was = false
held_after true single_shot was = was
held_after false st was = was

-- Whether a key is held after a sequence of events.
abbrev pub held : (ℕ → Bool) → Bool → List (ℕ × KeyState) → Bool
held is_key was [] = was
held is_key was ((code, st) ∷ es) = held is_key (held_after (is_key code) st was) es

unfoldable pub note_all : List (ℕ × KeyState) → Held → Held
note_all [] h = h
note_all ((code, st) ∷ es) h = note_all es (note_held code st h)

set_bit-bits :
    (l r : Bool) → (set_bit 0 (bits l r) ≡ bits true r) × (set_bit 1 (bits l r) ≡ bits l true)
set_bit-bits false false = (refl, refl)
set_bit-bits true false = (refl, refl)
set_bit-bits false true = (refl, refl)
set_bit-bits true true = (refl, refl)

clear_bit-bits :
    (l r : Bool) → (clear_bit 0 (bits l r) ≡ bits false r) × (clear_bit 1 (bits l r) ≡ bits l false)
clear_bit-bits false false = (refl, refl)
clear_bit-bits true false = (refl, refl)
clear_bit-bits false true = (refl, refl)
clear_bit-bits true true = (refl, refl)

note_held-encoded :
    (code : ℕ) (st : KeyState) (l r q : Bool)
    → note_held code st (encoded l r q)
      ≡ encoded
          (held_after (code == lshift_scancode) st l)
          (held_after (code == rshift_scancode) st r)
          (held_after (is_sysrq code) st q)
unfolding note_held
note_held-encoded code key_down l r q = ground (arith, set_bit-bits l r)
note_held-encoded code key_up l r q = ground (arith, clear_bit-bits l r)
note_held-encoded code single_shot l r q = ground arith

-- After any sequence of key events, `SHIFT` and `SYSRQ` hold exactly the keys whose last press or
-- release was a press, each of the two shift keys and SysRq on its own, whatever else was typed.
pub note_all-held :
    (es : List (ℕ × KeyState)) (l r q : Bool)
    → note_all es (encoded l r q)
      ≡ encoded
          (held (λ c. c == lshift_scancode) l es)
          (held (λ c. c == rshift_scancode) r es)
          (held is_sysrq q es)
unfolding note_all
note_all-held [] l r q = refl
note_all-held ((code, st) ∷ es) l r q =
    ap (note_all es) (note_held-encoded code st l r q) ∙ note_all-held es _ _ _

abbrev plain_of : ℕ → Option (ℕ × ℕ) → ℕ
plain_of key none = to_ascii_lowercase key
plain_of key (some (plain, shifted)) = plain

-- The character of a key when neither shift nor caps lock is on.
unfoldable pub plain_form : ℕ → ℕ
plain_form key = plain_of key (find_mapping key shift_mapping)

abbrev same_key : Bool → Bool → ℕ → Bool
same_key caps sh key =
    if plain_form (shown key caps sh) == plain_form key
    then shown (plain_form key) caps sh == shown key caps sh
    else false

same_key-all : (caps sh : Bool) → every_below 128 (same_key caps sh) ≡ true
unfolding every_below shown plain_form find_mapping to_ascii_lowercase to_ascii_uppercase
same_key-all false false = refl
same_key-all false true = refl
same_key-all true false = refl
same_key-all true true = refl

-- For every ASCII character that the decoder may give, with any caps lock and shift: what is
-- printed is a character of the same key, and does not depend on the shift that the decoder
-- itself applied to it.
pub shown-plain_form :
    (key : ℕ) (caps sh : Bool)
    → key < 128
    → (plain_form (shown key caps sh) ≡ plain_form key)
      × (shown (plain_form key) caps sh ≡ shown key caps sh)
shown-plain_form key caps sh h =
    let e = every_below-holds 128 key (same_key caps sh) h (same_key-all caps sh) in ground arith
