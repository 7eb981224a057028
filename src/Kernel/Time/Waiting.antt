-- ===== src/Kernel/Time/Waiting.antt =====
-- The waiting character of kernel/src/time.rs, in the last cell of the first row of the screen. `wait`
-- shows it and takes it away again.
use sunflower.Common.{
  if◌then◌else◌, Bool-cases, set, get_or, set-set, ℕ, zero, suc, ◌-◌, ◌≡◌, refl, ap, ◌∙◌, inl, inr,
  Bool, true, false, not, List, [], ◌∷◌,
}
use sunflower.Vga.Screen.{buffer_width, VgaChar, RawBuffer, Screen}
use sunflower.Vga.Print.{black, light_grey, vga_char}

-- The screen, `WAITING_CHAR` and `PREV`.
pub record Waiting : Type 0 where
  pub screen : Screen
  pub waiting_char : Bool
  pub prev : VgaChar

abbrev pub top_right : RawBuffer → VgaChar
top_right buf = get_or (get_or buf 0 []) (buffer_width - 1) 0

abbrev pub put_top_right : VgaChar → RawBuffer → RawBuffer
put_top_right char buf = set buf 0 (set (get_or buf 0 []) (buffer_width - 1) char)

abbrev pub write_top_right : VgaChar → Screen → Screen
write_top_right char s = record s { buffer = put_top_right char s.buffer }

unfoldable pub set_waiting_char : Bool → Waiting → Waiting
set_waiting_char show w =
    if not w.waiting_char
    then w
    else if show
    then record w {
      prev = top_right w.screen.buffer;
      screen = write_top_right (vga_char 1 black light_grey) w.screen;
    }
    else record w { screen = write_top_right w.prev w.screen }

set-get_or : {A : Type 0} (xs : List A) (i : ℕ) (d : A) → set xs i (get_or xs i d) ≡ xs
set-get_or [] i d = refl
set-get_or (x ∷ xs) zero d = refl
set-get_or (x ∷ xs) (suc i) d = ap (λ l. x ∷ l) (set-get_or xs i d)

put_back :
    (char : VgaChar) (buf : RawBuffer)
    → put_top_right (top_right buf) (put_top_right char buf) ≡ buf
put_back char [] = refl
put_back char (line ∷ lines) =
    ap (λ l. l ∷ lines)
      (set-set line (buffer_width - 1) char (get_or line (buffer_width - 1) 0)
        ∙ set-get_or line (buffer_width - 1) 0)

-- Shown and taken away again, whether it is allowed or not, the character leaves the screen as it
-- was, its last cell of the first row included.
pub set_waiting_char-restores :
    (w : Waiting) → (set_waiting_char false (set_waiting_char true w)).screen ≡ w.screen
unfolding set_waiting_char
set_waiting_char-restores w = elim (Bool-cases w.waiting_char) [
  | inl e ↦ rw e (
      ap (λ b. record w.screen { buffer = b })
        (put_back (vga_char 1 black light_grey) w.screen.buffer))
  | inr e ↦ rw e refl
]
