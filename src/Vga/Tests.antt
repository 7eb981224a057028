-- ===== src/Vga/Tests.antt =====
-- Instances of the theorems about the screen.
use sunflower.Common.{
  set, replicate, All, ℕ, ◌+◌, ◌≡◌, refl, ◌≢◌, false, List, [], ◌∷◌, ◌++◌, arith,
}
use sunflower.Common.Outcome.{ok}
use sunflower.Vga.Screen.{Screen}
use sunflower.Vga.Cursor.{up}
use sunflower.Vga.Buffers.{space, empty_row, empty_buffer}
use sunflower.Vga.Print.{black, white, newline, write_str}
use sunflower.Vga.Print.Line.{cells, write_str-line}
use sunflower.Vga.Print.Scroll.{newline-scrolls}
use sunflower.Vga.Valid.{IsValid, Returns, empty_buffer-IsBuffer}
use sunflower.Vga.Valid.Run.{
  Request, print, backspace, move_cursor, clear_screen, swap_buffers, topbar, run, run_lem,
}

abbrev pub blank : Screen
blank = record {
  column = 0;
  row = 24;
  allow_row_0 = false;
  buffer = empty_buffer;
  alt = empty_buffer;
  buffer_held = false;
}

pub blank-IsValid : IsValid blank
blank-IsValid = record {
  on_row = omega arith;
  on_column = omega arith;
  below_topbar = λ e. omega arith;
  shown = empty_buffer-IsBuffer;
  hidden = empty_buffer-IsBuffer;
  free = refl;
}

abbrev session : List Request
session =
    topbar (b's' ∷ b'f' ∷ [])
    ∷ print (b'h' ∷ b'i' ∷ b'\n' ∷ []) white black
    ∷ backspace
    ∷ move_cursor up
    ∷ swap_buffers
    ∷ clear_screen
    ∷ []

run_example : Returns false (run session blank)
run_example = run_lem session blank blank-IsValid refl

newline-scrolls_example :
    newline blank
    ≡ record blank { column = 0; buffer = empty_row ∷ (replicate 23 empty_row ++ empty_row ∷ []) }
newline-scrolls_example =
    newline-scrolls blank empty_row empty_row (replicate 23 empty_row) refl refl refl refl refl

abbrev hello : List ℕ
hello = b'h' ∷ b'i' ∷ []

hello-line : All (λ b. b ≢ b'\n') hello
hello-line = ((λ e. omega (arith, e)), ((λ e. omega (arith, e)), tt))

write_str-line_example :
    write_str hello white black blank
    ≡ ok (record blank {
      buffer = set blank.buffer 24 ([] ++ (cells white black hello ++ replicate 78 space));
      column = 0 + 2;
    })
write_str-line_example =
    write_str-line white black hello blank [] (space ∷ space ∷ []) (replicate 78 space) refl
      hello-line (omega arith) (λ e. omega arith) (omega arith) refl refl refl (omega arith)
