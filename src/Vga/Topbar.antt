-- ===== src/Vga/Topbar.antt =====
-- `init` and `draw_topbar` of kernel/src/vga.rs. The topbar's text, which `SystemInfo` fills in, is
-- an argument; `init` is past the line that points the buffer at the text memory.
use sunflower.Common.Text.{codes}
use sunflower.Vga.Buffers.{clear}
use sunflower.Common.{ℕ, true, false, List}
use sunflower.Common.Outcome.{Outcome}
use sunflower.Vga.Screen.{Screen}
use sunflower.Vga.Cursor.{row_col, set_row, set_col}
use sunflower.Vga.Print.{Color, black, light_grey, white, then_do, bind, write_str}

abbrev pub light_cyan : Color
light_cyan = 11

unfoldable pub init : Screen → Outcome ⊥ Screen
unfolding clear
init s =
    bind (write_str (codes "\nHello, ") white black (clear s))
      (write_str (codes "Sunflower!\n\n") light_cyan black)

abbrev pub restore : ℕ → ℕ → Screen → Screen
restore prev_row prev_col s = set_col (set_row (record s { allow_row_0 = false }) prev_row) prev_col

unfoldable pub draw_topbar : List ℕ → Screen → Outcome ⊥ Screen
unfolding row_col
draw_topbar text s =
    let (prev_row, prev_col) = row_col s in
    let s' = set_col (set_row (record s { allow_row_0 = true }) 0) 0 in
    then_do (restore prev_row prev_col) (write_str text black light_grey s')
