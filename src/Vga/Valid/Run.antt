-- ===== src/Vga/Valid/Run.antt =====
-- The calls that the rest of the kernel makes of the screen driver, and what a run of them does.
use sunflower.Common.{ℕ, ◌≡◌, refl, sym, subst, ◌∙◌, Bool, true, false, List, [], ◌∷◌, arith}
use sunflower.Common.Outcome.{Outcome, ok, err, panic, hang}
use sunflower.Vga.Screen.{Screen}
use sunflower.Vga.Cursor.{CursorShift, row_col, set_row, set_col, update_visual_pos, shift_cursor}
use sunflower.Vga.Buffers.{clear, swap}
use sunflower.Vga.Print.{
  Color, black, light_grey, white, then_do, bind, write_str, delete_prev_char,
}
use sunflower.Vga.Topbar.{light_cyan, init, restore, draw_topbar}
use sunflower.Common.Text.{codes}
use sunflower.Vga.Valid.Printed.{update_visual_pos_id}
use sunflower.Vga.Valid.{
  IsValid, Returns, onward, write_str-Returns, shift_cursor-IsValid, delete_prev_char-Returns,
  clear-IsValid, swap-IsValid,
}

restore-Returns :
    (r c : ℕ) (o : Outcome ⊥ Screen) → Returns true o → Returns false (then_do (restore r c) o)
unfolding set_row set_col
restore-Returns r c (ok s) h = ground arith
restore-Returns r c (err e) h = h
restore-Returns r c panic h = h
restore-Returns r c hang h = h

at_topbar-IsValid :
    (s : Screen) → IsValid s → IsValid (set_col (set_row (record s { allow_row_0 = true }) 0) 0)
unfolding set_row set_col
at_topbar-IsValid s v = ground arith

allow_row_0-set :
    (s : Screen) → (set_col (set_row (record s { allow_row_0 = true }) 0) 0).allow_row_0 ≡ true
unfolding set_row set_col
allow_row_0-set s = refl

pub draw_topbar-Returns :
    (text : List ℕ) (s : Screen)
    → IsValid s
    → s.allow_row_0 ≡ false
    → Returns false (draw_topbar text s)
unfolding draw_topbar row_col
draw_topbar-Returns text s v a =
    let s' = set_col (set_row (record s { allow_row_0 = true }) 0) 0 in
    let drawn = write_str-Returns text black light_grey s' (at_topbar-IsValid s v) in
    restore-Returns s.row s.column (write_str text black light_grey s')
      (subst (λ f. Returns f (write_str text black light_grey s')) (allow_row_0-set s) drawn)

pub data Request : Type 0 where
  print : List ℕ → Color → Color → Request
  backspace : Request
  move_cursor : CursorShift → Request
  clear_screen : Request
  swap_buffers : Request
  topbar : List ℕ → Request
  to_column : ℕ → Request
  to_row : ℕ → Request

unfoldable pub perform : Request → Screen → Outcome ⊥ Screen
perform (print bytes fg bg) s = write_str bytes fg bg s
perform backspace s = delete_prev_char s
perform (move_cursor c) s = ok (shift_cursor c s)
perform clear_screen s = ok (clear s)
perform swap_buffers s = ok (swap s)
perform (topbar text) s = draw_topbar text s
perform (to_column col) s = ok (set_col s col)
perform (to_row row) s = ok (set_row s row)

unfoldable pub run : List Request → Screen → Outcome ⊥ Screen
run [] s = ok s
run (r ∷ rs) s = bind (perform r s) (run rs)

set_col-IsValid :
    (s : Screen) (n : ℕ)
    → IsValid s
    → IsValid (set_col s n) × ((set_col s n).allow_row_0 ≡ s.allow_row_0)
unfolding set_col
set_col-IsValid s n v = ground arith

set_row-IsValid :
    (s : Screen) (n : ℕ)
    → IsValid s
    → IsValid (set_row s n) × ((set_row s n).allow_row_0 ≡ s.allow_row_0)
unfolding set_row
set_row-IsValid s n v = ground arith

perform-Returns :
    (r : Request) (s : Screen) → IsValid s → s.allow_row_0 ≡ false → Returns false (perform r s)
unfolding perform
perform-Returns (print bytes fg bg) s v a =
    subst (λ f. Returns f (write_str bytes fg bg s)) a (write_str-Returns bytes fg bg s v)
perform-Returns backspace s v a = delete_prev_char-Returns s v a
perform-Returns (move_cursor c) s v a = let (w, e) = shift_cursor-IsValid c s v in (w, e ∙ a)
perform-Returns clear_screen s v a = let (w, e) = clear-IsValid s v in (w, e ∙ a)
perform-Returns swap_buffers s v a = let (w, e) = swap-IsValid s v in (w, e ∙ a)
perform-Returns (topbar text) s v a = draw_topbar-Returns text s v a
perform-Returns (to_column col) s v a = let (w, e) = set_col-IsValid s col v in (w, e ∙ a)
perform-Returns (to_row row) s v a = let (w, e) = set_row-IsValid s row v in (w, e ∙ a)

-- From a valid screen on which row 0 is not allowed, any sequence of requests (text of any bytes,
-- backspaces, cursor moves, clearing, swapping, the topbar) returns without an index out of the
-- buffer; the screen it leaves is valid: the cursor is on the screen and below the topbar, both
-- buffers have 25 rows of 80 cells, the buffer is not held and row 0 is still not allowed.
pub run_lem :
    (rs : List Request) (s : Screen) → IsValid s → s.allow_row_0 ≡ false → Returns false (run rs s)
unfolding run
run_lem [] s v a = (v, a)
run_lem (r ∷ rs) s v a =
    onward (perform r s) (run rs) (perform-Returns r s v a) (λ s' v' a'. run_lem rs s' v' a')

pub init-Returns : (s : Screen) → IsValid s → Returns s.allow_row_0 (init s)
unfolding init
init-Returns s v =
    let (w, e) = clear-IsValid s v in
    let hello = write_str-Returns (codes "\nHello, ") white black (clear s) w in
    onward (write_str (codes "\nHello, ") white black (clear s)) _
      (subst (λ a. Returns a (write_str (codes "\nHello, ") white black (clear s))) e hello)
      (λ s' v' a'.
        let o = write_str (codes "Sunflower!\n\n") light_cyan black s' in
        subst (λ a. Returns a o) a'
          (write_str-Returns (codes "Sunflower!\n\n") light_cyan black s' v'))

-- The visual cursor follows a cursor that is on the screen.
pub moved-Returns :
    {a : Bool} (s : Screen) → IsValid s → s.allow_row_0 ≡ a → Returns a (ok (update_visual_pos s).0)
moved-Returns {a} s v e =
    subst (λ s'. IsValid s' × (s'.allow_row_0 ≡ a)) (sym (update_visual_pos_id s v)) (v, e)
