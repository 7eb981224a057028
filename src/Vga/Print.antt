-- ===== src/Vga/Print.antt =====
-- kernel/src/vga/print.rs: the characters, and writing them to the buffer. An index out of the
-- buffer is a panic.
pub mod Scroll
pub mod Line
use sunflower.Common.{
  ltb, leb, ◌==◌, if◌then◌else◌, length, get_elem?, set, ℕ, zero, suc, ◌+◌, ◌-◌, ◌*◌, ◌%◌, ◌^◌,
  bit_or, Bool, true, false, Option, none, some, List, [], ◌∷◌,
}
use sunflower.Common.Outcome.{Outcome, ok, err, panic, hang}
use sunflower.Vga.Screen.{buffer_width, buffer_height, VgaChar, RawBuffer, Screen}
use sunflower.Vga.Cursor.{left, up, row_col, set_row, set_col, shift_cursor}
use sunflower.Vga.Buffers.{space, empty_row, try_yoink}

-- `Color`, by its discriminant.
abbrev pub Color : Type 0
Color = ℕ

abbrev pub black : Color
black = 0

abbrev pub light_grey : Color
light_grey = 8

abbrev pub white : Color
white = 15

-- `VGAChar::new`; the shifts stay within sixteen bits for colours below 16.
unfoldable pub vga_char : ℕ → Color → Color → VgaChar
vga_char char fg bg = bit_or (bit_or char (bg * 2 ^ 12 % 2 ^ 16)) (fg * 2 ^ 8 % 2 ^ 16)

abbrev pub put_cell : ℕ → ℕ → VgaChar → Screen → Option (List VgaChar) → Outcome ⊥ Screen
put_cell r c ch s none = panic
put_cell r c ch s (some line) =
    if ltb c (length line) then ok (record s { buffer = set s.buffer r (set line c ch) }) else panic

-- `buf[r][c] = ch`
unfoldable pub write_cell : ℕ → ℕ → VgaChar → Screen → Outcome ⊥ Screen
write_cell r c ch s = put_cell r c ch s (get_elem? s.buffer r)

abbrev pub move_row : ℕ → RawBuffer → Option (List VgaChar) → RawBuffer
move_row r buf none = buf
move_row r buf (some line) = set buf r line

-- `for row in r..r + n { buf[row] = buf[row + 1] }`
unfoldable pub scroll : ℕ → ℕ → RawBuffer → RawBuffer
scroll zero r buf = buf
scroll (suc n) r buf = scroll n (r + 1) (move_row r buf (get_elem? buf (r + 1)))

abbrev pub top_row : Bool → ℕ
top_row true = 0
top_row false = 1

unfoldable pub newline_held : Screen → Screen
unfolding set_col set_row row_col
newline_held s =
    let (row, _) = row_col s in
    let s' = set_col s 0 in
    let top = top_row s'.allow_row_0 in
    if leb (buffer_height - 1) row
    then record s' {
      buffer = set (scroll (buffer_height - 1 - top) top s'.buffer) (buffer_height - 1) empty_row;
    }
    else set_row s' (row + 1)

abbrev pub and_drop : (Screen → Screen) → Screen → Option Screen → Screen
and_drop f s none = s
and_drop f s (some held) = record (f held) { buffer_held = false }

unfoldable pub newline : Screen → Screen
unfolding newline_held try_yoink
newline s = and_drop newline_held s (try_yoink s)

abbrev pub write_held : ℕ → ℕ → VgaChar → Screen → Option Screen → Outcome ⊥ Screen
write_held r c ch s none = ok s
write_held r c ch s (some held) = elim (write_cell r c ch held) [
  | ok s' ↦ ok (record s' { buffer_held = false })
  | err e ↦ err e
  | panic ↦ panic
  | hang ↦ hang
]

abbrev pub then_do : (Screen → Screen) → Outcome ⊥ Screen → Outcome ⊥ Screen
then_do f (ok s) = ok (f s)
then_do f (err e) = err e
then_do f panic = panic
then_do f hang = hang

unfoldable pub write_char : ℕ → Color → Color → Screen → Outcome ⊥ Screen
unfolding try_yoink row_col set_col
write_char byte fg bg s =
    if byte == b'\n'
    then ok (newline s)
    else (let (row, col) = row_col s in
        let wraps = leb (buffer_width - 1) col in
        then_do (λ s'. if wraps then newline s' else set_col s' (col + 1))
          (write_held row col (vga_char byte fg bg) s (try_yoink s)))

abbrev pub bind : Outcome ⊥ Screen → (Screen → Outcome ⊥ Screen) → Outcome ⊥ Screen
bind (ok s) f = f s
bind (err e) f = err e
bind panic f = panic
bind hang f = hang

-- `VGAWriter::write_str`, over the bytes of the text.
unfoldable pub write_str : List ℕ → Color → Color → Screen → Outcome ⊥ Screen
write_str [] fg bg s = ok s
write_str (byte ∷ bytes) fg bg s = bind (write_char byte fg bg s) (write_str bytes fg bg)

-- An index that went below zero is far past the end of the buffer.
unfoldable pub delete_held : Screen → Outcome ⊥ Screen
unfolding row_col
delete_held s =
    let (row, col) = row_col s in
    if col == 0
    then then_do (λ s'. shift_cursor up (shift_cursor left (record s' { buffer_held = false })))
        (write_cell ((row + 2 ^ 64 - 1) % 2 ^ 64) (buffer_width - 1) space s)
    else then_do (λ s'. shift_cursor left (record s' { buffer_held = false }))
        (write_cell row ((col + 2 ^ 64 - 1) % 2 ^ 64) space s)

abbrev pub delete_yoinked : Screen → Option Screen → Outcome ⊥ Screen
delete_yoinked s none = ok s
delete_yoinked s (some held) = delete_held held

unfoldable pub delete_prev_char : Screen → Outcome ⊥ Screen
unfolding try_yoink delete_held
delete_prev_char s = delete_yoinked s (try_yoink s)
