-- ===== src/Vga/Cursor.antt =====
-- kernel/src/vga/cursor.rs. The kernel is built in release mode, where `u8` arithmetic wraps.
pub mod Moves
use sunflower.Common.{
  ltb, ◌==◌, if◌then◌else◌, ℕ, ◌+◌, ◌-◌, ◌*◌, ◌/◌, ◌%◌, ◌^◌, min, max, Bool, List, [], ◌∷◌,
}
use sunflower.Vga.Screen.{buffer_width, buffer_height, Screen}

pub data CursorShift : Type 0 where
  left right up down : CursorShift

unfoldable pub row_col : Screen → ℕ × ℕ
row_col s = (s.row, s.column)

unfoldable pub clamp_row : Bool → ℕ → ℕ
clamp_row allow row =
    if allow then min row (buffer_height - 1) else min (max row 1) (buffer_height - 1)

unfoldable pub clamp_row_col : Screen → Screen
unfolding row_col clamp_row
clamp_row_col s =
    let (row, col) = row_col s in
    record s { row = clamp_row s.allow_row_0 row; column = min col (buffer_width - 1) }

unfoldable pub set_row : Screen → ℕ → Screen
unfolding clamp_row_col
set_row s row = clamp_row_col (record s { row = row })

unfoldable pub set_col : Screen → ℕ → Screen
unfolding clamp_row_col
set_col s col = clamp_row_col (record s { column = col })

abbrev pub port_selector_c : ℕ
port_selector_c = 0x3D4

abbrev pub port_register_c : ℕ
port_register_c = 0x3D5

-- The screen, and the port writes in order.
unfoldable pub update_visual_pos : Screen → Screen × List (ℕ × ℕ)
unfolding clamp_row_col row_col
update_visual_pos s =
    let s' = clamp_row_col s in
    let (row, col) = row_col s' in
    let pos = row * buffer_width + col in
    (
      s',
      (port_selector_c, 0x0E)
          ∷ (port_register_c, pos / 2 ^ 8 % 2 ^ 8)
          ∷ (port_selector_c, 0x0F)
          ∷ (port_register_c, pos % 2 ^ 8)
          ∷ [],
    )

unfoldable pub shift_cursor : CursorShift → Screen → Screen
unfolding set_row set_col row_col
shift_cursor left s =
    let (row, col) = row_col s in
    if col == 0 then set_col s (buffer_width - 1) else set_col s ((col + 255) % 256)
shift_cursor right s =
    let (row, col) = row_col s in
    if ltb col (buffer_width - 1) then set_col s ((col + 1) % 256) else set_col s 0
shift_cursor up s =
    let (row, col) = row_col s in
    if row == 1 then set_row s (buffer_height - 1) else set_row s ((row + 255) % 256)
shift_cursor down s =
    let (row, col) = row_col s in
    if ltb row (buffer_height - 1) then set_row s ((row + 1) % 256) else set_row s 0
