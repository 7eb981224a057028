-- ===== src/Vga/Cursor/Moves.antt =====
-- Where the cursor goes.
use sunflower.Common.{ℕ, ◌+◌, ◌*◌, ◌/◌, ◌%◌, ◌^◌, ◌<◌, ◌≡◌, refl, false, [], ◌∷◌, arith}
use sunflower.Vga.Screen.{buffer_width, buffer_height, Screen}
use sunflower.Vga.Cursor.{
  CursorShift, left, right, up, down, clamp_row_col, port_selector_c, port_register_c,
  update_visual_pos, shift_cursor,
}

-- The cursor lies on the screen, and below the topbar unless row 0 is allowed.
pub record IsPlaced (s : Screen) : Type 0 where
  pub on_row : s.row < buffer_height
  pub on_column : s.column < buffer_width
  pub below_topbar : s.allow_row_0 ≡ false → 0 < s.row

pub clamp_row_col-IsPlaced : (s : Screen) → IsPlaced (clamp_row_col s)
unfolding clamp_row_col
clamp_row_col-IsPlaced s = ground arith

pub clamp_row_col_id : (s : Screen) → IsPlaced s → clamp_row_col s ≡ s
unfolding clamp_row_col
clamp_row_col_id s v = ground arith

abbrev pub opposite : CursorShift → CursorShift
opposite left = right
opposite right = left
opposite up = down
opposite down = up

-- Below the topbar, shifting the cursor in a direction and back again restores the screen: each
-- move goes round at the edges, the vertical ones from row 1 to the last row.
pub shift_cursor-opposite :
    (c : CursorShift) (s : Screen)
    → IsPlaced s
    → s.allow_row_0 ≡ false
    → shift_cursor (opposite c) (shift_cursor c s) ≡ s
unfolding shift_cursor
shift_cursor-opposite left s v a = ground arith
shift_cursor-opposite right s v a = ground arith
shift_cursor-opposite up s v a = ground arith
shift_cursor-opposite down s v a = ground arith

pub shift_cursor-IsPlaced : (c : CursorShift) (s : Screen) → IsPlaced (shift_cursor c s)
unfolding shift_cursor
shift_cursor-IsPlaced left s = ground arith
shift_cursor-IsPlaced right s = ground arith
shift_cursor-IsPlaced up s = ground arith
shift_cursor-IsPlaced down s = ground arith

-- The two register writes of `update_visual_pos` together give the index of the cursor's cell:
-- register 0x0E gets the high byte and 0x0F the low one.
pub update_visual_pos_lem :
    (s : Screen)
    → (hi lo : ℕ) × ((update_visual_pos s).1
        ≡ (port_selector_c, 0x0E)
          ∷ (port_register_c, hi)
          ∷ (port_selector_c, 0x0F)
          ∷ (port_register_c, lo)
          ∷ [])
      × (hi * 256 + lo ≡ (clamp_row_col s).row * buffer_width + (clamp_row_col s).column)
      × (hi < 8)
      × (lo < 256)
unfolding update_visual_pos
update_visual_pos_lem s =
    let pos = (clamp_row_col s).row * buffer_width + (clamp_row_col s).column in
    let v = clamp_row_col-IsPlaced s in
    (pos / 2 ^ 8 % 2 ^ 8, pos % 2 ^ 8, refl, omega arith, omega arith, omega arith)
