-- ===== src/Vga/Buffers.antt =====
-- kernel/src/vga/buffers.rs. Yoinking the buffer is setting the flag; dropping clears it.
use sunflower.Common.{if◌then◌else◌, replicate, true, false, Option, none, some, List}
use sunflower.Vga.Screen.{buffer_width, buffer_height, VgaChar, RawBuffer, Screen}
use sunflower.Vga.Cursor.{set_row, set_col, update_visual_pos}

-- `VGAChar::SPACE`: a space, white on black.
abbrev pub space : VgaChar
space = 0x0F20

abbrev pub empty_row : List VgaChar
empty_row = replicate buffer_width space

abbrev pub empty_buffer : RawBuffer
empty_buffer = replicate buffer_height empty_row

unfoldable pub try_yoink : Screen → Option Screen
try_yoink s = if s.buffer_held then none else some (record s { buffer_held = true })

unfoldable pub drop_yoinked : Screen → Screen
drop_yoinked s = record s { buffer_held = false }

abbrev pub with_buffer : (Screen → Screen) → Screen → Option Screen → Screen
with_buffer f s none = s
with_buffer f s (some held) = record (f held) { buffer_held = false }

-- The visual position that `clear` also sends to the ports is `update_visual_pos` of the screen.
unfoldable pub clear : Screen → Screen
unfolding try_yoink set_col set_row update_visual_pos
clear s =
    let s₁ = set_col s 0 in
    let s₂ = set_row s₁ 1 in
    let s₃ = (update_visual_pos s₂).0 in
    with_buffer (λ held. record held { buffer = empty_buffer }) s₃ (try_yoink s₃)

unfoldable pub swap : Screen → Screen
unfolding try_yoink
swap s =
    with_buffer (λ held. let tmp = held.alt in record held { alt = held.buffer; buffer = tmp }) s
      (try_yoink s)
