-- ===== src/Vga/Screen.antt =====
-- The statics of kernel/src/vga: the cursor, the two text buffers and the flags.
use sunflower.Common.{ℕ, Bool, List}

abbrev pub buffer_width : ℕ
buffer_width = 80

abbrev pub buffer_height : ℕ
buffer_height = 25

-- `VGAChar`, sixteen bits.
abbrev pub VgaChar : Type 0
VgaChar = ℕ

-- `RawBuffer`, the rows from top to bottom.
abbrev pub RawBuffer : Type 0
RawBuffer = List (List VgaChar)

pub record Screen : Type 0 where
  pub column : ℕ
  pub row : ℕ
  pub allow_row_0 : Bool
  pub buffer : RawBuffer
  pub alt : RawBuffer
  pub buffer_held : Bool
