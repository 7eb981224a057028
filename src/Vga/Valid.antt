-- ===== src/Vga/Valid.antt =====
-- What holds of the screen between the calls of the driver, and that no call panics.
pub mod Run
pub mod Printed
use sunflower.Vga.Cursor.{CursorShift, left, right, up, down, shift_cursor}
use sunflower.Common.{
  ◌==◌, Bool-cases, Option-cases, length, get_elem?, set, length-set, get_elem?-lt, All, All-set,
  All-get_elem?, All-replicate, ℕ, zero, suc, ◌+◌, ◌-◌, ◌%◌, ◌^◌, ◌<◌, ◌≡◌, refl, subst, ◌∙◌, inl,
  inr, Bool, true, false, List, [], ◌∷◌, arith,
}
use sunflower.Common.Outcome.{Outcome, ok, err, panic, hang}
use sunflower.Vga.Screen.{buffer_width, buffer_height, VgaChar, RawBuffer, Screen}
use sunflower.Vga.Buffers.{space, empty_row, empty_buffer, clear, swap}
use sunflower.Vga.Print.{
  Color, vga_char, write_cell, move_row, scroll, top_row, newline, write_char, bind, write_str,
  delete_prev_char,
}

abbrev IsRow : List VgaChar → Type 0
IsRow line = length line ≡ buffer_width

-- Twenty-five rows of eighty characters.
pub record IsBuffer (buf : RawBuffer) : Type 0 where
  pub rows : length buf ≡ buffer_height
  pub columns : All IsRow buf

pub record IsValid (s : Screen) : Type 0 where
  pub on_row : s.row < buffer_height
  pub on_column : s.column < buffer_width
  pub below_topbar : s.allow_row_0 ≡ false → 0 < s.row
  pub shown : IsBuffer s.buffer
  pub hidden : IsBuffer s.alt
  pub free : s.buffer_held ≡ false

-- The call returned, and left a valid screen with the flag for row 0 as it was.
abbrev pub Returns : Bool → Outcome ⊥ Screen → Type 0
Returns a (ok s) = IsValid s × (s.allow_row_0 ≡ a)
Returns a (err e) = ⊥
Returns a panic = ⊥
Returns a hang = ⊥

set-IsBuffer :
    (buf : RawBuffer) (r : ℕ) (line : List VgaChar)
    → IsBuffer buf
    → IsRow line
    → IsBuffer (set buf r line)
set-IsBuffer buf r line v h = record {
  rows = length-set buf r line ∙ v.rows;
  columns = All-set IsRow buf r line v.columns h;
}

move_row-IsBuffer :
    (buf : RawBuffer) (r : ℕ) → IsBuffer buf → IsBuffer (move_row r buf (get_elem? buf (r + 1)))
move_row-IsBuffer buf r v = elim (Option-cases (get_elem? buf (r + 1))) [
  | inl e ↦ rw e v
  | inr (line, e) ↦
      rw e (set-IsBuffer buf r line v (All-get_elem? IsRow buf (r + 1) line v.columns e))
]

scroll-IsBuffer : (n r : ℕ) (buf : RawBuffer) → IsBuffer buf → IsBuffer (scroll n r buf)
unfolding scroll
scroll-IsBuffer zero r buf v = v
scroll-IsBuffer (suc n) r buf v =
    scroll-IsBuffer n (r + 1) (move_row r buf (get_elem? buf (r + 1))) (move_row-IsBuffer buf r v)

pub empty_buffer-IsBuffer : IsBuffer empty_buffer
empty_buffer-IsBuffer = record { rows = refl; columns = All-replicate IsRow 25 empty_row refl }

newline-IsValid :
    (s : Screen) → IsValid s → IsValid (newline s) × ((newline s).allow_row_0 ≡ s.allow_row_0)
unfolding newline
newline-IsValid s v =
    let moved : IsBuffer
        (scroll (25 - 1 - top_row s.allow_row_0) (top_row s.allow_row_0) s.buffer) =
      scroll-IsBuffer _ _ s.buffer v.shown in
    let scrolled = set-IsBuffer _ 24 empty_row moved refl in ground arith

-- A cell of a valid screen is written in place.
write_cell-valid :
    (r c : ℕ) (ch : VgaChar) (s : Screen)
    → IsBuffer s.buffer
    → r < buffer_height
    → c < buffer_width
    → (buf : RawBuffer) × (write_cell r c ch s ≡ ok (record s { buffer = buf })) × IsBuffer buf
unfolding write_cell
write_cell-valid r c ch s v hr hc =
    let (line, e) = get_elem?-lt s.buffer r (omega (arith, v.rows)) in
    let row : IsRow line = All-get_elem? IsRow s.buffer r line v.columns e in
    (
      set s.buffer r (set line c ch),
      ground arith,
      set-IsBuffer s.buffer r (set line c ch) v (length-set line c ch ∙ row),
    )

pub write_char-Returns :
    (b : ℕ) (fg bg : Color) (s : Screen) → IsValid s → Returns s.allow_row_0 (write_char b fg bg s)
unfolding write_char
write_char-Returns b fg bg s v =
    let held = record s { buffer_held = true } in
    let (buf, e, shape) =
      write_cell-valid s.row s.column (vga_char b fg bg) held v.shown v.on_row v.on_column in
    let written = record s { buffer = buf } in
    let w : IsValid written = record {
      on_row = v.on_row;
      on_column = v.on_column;
      below_topbar = v.below_topbar;
      shown = shape;
      hidden = v.hidden;
      free = v.free;
    } in
    ground (arith, newline-IsValid written w, newline-IsValid s v)

-- A call that returned is followed by one that does.
pub onward :
    {a : Bool} (o : Outcome ⊥ Screen) (f : Screen → Outcome ⊥ Screen)
    → Returns a o
    → ((s : Screen) → IsValid s → s.allow_row_0 ≡ a → Returns a (f s))
    → Returns a (bind o f)
onward (ok s) f h k = k s h.0 h.1
onward (err e) f h k = h
onward panic f h k = h
onward hang f h k = h

pub write_str-Returns :
    (bytes : List ℕ) (fg bg : Color) (s : Screen)
    → IsValid s
    → Returns s.allow_row_0 (write_str bytes fg bg s)
unfolding write_str
write_str-Returns [] fg bg s v = (v, refl)
write_str-Returns (b ∷ bytes) fg bg s v =
    onward (write_char b fg bg s) (write_str bytes fg bg) (write_char-Returns b fg bg s v)
      (λ s' v' a.
        subst (λ f. Returns f (write_str bytes fg bg s')) a (write_str-Returns bytes fg bg s' v'))

pub shift_cursor-IsValid :
    (c : CursorShift) (s : Screen)
    → IsValid s
    → IsValid (shift_cursor c s) × ((shift_cursor c s).allow_row_0 ≡ s.allow_row_0)
unfolding shift_cursor
shift_cursor-IsValid left s v = ground arith
shift_cursor-IsValid right s v = ground arith
shift_cursor-IsValid up s v = ground arith
shift_cursor-IsValid down s v = ground arith

pub delete_prev_char-Returns :
    (s : Screen) → IsValid s → s.allow_row_0 ≡ false → Returns false (delete_prev_char s)
unfolding delete_prev_char
delete_prev_char-Returns s v a =
    let held = record s { buffer_held = true } in
    let up_one : (s.row + 2 ^ 64 - 1) % 2 ^ 64 ≡ s.row - 1 = omega (arith, v.below_topbar a) in
    elim (Bool-cases (s.column == 0)) [
      | inl first ↦
          let (buf, e, shape) =
            write_cell-valid (s.row - 1) 79 space held v.shown (omega (arith, v.on_row))
              (omega arith) in
          let w : IsValid (record s { buffer = buf }) = ground arith in
          let (moved, kept) = shift_cursor-IsValid left (record s { buffer = buf }) w in
          let last =
            shift_cursor-IsValid up (shift_cursor left (record s { buffer = buf })) moved in
          ground arith
      | inr later ↦
          let here : (s.column + 2 ^ 64 - 1) % 2 ^ 64 ≡ s.column - 1 =
            ground (arith, v.on_column) in
          let (buf, e, shape) =
            write_cell-valid s.row (s.column - 1) space held v.shown v.on_row
              (omega (arith, v.on_column)) in
          let w : IsValid (record s { buffer = buf }) = ground arith in
          let moved = shift_cursor-IsValid left (record s { buffer = buf }) w in ground arith
    ]

pub clear-IsValid :
    (s : Screen) → IsValid s → IsValid (clear s) × ((clear s).allow_row_0 ≡ s.allow_row_0)
unfolding clear
clear-IsValid s v = let e = empty_buffer-IsBuffer in ground arith

pub swap-IsValid :
    (s : Screen) → IsValid s → IsValid (swap s) × ((swap s).allow_row_0 ≡ s.allow_row_0)
unfolding swap
swap-IsValid s v = ground arith
