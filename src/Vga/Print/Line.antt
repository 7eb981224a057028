-- ===== src/Vga/Print/Line.antt =====
-- Printing text that fits on the cursor's line.
use mathlib.Core.List.{append_assoc}
use sunflower.Common.{
  length, get_elem?, set, length-append, length-set, get_elem?-set_self, All, set_same, set-set,
  set-append, ℕ, suc, ◌+◌, ◌-◌, ◌<◌, ◌≡◌, refl, sym, ap, ap₂, ◌∙◌, ◌≢◌, false, some, List, [], ◌∷◌,
  ◌++◌, map, arith,
}
use sunflower.Vga.Print.{Color, vga_char, write_cell, write_char, bind, write_str}
use sunflower.Vga.Screen.{buffer_width, buffer_height, VgaChar, Screen}
use sunflower.Common.Outcome.{ok}

module _ (fg bg : Color) where
  abbrev pub cells : List ℕ → List VgaChar
  cells = map (λ b. vga_char b fg bg)

  write_char-inside :
      (s : Screen) (b : ℕ) (pre post : List VgaChar) (old : VgaChar)
      → s.buffer_held ≡ false
      → b ≢ b'\n'
      → s.row < buffer_height
      → (s.allow_row_0 ≡ false → 0 < s.row)
      → get_elem? s.buffer s.row ≡ some (pre ++ old ∷ post)
      → length pre ≡ s.column
      → s.column < buffer_width - 1
      → write_char b fg bg s
        ≡ ok (record s {
          buffer = set s.buffer s.row (pre ++ vga_char b fg bg ∷ post);
          column = s.column + 1;
        })
  unfolding write_char write_cell
  write_char-inside s b pre post old free ne on_row below line len room =
      let inside : s.column < length (pre ++ old ∷ post) =
        omega (arith, length-append pre (old ∷ post)) in
      let stored : set (pre ++ old ∷ post) s.column (vga_char b fg bg)
          ≡ pre ++ vga_char b fg bg ∷ post =
        ap (λ i. set (pre ++ old ∷ post) i (vga_char b fg bg)) (sym len)
        ∙ set-append pre old post (vga_char b fg bg) in
      ground arith

  -- Text without newlines that ends before the last column of the cursor's line replaces as many
  -- characters of that line as it is long, from the cursor on, and moves the cursor behind it: no
  -- other character and nothing else of the screen changes.
  pub write_str-line :
      (bytes : List ℕ) (s : Screen) (pre old post : List VgaChar)
      → s.buffer_held ≡ false
      → All (λ b. b ≢ b'\n') bytes
      → s.row < buffer_height
      → (s.allow_row_0 ≡ false → 0 < s.row)
      → s.row < length s.buffer
      → get_elem? s.buffer s.row ≡ some (pre ++ (old ++ post))
      → length pre ≡ s.column
      → length old ≡ length bytes
      → s.column + length bytes < buffer_width
      → write_str bytes fg bg s
        ≡ ok (record s {
          buffer = set s.buffer s.row (pre ++ (cells bytes ++ post));
          column = s.column + length bytes;
        })
  unfolding write_str
  write_str-line [] s pre [] post free text on_row below stored line len same room =
      let e : s.column + 0 ≡ s.column = omega arith in
      rw (e, set_same s.buffer s.row (pre ++ post) line) refl
  write_str-line [] s pre (o ∷ old) post free text on_row below stored line len same room =
      absurd (omega arith)
  write_str-line (b ∷ bytes) s pre [] post free text on_row below stored line len same room =
      absurd (omega arith)
  write_str-line (b ∷ bytes) s pre (o ∷ old) post free text on_row below stored line len same room =
      let c = vga_char b fg bg in
      let s' = record s {
        buffer = set s.buffer s.row (pre ++ c ∷ (old ++ post));
        column = s.column + 1;
      } in
      let pre' = pre ++ c ∷ [] in
      let shown : get_elem? s'.buffer s.row ≡ some (pre' ++ (old ++ post)) =
        get_elem?-set_self s.buffer s.row (pre ++ c ∷ (old ++ post)) stored
        ∙ ap some (sym (append_assoc pre (c ∷ []) (old ++ post))) in
      let first : write_char b fg bg s ≡ ok s' =
        write_char-inside s b pre (old ++ post) o free text.0 on_row below line len (omega arith) in
      let others =
        write_str-line bytes s' pre' old post free text.1 on_row below
          (omega (arith, length-set s.buffer s.row (pre ++ c ∷ (old ++ post)))) shown
          (omega (arith, length-append pre (c ∷ []))) (omega arith) (omega arith) in
      let count : s.column + 1 + length bytes ≡ s.column + suc (length bytes) = omega arith in
      let whole : set s'.buffer s.row (pre' ++ (cells bytes ++ post))
          ≡ set s.buffer s.row (pre ++ (c ∷ cells bytes ++ post)) =
        set-set s.buffer s.row (pre ++ c ∷ (old ++ post)) (pre' ++ (cells bytes ++ post))
        ∙ ap (set s.buffer s.row) (append_assoc pre (c ∷ []) (cells bytes ++ post)) in
      ap (λ o. bind o (write_str bytes fg bg)) first
      ∙ others
      ∙ ap₂ (λ buf col. ok (record s { buffer = buf; column = col })) whole count
