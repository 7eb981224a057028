-- ===== src/Vga/Print/Scroll.antt =====
-- A newline on the last row moves the rows up.
use sunflower.Common.{
  length, get_elem?, set, length-append, set-append, get_elem?-append, suc, ◌+◌, ◌-◌, ◌≡◌, sym, ap,
  ap₂, ◌∙◌, false, some, List, [], ◌∷◌, ◌++◌, arith,
}
use mathlib.Core.List.{append_assoc}
use sunflower.Vga.Screen.{buffer_height, VgaChar, RawBuffer, Screen}
use sunflower.Vga.Buffers.{empty_row}
use sunflower.Vga.Print.{move_row, scroll, newline}

scroll-append :
    (rest pre : RawBuffer) (x blank : List VgaChar)
    → set (scroll (length rest) (length pre) (pre ++ x ∷ rest)) (length pre + length rest) blank
      ≡ pre ++ (rest ++ blank ∷ [])
unfolding scroll
scroll-append [] pre x blank =
    let e : length pre + 0 ≡ length pre = omega arith in rw e (set-append pre x [] blank)
scroll-append (y ∷ rest) pre x blank =
    let pre' = pre ++ y ∷ [] in
    let len : length pre + 1 ≡ length pre' = omega (arith, length-append pre (y ∷ [])) in
    let seen : get_elem? (pre ++ x ∷ y ∷ rest) (length pre + 1) ≡ some y =
      ap₂ get_elem? (sym (append_assoc pre (x ∷ []) (y ∷ rest)))
        (omega (arith, length-append pre (x ∷ [])))
      ∙ get_elem?-append (pre ++ x ∷ []) y rest in
    let moved : set (pre ++ x ∷ y ∷ rest) (length pre) y ≡ pre' ++ y ∷ rest =
      set-append pre x (y ∷ rest) y ∙ sym (append_assoc pre (y ∷ []) (y ∷ rest)) in
    let end : length pre + suc (length rest) ≡ length pre' + length rest = omega arith in
    let next =
      ap₂ (λ r buf. scroll (length rest) r buf) len
        (ap (move_row (length pre) (pre ++ x ∷ y ∷ rest)) seen ∙ moved) in
    ap₂ (λ buf i. set buf i blank) next end
    ∙ scroll-append rest pre' y blank
    ∙ append_assoc pre (y ∷ []) (rest ++ blank ∷ [])

-- On the last row and with row 0 kept for the topbar, a newline keeps the topbar, drops the row under
-- it, moves every other row up by one, leaves a row of spaces at the bottom, and puts the cursor at
-- the start of that row.
pub newline-scrolls :
    (s : Screen) (topbar second : List VgaChar) (rest : RawBuffer)
    → s.buffer ≡ topbar ∷ second ∷ rest
    → length rest ≡ buffer_height - 2
    → s.row ≡ buffer_height - 1
    → s.allow_row_0 ≡ false
    → s.buffer_held ≡ false
    → newline s ≡ record s { column = 0; buffer = topbar ∷ (rest ++ empty_row ∷ []) }
unfolding newline
newline-scrolls s topbar second rest shape len last below free =
    let moved : set (scroll 23 1 s.buffer) 24 empty_row ≡ topbar ∷ (rest ++ empty_row ∷ []) =
      ap₂ (λ n buf. set (scroll n 1 buf) (1 + n) empty_row) (sym len) shape
      ∙ scroll-append rest (topbar ∷ []) second empty_row in
    ground arith
