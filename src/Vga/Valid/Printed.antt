-- ===== src/Vga/Valid/Printed.antt =====
-- Texts that are printed one after the other, and the visual cursor behind them.
use sunflower.Common.{ℕ, ◌≡◌, refl, ap, Bool, List, [], ◌∷◌, ◌++◌}
use sunflower.Common.Outcome.{Outcome, ok, err, panic, hang}
use sunflower.Vga.Screen.{Screen}
use sunflower.Vga.Cursor.{update_visual_pos}
use sunflower.Vga.Cursor.Moves.{IsPlaced, clamp_row_col_id}
use sunflower.Vga.Print.{Color, bind, write_char, write_str}
use sunflower.Vga.Valid.{IsValid, Returns}

module _ (fg bg : Color) where
  bind-write_str :
      (o : Outcome ⊥ Screen) (xs ys : List ℕ)
      → ((s : Screen)
          → bind (write_str xs fg bg s) (write_str ys fg bg) ≡ write_str (xs ++ ys) fg bg s)
      → bind (bind o (write_str xs fg bg)) (write_str ys fg bg)
        ≡ bind o (write_str (xs ++ ys) fg bg)
  bind-write_str (ok s) xs ys h = h s
  bind-write_str (err e) xs ys h = refl
  bind-write_str panic xs ys h = refl
  bind-write_str hang xs ys h = refl

  -- Printing two texts is printing both as one.
  pub write_str-append :
      (xs ys : List ℕ) (s : Screen)
      → bind (write_str xs fg bg s) (write_str ys fg bg) ≡ write_str (xs ++ ys) fg bg s
  unfolding write_str
  write_str-append [] ys s = refl
  write_str-append (x ∷ xs) ys s =
      bind-write_str (write_char x fg bg s) xs ys (write_str-append xs ys)

-- The visual cursor follows a cursor that is on the screen.
pub update_visual_pos_id : (s : Screen) → IsValid s → (update_visual_pos s).0 ≡ s
unfolding update_visual_pos
update_visual_pos_id s v =
    let placed : IsPlaced s = record {
      on_row = v.on_row;
      on_column = v.on_column;
      below_topbar = v.below_topbar;
    } in
    clamp_row_col_id s placed

pub then_moved :
    (a : Bool) (o : Outcome ⊥ Screen) → Returns a o → bind o (λ s. ok (update_visual_pos s).0) ≡ o
then_moved a (ok s) (v, e) = ap ok (update_visual_pos_id s v)
then_moved a (err e) h = refl
then_moved a panic h = refl
then_moved a hang h = refl
