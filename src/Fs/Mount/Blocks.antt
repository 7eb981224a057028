-- ===== src/Fs/Mount/Blocks.antt =====
-- Marking the blocks of the inodes read: which pointers an inode holds, and when marking fails.
use mathlib.Core.Path.{fun_ext}
use sunflower.Common.{
  ◌==◌, if◌then◌else◌, Bool-cases, length, All, ℕ, ◌+◌, ◌<◌, ◌≡◌, refl, sym, ap, ap₂, ◌∙◌, inl, inr,
  Bool, true, false, not, ◌||◌, Option, none, some, List, [], ◌∷◌, map, arith,
}
use sunflower.Common.Outcome.{Outcome, ok, err}
use sunflower.Fs.Ptr.{BlockPtr, max_val, new, get, is_valid, DualBlockPtr}
use sunflower.Fs.Ptr.Packing.{unpacked, IsBytes, decode-eq-unpacked}
use sunflower.Fs.Bitmap.{AllocBmpError, already_in_use, alloc_bmp}
use sunflower.Fs.Bitmap.Used.{used, IsIdle, alloc_bmp-used}
use sunflower.Fs.Mount.{MountState, ReadTblError, alloc_error, valid_blocks, mark_blocks}

abbrev pub add_nonzero : ℕ → List ℕ → List ℕ
add_nonzero n ns = if n == 0 then ns else n ∷ ns

-- The numbers that the non-null pointers stand for, first to last.
unfoldable pub pointers : List DualBlockPtr → List ℕ
pointers [] = []
pointers (d ∷ ds) = add_nonzero (unpacked d).0 (add_nonzero (unpacked d).1 (pointers ds))

abbrev pub IsBlock : ℕ → Type 0
IsBlock p = (0 < p) × (p < max_val)

is_valid-new : (n : ℕ) → is_valid (new n) ≡ not (n == 0)
unfolding is_valid get new
is_valid-new n = ground arith

pub valid_blocks-pointers :
    (ds : List DualBlockPtr) → All IsBytes ds → valid_blocks ds ≡ map new (pointers ds)
unfolding valid_blocks pointers
valid_blocks-pointers [] v = refl
valid_blocks-pointers (d ∷ ds) v = ground (
  arith,
  decode-eq-unpacked d v.0,
  is_valid-new (unpacked d).0,
  is_valid-new (unpacked d).1,
  valid_blocks-pointers ds v.1,
)

add_nonzero-IsBlock :
    (n : ℕ) (ns : List ℕ) → n < max_val → All IsBlock ns → All IsBlock (add_nonzero n ns)
add_nonzero-IsBlock n ns h v = ground arith

pub pointers-IsBlock : (ds : List DualBlockPtr) → All IsBytes ds → All IsBlock (pointers ds)
unfolding pointers
pointers-IsBlock [] v = tt
pointers-IsBlock (d ∷ ds) v =
    add_nonzero-IsBlock (unpacked d).0 (add_nonzero (unpacked d).1 (pointers ds))
      (omega (arith, v.0))
      (add_nonzero-IsBlock (unpacked d).1 (pointers ds) (omega (arith, v.0))
        (pointers-IsBlock ds v.1))

-- The first block of a list that is in use already, or stands earlier in the list.
unfoldable pub conflict : (ℕ → Bool) → List ℕ → Option ℕ
conflict f [] = none
conflict f (p ∷ ps) = let later = conflict (λ q. p == q || f q) ps in if f p then some p else later

-- The blocks in use once a list of them is taken as well.
unfoldable pub joined : (ℕ → Bool) → List ℕ → ℕ → Bool
joined f [] = f
joined f (p ∷ ps) = joined (λ q. p == q || f q) ps

pub conflict-cons_used :
    (f : ℕ → Bool) (p : ℕ) (ps : List ℕ) → f p ≡ true → conflict f (p ∷ ps) ≡ some p
unfolding conflict
conflict-cons_used f p ps h = rw h

pub conflict-cons_free :
    (f : ℕ → Bool) (p : ℕ) (ps : List ℕ)
    → f p ≡ false
    → conflict f (p ∷ ps) ≡ conflict (λ q. p == q || f q) ps
unfolding conflict
conflict-cons_free f p ps h = rw h

abbrev pub marked_reply : {E : Type 0} → ℕ → Option ℕ → Outcome (ReadTblError E) ℕ
marked_reply n none = ok n
marked_reply n (some p) = err (alloc_error (already_in_use (new p)))

-- What marking a list of blocks does to a state whose bitmap is idle.
pub record Marks {D E : Type 0} (ps : List ℕ) (u : ℕ) (s : MountState D)
    (r : Outcome (ReadTblError E) ℕ × MountState D) : Type 0 where
  pub result : r.0 ≡ marked_reply (u + length ps) (conflict (used s.bitmap) ps)
  pub marked : conflict (used s.bitmap) ps ≡ none → used r.1.bitmap ≡ joined (used s.bitmap) ps
  pub idle : IsIdle r.1.bitmap
  pub table : r.1.table ≡ s.table
  pub drive : r.1.drive ≡ s.drive

abbrev after : {D : Type 0} → ℕ → MountState D → MountState D
after p s = record s { bitmap = (alloc_bmp (new p) s.bitmap).1 }

module _ {D E : Type 0} where
  mark_blocks-used :
      (p : ℕ) (bs : List BlockPtr) (u : ℕ) (s : MountState D) (f : AllocBmpError)
      → (alloc_bmp (new p) s.bitmap).0 ≡ err f
      → mark_blocks {E = E} (new p ∷ bs) u s ≡ (err (alloc_error f), after p s)
  unfolding mark_blocks
  mark_blocks-used p bs u s f e = ground arith

  mark_blocks-free :
      (p : ℕ) (bs : List BlockPtr) (u : ℕ) (s : MountState D)
      → (alloc_bmp (new p) s.bitmap).0 ≡ ok tt
      → mark_blocks {E = E} (new p ∷ bs) u s ≡ mark_blocks bs (u + 1) (after p s)
  unfolding mark_blocks
  mark_blocks-free p bs u s e = ground arith

  pub mark_blocks-Marks :
      (ps : List ℕ) (u : ℕ) (s : MountState D)
      → All IsBlock ps
      → IsIdle s.bitmap
      → Marks {E = E} ps u s (mark_blocks (map new ps) u s)
  mark_blocks-Marks [] u s v i =
      let e : u + 0 ≡ u = omega arith in
      unfold mark_blocks conflict joined in
      record { result = rw e; marked = λ h. refl; idle = i; table = refl; drive = refl }
  mark_blocks-Marks (p ∷ ps) u s v i =
      let (res, marks, idle) = alloc_bmp-used p s.bitmap v.0.0 v.0.1 i in
      elim (Bool-cases (used s.bitmap p)) [
        | inl in_use ↦
            let e : (alloc_bmp (new p) s.bitmap).0 ≡ err (already_in_use (new p)) =
              res ∙ ap (λ b. if b then err (already_in_use (new p)) else ok tt) in_use in
            let c = conflict-cons_used (used s.bitmap) p ps in_use in
            rw (mark_blocks-used p (map new ps) u s (already_in_use (new p)) e) (record {
              result = ap (marked_reply (u + length (p ∷ ps))) (sym c);
              marked = λ h. cc;
              idle = idle;
              table = refl;
              drive = refl;
            })
        | inr free ↦
            let e : (alloc_bmp (new p) s.bitmap).0 ≡ ok tt =
              res ∙ ap (λ b. if b then err (already_in_use (new p)) else ok tt) free in
            let c = conflict-cons_free (used s.bitmap) p ps free in
            let now : used (after p s).bitmap ≡ (λ q. p == q || used s.bitmap q) = fun_ext marks in
            let count : u + 1 + length ps ≡ u + length (p ∷ ps) = omega arith in
            let ih = mark_blocks-Marks ps (u + 1) (after p s) v.1 idle in
            rw (mark_blocks-free p (map new ps) u s e) (record {
              result = ih.result ∙ ap₂ marked_reply count (ap (λ f. conflict f ps) now ∙ sym c);
              marked = λ h.
                  ih.marked (ap (λ f. conflict f ps) now ∙ sym c ∙ h)
                  ∙ unfold joined in ap (λ f. joined f ps) now;
              idle = ih.idle;
              table = ih.table;
              drive = ih.drive;
            })
      ]
