-- ===== src/Fs/Mount/Load.antt =====
-- The outer loop of `read_table`.
use sunflower.Common.{
  ◌==◌, Option-cases, length, get_elem?, set, length-append, length-set, All, ℕ, zero, suc, ◌+◌,
  ◌≤◌, ◌<◌, ◌≡◌, refl, sym, ap, ap₂, subst, ◌∙◌, inl, inr, Bool, false, ◌||◌, Option, none, some,
  List, [], ◌∷◌, ◌++◌, arith,
}
use sunflower.Common.Outcome.{Outcome, ok, err}
use sunflower.Sync.Exclusive.{map as exmap, compare_exchange, run_closure, release}
use sunflower.Fs.Ptr.{new}
use sunflower.Fs.Inode.{Inode, clone}
use sunflower.Fs.Bitmap.{BlockBitmap, already_in_use}
use sunflower.Fs.Table.Slots.{holding}
use sunflower.Fs.Mount.{
  MountState, ReadTblError, alloc_error, valid_blocks, mark_blocks, load_slot_at, load_nods,
}
use sunflower.Fs.Mount.Active.{HasByteBlocks}
use sunflower.Fs.Bitmap.Used.{used, IsIdle}
use sunflower.Fs.Mount.Blocks.{
  pointers, valid_blocks-pointers, pointers-IsBlock, conflict, joined, marked_reply, Marks,
  mark_blocks-Marks,
}

-- All block numbers that the inodes hold, first to last.
unfoldable pub all_pointers : List Inode → List ℕ
all_pointers [] = []
all_pointers (n ∷ ns) = pointers n.blocks ++ all_pointers ns

-- A list of blocks is taken in two parts.
conflict-append_none :
    (f : ℕ → Bool) (ps qs : List ℕ)
    → conflict f ps ≡ none
    → conflict f (ps ++ qs) ≡ conflict (joined f ps) qs
unfolding conflict joined
conflict-append_none f [] qs h = refl
conflict-append_none f (p ∷ ps) qs h =
    ground (arith, conflict-append_none (λ q. p == q || f q) ps qs)

conflict-append_some :
    (f : ℕ → Bool) (ps qs : List ℕ) (p : ℕ)
    → conflict f ps ≡ some p
    → conflict f (ps ++ qs) ≡ some p
unfolding conflict
conflict-append_some f [] qs p h = cc
conflict-append_some f (x ∷ ps) qs p h =
    ground (arith, conflict-append_some (λ q. x == q || f q) ps qs p)

joined-append : (f : ℕ → Bool) (ps qs : List ℕ) → joined f (ps ++ qs) ≡ joined (joined f ps) qs
unfolding joined
joined-append f [] qs = refl
joined-append f (p ∷ ps) qs = joined-append (λ q. p == q || f q) ps qs

set-holding :
    (ns : List Inode) (i : ℕ) (n : Inode)
    → set (holding ns) i (record { cell = n; access = false }) ≡ holding (set ns i n)
set-holding [] i n = refl
set-holding (x ∷ ns) zero n = refl
set-holding (x ∷ ns) (suc i) n = ap (◌∷◌ (record { cell = x; access = false })) (set-holding ns i n)

get_elem?-holding :
    (ns : List Inode) (i : ℕ)
    → i < length ns
    → (n : Inode) × (get_elem? (holding ns) i ≡ some (record { cell = n; access = false }))
get_elem?-holding [] i h = elim h [ ]
get_elem?-holding (x ∷ ns) zero h = (x, refl)
get_elem?-holding (x ∷ ns) (suc i) h = get_elem?-holding ns i (omega arith)

-- The table once inodes are stored one after the other, from a slot on.
unfoldable pub overlay : ℕ → List Inode → List Inode → List Inode
overlay i [] ns = ns
overlay i (n ∷ nods) ns = overlay (i + 1) nods (set ns i (clone n))

abbrev pub resting : {D : Type 0} → List Inode → BlockBitmap → D → MountState D
resting ns bmp d = record { table = holding ns; bitmap = bmp; drive = d }

module _ {D E : Type 0} where
  load_slot_at-holding :
      (nod : Inode) (i : ℕ) (ns : List Inode) (bmp : BlockBitmap) (d : D)
      → i < length ns
      → load_slot_at {E = E} nod i (resting ns bmp d)
        ≡ (ok tt, resting (set ns i (clone nod)) bmp d)
  unfolding load_slot_at exmap compare_exchange run_closure release
  load_slot_at-holding nod i ns bmp d h =
      let (n, e) = get_elem?-holding ns i h in
      rw e (
        ap (λ t. (ok tt, record { table = t; bitmap = bmp; drive = d }))
          (set-holding ns i (clone nod)))

  module _ (nod : Inode) (nods : List Inode) (i u : ℕ) (ns : List Inode) (bmp : BlockBitmap) (d : D)
      (room : i < length ns) where
    abbrev marking : Outcome (ReadTblError E) ℕ × MountState D
    marking = mark_blocks (valid_blocks nod.blocks) u (resting (set ns i (clone nod)) bmp d)

    load_nods-ok :
        (k : ℕ)
        → marking.0 ≡ ok k
        → load_nods {E = E} (nod ∷ nods) i u (resting ns bmp d) ≡ load_nods nods (i + 1) k marking.1
    unfolding load_nods
    load_nods-ok k e = rw (load_slot_at-holding nod i ns bmp d room) (ground arith)

    load_nods-err :
        (e : ReadTblError E)
        → marking.0 ≡ err e
        → load_nods {E = E} (nod ∷ nods) i u (resting ns bmp d) ≡ (err e, marking.1)
    unfolding load_nods
    load_nods-err f e = rw (load_slot_at-holding nod i ns bmp d room) (ground arith)

abbrev pub loaded_reply : {E : Type 0} → ℕ → ℕ → Option ℕ → Outcome (ReadTblError E) (ℕ × ℕ)
loaded_reply a n none = ok (a, n)
loaded_reply a n (some p) = err (alloc_error (already_in_use (new p)))

-- What loading a list of inodes from a slot on does to a table at rest and an idle bitmap.
pub record Loads {D E : Type 0} (nods : List Inode) (i u : ℕ) (ns : List Inode) (bmp : BlockBitmap)
    (r : Outcome (ReadTblError E) (ℕ × ℕ) × MountState D) : Type 0 where
  pub result :
      r.0
      ≡ loaded_reply
          (i + length nods)
          (u + length (all_pointers nods))
          (conflict (used bmp) (all_pointers nods))
  pub table :
      conflict (used bmp) (all_pointers nods) ≡ none → r.1.table ≡ holding (overlay i nods ns)
  pub marked :
      conflict (used bmp) (all_pointers nods) ≡ none
      → used r.1.bitmap ≡ joined (used bmp) (all_pointers nods)

module _ {D E : Type 0} where
  pub load_nods-Loads :
      (nods : List Inode) (i u : ℕ) (ns : List Inode) (bmp : BlockBitmap) (d : D)
      → All HasByteBlocks nods
      → i + length nods ≤ length ns
      → IsIdle bmp
      → Loads nods i u ns bmp (load_nods {E = E} nods i u (resting ns bmp d))
  unfolding all_pointers overlay
  load_nods-Loads [] i u ns bmp d v room idle =
      let e : i + 0 ≡ i = omega arith in
      let f : u + 0 ≡ u = omega arith in
      unfold load_nods conflict joined in
      record { result = rw (e, f) refl; table = λ h. refl; marked = λ h. refl }
  load_nods-Loads (nod ∷ nods) i u ns bmp d v room idle =
      let ns' = set ns i (clone nod) in
      let here : i < length ns = omega arith in
      let ps = pointers nod.blocks in
      let rest = all_pointers nods in
      let s' = resting ns' bmp d in
      let m : Marks {E = E} ps u s' (marking nod nods i u ns bmp d here) =
        rw (valid_blocks-pointers nod.blocks v.0)
          (mark_blocks-Marks ps u s' (pointers-IsBlock nod.blocks v.0) idle) in
      elim (Option-cases (conflict (used bmp) ps)) [
        | inl fresh ↦
            let t = marking {E = E} nod nods i u ns bmp d here in
            let taken : t.0 ≡ ok (u + length ps) =
              m.result ∙ ap (marked_reply (u + length ps)) fresh in
            let state : t.1 ≡ resting ns' t.1.bitmap d =
              λ j. record { table = m.table j; bitmap = t.1.bitmap; drive = m.drive j } in
            let now = m.marked fresh in
            let ih =
              load_nods-Loads nods (i + 1) (u + length ps) ns' t.1.bitmap d v.1
                (omega (arith, length-set ns i (clone nod))) m.idle in
            let step =
              load_nods-ok nod nods i u ns bmp d here (u + length ps) taken
              ∙ ap (load_nods {E = E} nods (i + 1) (u + length ps)) state in
            let whole : conflict (used t.1.bitmap) rest ≡ conflict (used bmp) (ps ++ rest) =
              ap (λ f. conflict f rest) now ∙ sym (conflict-append_none (used bmp) ps rest fresh) in
            let slots : i + 1 + length nods ≡ i + length (nod ∷ nods) = omega arith in
            let blocks : u + length ps + length rest ≡ u + length (ps ++ rest) =
              omega (arith, length-append ps rest) in
            subst (Loads (nod ∷ nods) i u ns bmp) (sym step) (record {
              result =
                  ih.result
                  ∙ ap₂ (λ a n. loaded_reply a n (conflict (used t.1.bitmap) rest)) slots blocks
                  ∙ ap (loaded_reply _ _) whole;
              table = λ h. ih.table (whole ∙ h);
              marked = λ h.
                  ih.marked (whole ∙ h)
                  ∙ ap (λ f. joined f rest) now
                  ∙ sym (joined-append (used bmp) ps rest);
            })
        | inr (p, clash) ↦
            let failed = m.result ∙ ap (marked_reply (u + length ps)) clash in
            let all = conflict-append_some (used bmp) ps (all_pointers nods) p clash in
            rw
              (load_nods-err nod nods i u ns bmp d here (alloc_error (already_in_use (new p)))
                failed)
              (record {
                result = ap (loaded_reply _ _) (sym all);
                table = λ h. cc;
                marked = λ h. cc;
              })
      ]
