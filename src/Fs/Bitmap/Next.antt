-- ===== src/Fs/Bitmap/Next.antt =====
-- `alloc_next_bmp` takes the first free block.
use sunflower.Common.{
  ◌==◌, if◌then◌else◌, Bool-cases, ℕ, zero, suc, ◌+◌, ◌≤◌, ◌<◌, ◌≡◌, refl, sym, ap, ◌∙◌, ◌⊎◌, inl,
  inr, true, false, ◌||◌, arith, ℕ_discrete,
}
use sunflower.Common.Outcome.{Outcome, ok, err}
use sunflower.Fs.Ptr.{BlockPtr, new, null, max_val}
use sunflower.Fs.Bitmap.{
  BlockBitmap, AllocBmpError, already_in_use, alloc_bmp, alloc_from, alloc_next_bmp,
}
use sunflower.Fs.Bitmap.Used.{used, IsIdle, alloc_bmp-used}

-- The first block of a range that is free was taken, and no other changed.
pub record Took (bmp : BlockBitmap) (from p : ℕ) (r : Outcome AllocBmpError BlockPtr × BlockBitmap)
    : Type 0 where
  pub above : from ≤ p
  pub below : p < max_val
  pub was_free : used bmp p ≡ false
  pub first : (q : ℕ) → from ≤ q → q < p → used bmp q ≡ true
  pub result : r.0 ≡ ok (new p)
  pub marked : (q : ℕ) → used r.1 q ≡ (p == q || used bmp q)

-- Every block of the range was in use, and nothing changed.
pub record WasFull (bmp : BlockBitmap) (from : ℕ) (r : Outcome AllocBmpError BlockPtr × BlockBitmap)
    : Type 0 where
  pub full : (q : ℕ) → from ≤ q → q < max_val → used bmp q ≡ true
  pub result : r.0 ≡ ok null
  pub kept : (q : ℕ) → used r.1 q ≡ used bmp q

abbrev pub Allocates : BlockBitmap → ℕ → Outcome AllocBmpError BlockPtr × BlockBitmap → Type 0
Allocates bmp from r = ((p : ℕ) × Took bmp from p r) ⊎ WasFull bmp from r

-- One round: a free block is returned, and a used one is passed over.
alloc_from-free :
    (n ptr : ℕ) (bmp : BlockBitmap)
    → (alloc_bmp (new ptr) bmp).0 ≡ ok tt
    → alloc_from (suc n) ptr bmp ≡ (ok (new ptr), (alloc_bmp (new ptr) bmp).1)
unfolding alloc_from
alloc_from-free n ptr bmp e = ground arith

alloc_from-used :
    (n ptr : ℕ) (bmp : BlockBitmap) (f : AllocBmpError)
    → (alloc_bmp (new ptr) bmp).0 ≡ err f
    → alloc_from (suc n) ptr bmp ≡ alloc_from n (ptr + 1) (alloc_bmp (new ptr) bmp).1
unfolding alloc_from
alloc_from-used n ptr bmp f e = ground arith

-- What holds from the next block on holds from this one on, if this one was in use.
extend :
    (bmp bmp' : BlockBitmap) (ptr : ℕ) (r : Outcome AllocBmpError BlockPtr × BlockBitmap)
    → used bmp ptr ≡ true
    → ((q : ℕ) → used bmp' q ≡ used bmp q)
    → Allocates bmp' (ptr + 1) r
    → Allocates bmp ptr r
extend bmp bmp' ptr r u same (inl (p, t)) = inl (
  p,
  record {
    above = omega (arith, t.above);
    below = t.below;
    was_free = sym (same p) ∙ t.was_free;
    first = λ q lo hi. elim (ℕ_discrete q ptr) [
      | yes e ↦ ap (used bmp) e ∙ u
      | no ne ↦ sym (same q) ∙ t.first q (omega arith) hi
    ];
    result = t.result;
    marked = λ q. t.marked q ∙ ap (λ b. p == q || b) (same q);
  },
)
extend bmp bmp' ptr r u same (inr f) = inr (record {
  full = λ q lo hi. elim (ℕ_discrete q ptr) [
    | yes e ↦ ap (used bmp) e ∙ u
    | no ne ↦ sym (same q) ∙ f.full q (omega arith) hi
  ];
  result = f.result;
  kept = λ q. f.kept q ∙ same q;
})

or_absorb : (p q : ℕ) (bmp : BlockBitmap) → used bmp p ≡ true → (p == q || used bmp q) ≡ used bmp q
or_absorb p q bmp u = elim (ℕ_discrete p q) [
  | yes e ↦ let v : used bmp q ≡ true = ap (used bmp) (sym e) ∙ u in ground arith
  | no ne ↦ ground arith
]

alloc_from-Allocates :
    (n ptr : ℕ) (bmp : BlockBitmap)
    → 0 < ptr
    → ptr + n ≡ max_val
    → IsIdle bmp
    → Allocates bmp ptr (alloc_from n ptr bmp)
alloc_from-Allocates zero ptr bmp lo sum v = inr (
    unfold alloc_from in
    record { full = λ q h k. absurd (omega arith); result = refl; kept = λ q. refl })
alloc_from-Allocates (suc n) ptr bmp lo sum v =
    let (res, marks, idle) = alloc_bmp-used ptr bmp lo (omega arith) v in
    elim (Bool-cases (used bmp ptr)) [
      | inl u ↦
          let failed : (alloc_bmp (new ptr) bmp).0 ≡ err (already_in_use (new ptr)) =
            res ∙ ap (λ b. if b then err (already_in_use (new ptr)) else ok tt) u in
          rw (alloc_from-used n ptr bmp (already_in_use (new ptr)) failed) (
            extend bmp (alloc_bmp (new ptr) bmp).1 ptr _ u (λ q. marks q ∙ or_absorb ptr q bmp u)
              (alloc_from-Allocates n (ptr + 1) (alloc_bmp (new ptr) bmp).1 (omega arith)
                (omega arith) idle))
      | inr f ↦
          let took : (alloc_bmp (new ptr) bmp).0 ≡ ok tt =
            res ∙ ap (λ b. if b then err (already_in_use (new ptr)) else ok tt) f in
          rw (alloc_from-free n ptr bmp took) (
            inl (
              ptr,
              record {
                above = omega arith;
                below = omega arith;
                was_free = f;
                first = λ q h k. absurd (omega arith);
                result = refl;
                marked = marks;
              },
            ))
    ]

-- On an idle bitmap `alloc_next_bmp` always returns: the pointer to the first free block from 1 on,
-- which is then the only block newly in use, or the null pointer if every block from 1 up to
-- `MAX_VAL` was in use, and then nothing changes.
pub alloc_next_bmp_lem : (bmp : BlockBitmap) → IsIdle bmp → Allocates bmp 1 (alloc_next_bmp bmp)
unfolding alloc_next_bmp
alloc_next_bmp_lem bmp v = alloc_from-Allocates 4095 1 bmp (omega arith) (omega arith) v
