-- ===== src/Fs/Bitmap/Used.antt =====
-- The bitmap as the set of the blocks in use, and what `alloc_bmp` does to it.
use native.Mathlib.Nat.{one-le-pow}
use sunflower.Common.{
  ◌==◌, if◌then◌else◌, Bool-cases, length, get_elem?, set, length-set, get_elem?-set_self,
  get_elem?-set_ne, get_elem?-lt, ℕ, ◌*◌, ◌/◌, ◌%◌, ◌^◌, ◌<◌, bit_and, bit_or, ◌≡◌, refl, sym, ap,
  ◌∙◌, inl, inr, Bool, false, ◌||◌, Option, none, some, arith, ℕ_discrete,
}
use sunflower.Common.Bits.{
  test_bit, test_bit-lt_two, test_bit-bit_or, test_bit-pow_self, test_bit-pow_ne, bit_and-pow,
}
use sunflower.Common.Outcome.{Outcome, ok, err}
use sunflower.Sync.Exclusive.{ExclusiveMap, map, compare_exchange, run_closure, release}
use sunflower.Fs.Ptr.{BlockPtr, new, get, max_val}
use sunflower.Fs.Bitmap.{
  u128_bits, BlockBitmap, bitmap_words, already_in_use, claim, alloc_bmp, AllocBmpError, claim_at,
  alloc_ptr,
}

abbrev pub bit_of : ℕ → Option (ExclusiveMap ℕ) → Bool
bit_of k none = false
bit_of k (some word) = test_bit k word.cell == 1

-- Whether a block is in use.
unfoldable pub used : BlockBitmap → ℕ → Bool
used bmp q = bit_of (q % u128_bits) (get_elem? bmp (q / u128_bits))

-- All words are there, and no closure is running on one.
pub record IsIdle (bmp : BlockBitmap) : Type 0 where
  pub words : length bmp ≡ bitmap_words
  pub free_at : (i : ℕ) (word : ExclusiveMap ℕ) → get_elem? bmp i ≡ some word → word.access ≡ false

get-new : (p : ℕ) → 0 < p → p < max_val → get (new p) ≡ some p
unfolding get new
get-new p lo hi = ground arith

-- One word: the test of the closure is the digit, and the write sets it and no other.
claim_word :
    (block : BlockPtr) (k c : ℕ)
    → claim block (2 ^ k) c
      ≡ (if test_bit k c == 1 then (err (already_in_use block), c) else (ok tt, bit_or c (2 ^ k)))
unfolding claim
claim_word block k c = elim (Bool-cases (test_bit k c == 1)) [
  | inl e ↦
      let one : test_bit k c ≡ 1 = ground arith in
      let masked : bit_and c (2 ^ k) ≡ 2 ^ k =
        omega (arith, bit_and-pow k c, ap (λ (t : ℕ). t * 2 ^ k) one) in
      ground (arith, one-le-pow k 2 (omega arith))
  | inr e ↦
      let zero' : test_bit k c ≡ 0 = ground (arith, test_bit-lt_two k c) in
      let masked : bit_and c (2 ^ k) ≡ 0 =
        omega (arith, bit_and-pow k c, ap (λ (t : ℕ). t * 2 ^ k) zero') in
      ground arith
]

-- The other digits of a word stay as they are.
bit_or-digits : (j k c : ℕ) → (test_bit j (bit_or c (2 ^ k)) == 1) ≡ (k == j || test_bit j c == 1)
bit_or-digits j k c = elim (ℕ_discrete j k) [
  | yes e ↦ ground (
    arith,
    test_bit-bit_or j c (2 ^ k),
    test_bit-lt_two j c,
    ap (λ i. test_bit j (2 ^ i)) (sym e) ∙ test_bit-pow_self j,
  )
  | no ne ↦ ground (arith, test_bit-bit_or j c (2 ^ k), test_bit-lt_two j c, test_bit-pow_ne j k ne)
]

-- The word after a claim of its digit `k`.
abbrev claimed : ℕ → ExclusiveMap ℕ → ExclusiveMap ℕ
claimed k word = record {
  cell = if test_bit k word.cell == 1 then word.cell else bit_or word.cell (2 ^ k);
  access = false;
}

claim_at-idle :
    (block : BlockPtr) (idx k : ℕ) (word : ExclusiveMap ℕ) (bmp : BlockBitmap)
    → word.access ≡ false
    → claim_at block idx (2 ^ k) (some word) bmp ≡ (
      (if test_bit k word.cell == 1 then err (already_in_use block) else ok tt),
      set bmp idx (claimed k word),
    )
unfolding claim_at map compare_exchange run_closure release
claim_at-idle block idx k word bmp free = ground (arith, claim_word block k word.cell)

used-set :
    (bmp : BlockBitmap) (i : ℕ) (word : ExclusiveMap ℕ) (q : ℕ)
    → i < length bmp
    → used (set bmp i word) q
      ≡ (if q / u128_bits == i then bit_of (q % u128_bits) (some word) else used bmp q)
unfolding used
used-set bmp i word q h = elim (ℕ_discrete i (q / u128_bits)) [
  | yes e ↦ ground (arith, get_elem?-set_self bmp i word h)
  | no ne ↦ ground (arith, get_elem?-set_ne bmp i (q / u128_bits) word ne)
]

claimed-digits :
    (k j : ℕ) (word : ExclusiveMap ℕ)
    → bit_of j (some (claimed k word)) ≡ (k == j || bit_of j (some word))
claimed-digits k j word = elim (ℕ_discrete k j) [
  | yes e ↦ ground (arith, bit_or-digits j k word.cell, ap (λ i. test_bit i word.cell) e)
  | no ne ↦ ground (arith, bit_or-digits j k word.cell)
]

set-IsIdle :
    (bmp : BlockBitmap) (i : ℕ) (word : ExclusiveMap ℕ)
    → i < length bmp
    → word.access ≡ false
    → IsIdle bmp
    → IsIdle (set bmp i word)
set-IsIdle bmp i word h free v = record {
  words = length-set bmp i word ∙ v.words;
  free_at = λ j w e. elim (ℕ_discrete i j) [
    | yes same ↦ ground (arith, get_elem?-set_self bmp i word h)
    | no ne ↦ v.free_at j w (sym (get_elem?-set_ne bmp i j word ne) ∙ e)
  ];
}

module _ (p : ℕ) (bmp : BlockBitmap) (lo : 0 < p) (hi : p < max_val) (v : IsIdle bmp) where
  -- The outcome in terms of the word that holds the block's bit.
  alloc_bmp-word :
      (word : ExclusiveMap ℕ)
      → get_elem? bmp (p / u128_bits) ≡ some word
      → alloc_bmp (new p) bmp ≡ (
        (if test_bit (p % u128_bits) word.cell == 1 then err (already_in_use (new p)) else ok tt),
        set bmp (p / u128_bits) (claimed (p % u128_bits) word),
      )
  unfolding alloc_bmp
  alloc_bmp-word word e =
      let idx = p / u128_bits in
      let k = p % u128_bits in
      ap (λ o. alloc_ptr (new p) o bmp) (get-new p lo hi)
      ∙ ap (λ o. claim_at (new p) idx (2 ^ k) o bmp) e
      ∙ claim_at-idle (new p) idx k word bmp (v.free_at idx word e)

  -- On an idle bitmap `alloc_bmp` fails exactly on a block in use, and in each case the blocks in
  -- use afterwards are those before and this one, and the bitmap is idle again.
  pub alloc_bmp-used :
      ((alloc_bmp (new p) bmp).0 ≡ (if used bmp p then err (already_in_use (new p)) else ok tt))
      × ((q : ℕ) → used (alloc_bmp (new p) bmp).1 q ≡ (p == q || used bmp q))
      × IsIdle (alloc_bmp (new p) bmp).1
  unfolding used
  alloc_bmp-used =
      let (word, e) = get_elem?-lt bmp (p / u128_bits) inside in
      (
        rw (alloc_bmp-word word e) (result word e),
        λ q. rw (alloc_bmp-word word e) (users word e q),
        rw (alloc_bmp-word word e) (set-IsIdle bmp _ _ inside refl v),
      )
    where
      inside : p / u128_bits < length bmp
      inside = omega (arith, v.words)

      result :
          (word : ExclusiveMap ℕ)
          → get_elem? bmp (p / u128_bits) ≡ some word
          → ◌≡◌ {A = Outcome AllocBmpError (Unit {0})}
              (if test_bit (p % u128_bits) word.cell == 1
                then err (already_in_use (new p))
                else ok tt)
              (if used bmp p then err (already_in_use (new p)) else ok tt)
      result word e = rw (used, e)

      users :
          (word : ExclusiveMap ℕ)
          → get_elem? bmp (p / u128_bits) ≡ some word
          → (q : ℕ)
          → used (set bmp (p / u128_bits) (claimed (p % u128_bits) word)) q ≡ (p == q || used bmp q)
      users word e q = elim (ℕ_discrete (q / u128_bits) (p / u128_bits)) [
        | yes same ↦
            let seen : get_elem? bmp (q / u128_bits) ≡ some word = ap (get_elem? bmp) same ∙ e in
            ground (
              arith,
              used-set bmp (p / u128_bits) (claimed (p % u128_bits) word) q inside,
              claimed-digits (p % u128_bits) (q % u128_bits) word,
            )
        | no other ↦
            ground (arith, used-set bmp (p / u128_bits) (claimed (p % u128_bits) word) q inside)
      ]
