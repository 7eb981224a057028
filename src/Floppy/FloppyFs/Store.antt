-- ===== src/Floppy/FloppyFs/Store.antt =====
-- Bytes written into an image, one piece after the other.
use sunflower.Common.{
  length, take, drop, length-append, length-take, length-drop, ℕ, ◌+◌, ◌≤◌, ◌≡◌, refl, sym, ap, ap₂,
  ◌∙◌, List, ◌++◌, arith,
}
use sunflower.Common.Bytes.{take-append, drop-append}
use mathlib.Core.List.{append_assoc}
use sunflower.Floppy.Chunks.Image.{take-add, drop-drop}

unfoldable pub store : List ℕ → ℕ → List ℕ → List ℕ
store image at bytes = take at image ++ (bytes ++ drop (at + length bytes) image)

length-take_le : (n : ℕ) (xs : List ℕ) → n ≤ length xs → length (take n xs) ≡ n
length-take_le n xs h = length-take n xs ∙ omega arith

-- What is read back where it was written.
pub take-drop-store :
    (image : List ℕ) (at : ℕ) (bytes : List ℕ)
    → at ≤ length image
    → take (length bytes) (drop at (store image at bytes)) ≡ bytes
unfolding store
take-drop-store image at bytes h =
    ap (take (length bytes)) (
      drop-append at (take at image) (bytes ++ drop (at + length bytes) image)
        (length-take_le at image h))
    ∙ take-append (length bytes) bytes (drop (at + length bytes) image) refl

take-more :
    (n m : ℕ) (xs ys zs : List ℕ)
    → length xs ≡ n
    → length ys ≡ m
    → take (n + m) (xs ++ (ys ++ zs)) ≡ xs ++ ys
take-more n m xs ys zs h k =
    sym (take-add n m (xs ++ (ys ++ zs)))
    ∙ ap₂ (◌++◌) (take-append n xs (ys ++ zs) h)
        (ap (take m) (drop-append n xs (ys ++ zs) h) ∙ take-append m ys zs k)

drop-more :
    (n m : ℕ) (xs ys zs : List ℕ)
    → length xs ≡ n
    → length ys ≡ m
    → drop (n + m) (xs ++ (ys ++ zs)) ≡ zs
drop-more n m xs ys zs h k =
    sym (drop-drop n m (xs ++ (ys ++ zs)))
    ∙ ap (drop m) (drop-append n xs (ys ++ zs) h)
    ∙ drop-append m ys zs k

-- Two pieces next to each other are one.
pub store-store :
    (image : List ℕ) (at : ℕ) (a b : List ℕ)
    → at ≤ length image
    → store (store image at a) (at + length a) b ≡ store image at (a ++ b)
unfolding store
store-store image at a b h =
    let pre = take at image in
    let len = length-take_le at image h in
    let rest = drop (at + length a) image in
    let end : at + length a + length b ≡ at + length (a ++ b) = omega (arith, length-append a b) in
    let tail : drop (at + length a + length b) (pre ++ (a ++ rest))
        ≡ drop (at + length (a ++ b)) image =
      sym (drop-drop (at + length a) (length b) (pre ++ (a ++ rest)))
      ∙ ap (drop (length b)) (drop-more at (length a) pre a rest len refl)
      ∙ drop-drop (at + length a) (length b) image
      ∙ ap (λ i. drop i image) end in
    ap₂ (λ p t. p ++ (b ++ t)) (take-more at (length a) pre a rest len refl) tail
    ∙ append_assoc pre a (b ++ drop (at + length (a ++ b)) image)
    ∙ ap (◌++◌ pre) (sym (append_assoc a b (drop (at + length (a ++ b)) image)))

pub length-store :
    (image : List ℕ) (at : ℕ) (bytes : List ℕ)
    → at + length bytes ≤ length image
    → length (store image at bytes) ≡ length image
unfolding store
length-store image at bytes h =
    let rest = drop (at + length bytes) image in
    omega (
      arith,
      length-append (take at image) (bytes ++ rest),
      length-append bytes rest,
      length-take at image,
      length-drop (at + length bytes) image,
    )
