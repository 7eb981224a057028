-- ===== src/Floppy/Chunks/Image.antt =====
-- `floppyfs::read` on a disk with given contents, and where `floppyfs::write` goes.
use sunflower.Common.{
  length, get_elem?, take, drop, ℕ, zero, suc, ◌+◌, ◌-◌, ◌*◌, ◌%◌, ◌^◌, ◌≤◌, ◌<◌, min, ◌≡◌, refl,
  sym, ap, ap₂, ◌∙◌, some, List, [], ◌∷◌, ◌++◌, arith,
}
use mathlib.Core.List.{append-nil, append_assoc}
use sunflower.Common.Outcome.{Exec, ok}
use sunflower.Floppy.Machine.{sectors, sector_size, cyl_boundary}
use sunflower.Floppy.Disk.{lba_to_chs, check_transfer}
use sunflower.Floppy.Chunks.{
  fst_cyl_distance, fst_cyl_boundary, chunk_lengths, later_requests, requests, fetch, read, send,
  write,
}
use sunflower.Floppy.Chunks.Cover.{Covers, chunk_lengths-more, requests-Covers}

pub take-nil : (n : ℕ) → take {A = ℕ} n [] ≡ []
take-nil zero = refl
take-nil (suc n) = refl

pub drop-nil : (n : ℕ) → drop {A = ℕ} n [] ≡ []
drop-nil zero = refl
drop-nil (suc n) = refl

pub take-add : (m n : ℕ) (xs : List ℕ) → take m xs ++ take n (drop m xs) ≡ take (m + n) xs
take-add zero n xs = let e : n ≡ 0 + n = omega arith in ap (λ k. take k xs) e
take-add (suc m) n [] = take-nil n ∙ sym (take-nil (suc m + n))
take-add (suc m) n (x ∷ xs) =
    let e : suc (m + n) ≡ suc m + n = omega arith in
    ap (◌∷◌ x) (take-add m n xs) ∙ ap (λ k. take k (x ∷ xs)) e

pub drop-drop : (m n : ℕ) (xs : List ℕ) → drop n (drop m xs) ≡ drop (m + n) xs
drop-drop zero n xs = let e : n ≡ 0 + n = omega arith in ap (λ k. drop k xs) e
drop-drop (suc m) n [] = drop-nil n ∙ sym (drop-nil (suc m + n))
drop-drop (suc m) n (x ∷ xs) =
    let e : suc (m + n) ≡ suc m + n = omega arith in drop-drop m n xs ∙ ap (λ k. drop k (x ∷ xs)) e

-- A disk that holds `image`, and reads what is asked for.
abbrev pub image_read : {S E : Type 0} → List ℕ → ℕ → ℕ → Exec S E (List ℕ)
image_read image block len s = (ok (take len (drop (block * sector_size) image)), s)

abbrev pub part : List ℕ → ℕ → ℕ → List ℕ
part image block n = take (n * sector_size) (drop (block * sector_size) image)

part-add :
    (image : List ℕ) (block k m : ℕ)
    → part image block k ++ part image (block + k) m ≡ part image block (k + m)
part-add image block k m =
    let i : block * sector_size + k * sector_size ≡ (block + k) * sector_size = omega arith in
    let l : k * sector_size + m * sector_size ≡ (k + m) * sector_size = omega arith in
    let at = drop-drop (block * sector_size) (k * sector_size) image ∙ ap (λ i. drop i image) i in
    ap (λ xs. part image block k ++ take (m * sector_size) xs) (sym at)
    ∙ take-add (k * sector_size) (m * sector_size) (drop (block * sector_size) image)
    ∙ ap (λ l. take l (drop (block * sector_size) image)) l

module _ {S E : Type 0} where
  fetch-Covers :
      (image : List ℕ) (s : S) (rs : List (ℕ × ℕ)) (block n : ℕ)
      → Covers block n rs
      → fetch {S = S} {E = E} (image_read image) rs s ≡ (ok (part image block n), s)
  unfolding fetch
  fetch-Covers image s [] block n z = ap (λ k. (ok (part image block k), s)) (sym z)
  fetch-Covers image s ((start, len) ∷ rs) block n (k, l, e, le, a, v) =
      let ih = fetch-Covers image s rs (block + k) (n - k) v in
      let whole : k + (n - k) ≡ n = omega arith in
      let p : take len (drop (start * sector_size) image) ++ part image (block + k) (n - k)
          ≡ part image block n =
        ap₂ (λ l b. take l (drop (b * sector_size) image) ++ part image (block + k) (n - k)) l e
        ∙ part-add image block k (n - k)
        ∙ ap (part image block) whole in
      rw ih (ap (λ bytes. (ok bytes, s)) p)

  -- On a disk that holds `image`, `floppyfs::read` of whole sectors from a block on the first track,
  -- none past the end of the drive, returns exactly that part of the image.
  pub read-part :
      (image : List ℕ) (s : S) (block n : ℕ)
      → block < sectors
      → 0 < n
      → block + n ≤ 2880
      → read {S = S} {E = E} (image_read image) block (n * sector_size) s
        ≡ (ok (part image block n), s)
  unfolding read
  read-part image s block n first some_sectors on =
      fetch-Covers image s (requests sectors block (n * sector_size)) block n
        (requests-Covers block n first some_sectors on)

-- The sectors of the third transfer.
abbrev pub third : ℕ → ℕ → ℕ
third block n = min (block + n - 2 * sectors) sectors

-- The transfers of a write that goes beyond the second track.
requests-third :
    (block n : ℕ)
    → block < sectors
    → 2 * sectors < block + n
    → block + n ≤ 2880
    → (rest : List (ℕ × ℕ)) × (requests cyl_boundary block (n * sector_size)
        ≡ (block, (sectors - block) * sector_size)
          ∷ (sectors, sectors * sector_size)
          ∷ (9234, third block n * sector_size)
          ∷ rest)
unfolding requests later_requests
requests-third block n first beyond on =
    let k = sectors - block in
    let m = third block n in
    let fuel : n * sector_size ≡ suc (suc (n * sector_size - 2)) = omega arith in
    let next : (block + fst_cyl_distance block) % 2 ^ 64 ≡ sectors = omega arith in
    let start : fst_cyl_boundary block (n * sector_size) ≡ k * sector_size = omega arith in
    let left : n * sector_size - fst_cyl_boundary block (n * sector_size) ≡ (n - k) * sector_size =
      omega arith in
    let one =
      chunk_lengths-more (suc (n * sector_size - 2)) (n - k) sectors (omega arith) (omega arith) in
    let two =
      chunk_lengths-more (n * sector_size - 2) (n - k - sectors) m (omega arith) (omega arith) in
    let last = chunk_lengths (n * sector_size - 2) ((n - k - sectors - m) * sector_size) in
    let lengths : chunk_lengths (n * sector_size)
          (n * sector_size - fst_cyl_boundary block (n * sector_size))
        ≡ sectors * sector_size ∷ m * sector_size ∷ last =
      ap₂ chunk_lengths fuel left ∙ one ∙ ap (◌∷◌ (sectors * sector_size)) two in
    (
      later_requests cyl_boundary sectors 2 last,
      ap₂ (λ l ls. (block, l) ∷ ls) start
          (ap₂ (λ b ls. later_requests cyl_boundary b 0 ls) next lengths),
    )

-- A disk that takes everything and keeps what was written, in order.
abbrev pub recorder : ℕ → List ℕ → Exec (List (ℕ × List ℕ)) ⊥ (Unit {0})
recorder block bytes s = (ok tt, s ++ ((block, bytes) ∷ []))

sent : List ℕ → List (ℕ × ℕ) → List (ℕ × List ℕ)
sent buf [] = []
sent buf ((block, len) ∷ rs) = (block, take len buf) ∷ sent (drop len buf) rs

send-sent :
    (rs : List (ℕ × ℕ)) (buf : List ℕ) (s : List (ℕ × List ℕ))
    → send recorder buf rs s ≡ (ok tt, s ++ sent buf rs)
unfolding send sent
send-sent [] buf s = ap (λ s. (ok tt, s)) (sym (append-nil s))
send-sent ((block, len) ∷ rs) buf s =
    send-sent rs (drop len buf) (s ++ ((block, take len buf) ∷ []))
    ∙ ap (λ s. (ok tt, s)) (append_assoc s ((block, take len buf) ∷ []) (sent (drop len buf) rs))

-- `floppyfs::write` of whole sectors from a block on the first track to beyond the second track, all
-- on the drive, on a disk that accepts every transfer, sends what belongs on the blocks from 36 on,
-- at most 18 sectors, to block 9234, its third transfer; the driver addresses this transfer as it does
-- one of the same length from block 18.
pub write-stray :
    (block n : ℕ) (buf : List ℕ)
    → length buf ≡ n * sector_size
    → block < sectors
    → 2 * sectors < block + n
    → block + n ≤ 2880
    → let (r, disk) = write recorder block buf [] in
      (r ≡ ok tt)
      × (get_elem? disk 2
          ≡ some (
            9234,
            take (third block n * sector_size) (drop ((2 * sectors - block) * sector_size) buf),
          ))
      × (check_transfer 9234 (third block n) ≡ check_transfer 18 (third block n))
unfolding write sent check_transfer lba_to_chs
write-stray block n buf len first beyond on =
    let (rest, e) = requests-third block n first beyond on in
    let all = send-sent (requests cyl_boundary block (length buf)) buf [] in
    let shape = ap (requests cyl_boundary block) len ∙ e in
    let past : (sectors - block) * sector_size + sectors * sector_size
        ≡ (2 * sectors - block) * sector_size =
      omega arith in
    let bytes =
      drop-drop ((sectors - block) * sector_size) (sectors * sector_size) buf
      ∙ ap (λ n. drop n buf) past in
    (
      ap (λ r. r.0) all,
      ap (λ r. get_elem? r.1 2) all
          ∙ ap (λ rs. get_elem? (sent buf rs) 2) shape
          ∙ ap (λ b. some (9234, take (third block n * sector_size) b)) bytes,
      ground arith,
    )
