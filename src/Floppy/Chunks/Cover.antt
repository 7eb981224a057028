-- ===== src/Floppy/Chunks/Cover.antt =====
-- The transfers of `floppyfs::read` cover what was asked for, each on one track.
use mathlib.Core.Path.{subst₂}
use sunflower.Common.{
  ltb, ◌==◌, ltb→lt, Bool-cases, ℕ, zero, suc, ◌+◌, ◌-◌, ◌*◌, ◌/◌, ◌%◌, ◌^◌, ◌≤◌, ◌<◌, min, ◌≡◌,
  refl, sym, ap, subst, ◌∙◌, inl, inr, false, List, [], ◌∷◌, arith, ℕ_discrete,
}
use sunflower.Common.Outcome.{}
use sunflower.Floppy.Machine.{sectors, sector_size, cyl_boundary}
use sunflower.Floppy.Disk.{Chs, lba_to_chs, check_transfer}
use sunflower.Floppy.Disk.Address.{check_transfer_lem}
use sunflower.Floppy.Chunks.{
  fst_cyl_distance, fst_cyl_boundary, chunk_lengths, later_requests, requests,
}

-- Whole sectors, one after the other from `block`, `n` in all, with each transfer accepted.
abbrev pub Covers : ℕ → ℕ → List (ℕ × ℕ) → Type 0
Covers block n [] = n ≡ 0
Covers block n ((start, len) ∷ rs) =
    (k : ℕ) × (len ≡ k * sector_size)
    × (start ≡ block)
    × (k ≤ n)
    × ((a : Chs × ℕ) × (check_transfer start k ≡ inr a))
    × Covers (block + k) (n - k) rs

accepted :
    (block k : ℕ)
    → 0 < k
    → block + k ≤ 2880
    → block / sectors ≡ (block + k - 1) / sectors
    → (a : Chs × ℕ) × (check_transfer block k ≡ inr a)
accepted block k lo hi same =
    let e = check_transfer_lem block k lo (omega arith) in
    ((lba_to_chs block, (lba_to_chs (block + k - 1)).sect), ground arith)

chunk_lengths-none : (fuel : ℕ) → chunk_lengths fuel 0 ≡ []
unfolding chunk_lengths
chunk_lengths-none zero = refl
chunk_lengths-none (suc fuel) = refl

-- One more piece of `k` sectors.
pub chunk_lengths-more :
    (fuel n k : ℕ)
    → 0 < n
    → k ≡ min n sectors
    → chunk_lengths (suc fuel) (n * sector_size)
      ≡ k * sector_size ∷ chunk_lengths fuel ((n - k) * sector_size)
unfolding chunk_lengths
chunk_lengths-more fuel n k pos e =
    let more : (n * sector_size == 0) ≡ false = ground arith in
    let piece : min (n * sector_size) cyl_boundary ≡ k * sector_size = omega arith in
    let left : n * sector_size - cyl_boundary ≡ (n - k) * sector_size = omega arith in
    rw (more, piece, left) refl

later_requests-more :
    (block idx len : ℕ) (lens : List ℕ)
    → block + idx * sectors < 2 ^ 64
    → later_requests sectors block idx (len ∷ lens)
      ≡ (block + idx * sectors, len) ∷ later_requests sectors block (idx + 1) lens
unfolding later_requests
later_requests-more block idx len lens h =
    let w : (block + idx * sectors) % 2 ^ 64 ≡ block + idx * sectors = omega arith in rw w refl

-- After a first transfer of `k` sectors, either nothing is left or the next starts a track.
rest-Covers :
    (fuel n k idx block next : ℕ)
    → k ≤ n
    → (k < n → block + idx * sectors ≡ next)
    → (k < n
        → Covers
            (block + idx * sectors)
            (n - k)
            (later_requests sectors block idx (chunk_lengths fuel ((n - k) * sector_size))))
    → Covers next
        (n - k)
        (later_requests sectors block idx (chunk_lengths fuel ((n - k) * sector_size)))
rest-Covers fuel n k idx block next le at more = elim (Bool-cases (ltb k n)) [
  | inl lt ↦
      subst
        (λ b.
          Covers b (n - k)
            (later_requests sectors block idx (chunk_lengths fuel ((n - k) * sector_size))))
        (at (ltb→lt k n lt)) (more (ltb→lt k n lt))
  | inr ge ↦
      let z : n - k ≡ 0 = ground arith in
      let e : chunk_lengths fuel ((n - k) * sector_size) ≡ [] =
        ap (λ l. chunk_lengths fuel (l * sector_size)) z ∙ chunk_lengths-none fuel in
      rw e (unfold later_requests in z)
]

-- From the start of a track on.
later-Covers :
    (fuel n idx block : ℕ)
    → n * sector_size ≤ fuel
    → block % sectors ≡ 0
    → block + idx * sectors + n ≤ 2880
    → Covers
        (block + idx * sectors)
        n
        (later_requests sectors block idx (chunk_lengths fuel (n * sector_size)))
later-Covers zero n idx block enough start on =
    let z : n ≡ 0 = omega arith in
    let e : chunk_lengths 0 (n * sector_size) ≡ [] = unfold chunk_lengths in refl in
    rw e (unfold later_requests in z)
later-Covers (suc fuel) n idx block enough start on = elim (ℕ_discrete n 0) [
  | yes z ↦
      let e : chunk_lengths (suc fuel) (n * sector_size) ≡ [] =
        ap (λ k. chunk_lengths (suc fuel) (k * sector_size)) z ∙ chunk_lengths-none (suc fuel) in
      rw e (unfold later_requests in z)
  | no nz ↦
      let k = min n sectors in
      let e = chunk_lengths-more fuel n k (omega arith) refl in
      let split =
        later_requests-more block idx (k * sector_size) (chunk_lengths fuel ((n - k) * sector_size))
          (omega arith) in
      let one_track : (block + idx * sectors) / sectors
          ≡ (block + idx * sectors + k - 1) / sectors =
        omega arith in
      let ih = later-Covers fuel (n - k) (idx + 1) block (omega arith) start in
      let rest =
        rest-Covers fuel n k (idx + 1) block (block + idx * sectors + k) (omega arith)
          (λ more. omega (arith, more)) (λ more. ih (omega (arith, more))) in
      subst (Covers (block + idx * sectors) n)
        (sym (ap (later_requests sectors block idx) e ∙ split))
        (
          k,
          refl,
          refl,
          omega arith,
          accepted (block + idx * sectors) k (omega arith) (omega arith) one_track,
          rest,
        )
]

-- For a block on the first track and at least one whole sector, none past the end of the drive: the
-- transfers of `floppyfs::read` are accepted by the driver, one by one, and cover exactly the
-- sectors asked for, in order.
pub requests-Covers :
    (block n : ℕ)
    → block < sectors
    → 0 < n
    → block + n ≤ 2880
    → Covers block n (requests sectors block (n * sector_size))
unfolding requests
requests-Covers block n first some_sectors on =
    let k = min n (sectors - block) in
    let distance : fst_cyl_distance block ≡ sectors - block = omega arith in
    let next : (block + fst_cyl_distance block) % 2 ^ 64 ≡ sectors = omega arith in
    let boundary : fst_cyl_boundary block (n * sector_size) ≡ k * sector_size = omega arith in
    let left : n * sector_size - fst_cyl_boundary block (n * sector_size) ≡ (n - k) * sector_size =
      omega arith in
    let rest =
      rest-Covers (n * sector_size) n k 0 sectors (block + k) (omega arith)
        (λ more. omega (arith, more))
        (λ more.
          later-Covers (n * sector_size) (n - k) 0 sectors (omega arith) refl
            (omega (arith, more))) in
    let track : block / sectors ≡ (block + k - 1) / sectors = omega arith in
    (
      k,
      boundary,
      refl,
      omega arith,
      accepted block k (omega arith) (omega arith) track,
      subst₂
          (λ b l.
            Covers (block + k) (n - k)
              (later_requests sectors b 0 (chunk_lengths (n * sector_size) l)))
          (sym next) (sym left) rest,
    )
