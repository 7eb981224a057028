-- ===== src/Floppy/Chunks.antt =====
-- `read` and `write` of kernel/src/floppy/floppyfs.rs, which cut a transfer at the ends of tracks.
-- The disk operations are arguments. Arithmetic on `usize` and `u64` wraps.
pub mod Cover
pub mod Image
use sunflower.Common.{
  ◌==◌, if◌then◌else◌, length, take, drop, ℕ, zero, suc, ◌+◌, ◌-◌, ◌*◌, ◌%◌, ◌^◌, min, List, [],
  ◌∷◌, ◌++◌,
}
use sunflower.Common.Outcome.{Exec, pure, ◌>>=◌, ◌>>◌}
use sunflower.Floppy.Machine.{sectors, sector_size, cyl_boundary}

-- `SECTORS - block`
abbrev pub fst_cyl_distance : ℕ → ℕ
fst_cyl_distance block = (sectors + 2 ^ 64 - block % 2 ^ 64) % 2 ^ 64

abbrev pub fst_cyl_boundary : ℕ → ℕ → ℕ
fst_cyl_boundary block len = min (fst_cyl_distance block * sector_size % 2 ^ 64) len

-- The lengths of the pieces of at most `CYL_BOUNDARY` bytes; the first argument bounds their number.
unfoldable pub chunk_lengths : ℕ → ℕ → List ℕ
chunk_lengths zero len = []
chunk_lengths (suc n) len =
    let rest = chunk_lengths n (len - cyl_boundary) in
    if len == 0 then [] else min len cyl_boundary ∷ rest

-- The later transfers: the block and the length of each, with what is added to the block between
-- two of them.
unfoldable pub later_requests : ℕ → ℕ → ℕ → List ℕ → List (ℕ × ℕ)
later_requests step block idx [] = []
later_requests step block idx (len ∷ lens) =
    ((block + idx * step) % 2 ^ 64, len) ∷ later_requests step block (idx + 1) lens

-- All transfers for `len` bytes from block `block`.
unfoldable pub requests : ℕ → ℕ → ℕ → List (ℕ × ℕ)
unfolding later_requests chunk_lengths
requests step block len =
    let first = fst_cyl_boundary block len in
    (block, first)
    ∷ later_requests step ((block + fst_cyl_distance block) % 2 ^ 64) 0
        (chunk_lengths len (len - first))

module _ {S E : Type 0} where
  unfoldable pub fetch : (ℕ → ℕ → Exec S E (List ℕ)) → List (ℕ × ℕ) → Exec S E (List ℕ)
  fetch disk_read [] = pure []
  fetch disk_read ((block, len) ∷ rs) = do
    bytes ← disk_read block len
    later ← fetch disk_read rs
    pure (bytes ++ later)

  -- `floppyfs::read` of `len` bytes.
  unfoldable pub read : (ℕ → ℕ → Exec S E (List ℕ)) → ℕ → ℕ → Exec S E (List ℕ)
  unfolding fetch requests
  read disk_read block len = fetch disk_read (requests sectors block len)

  unfoldable pub send :
      (ℕ → List ℕ → Exec S E (Unit {0})) → List ℕ → List (ℕ × ℕ) → Exec S E (Unit {0})
  send disk_write buf [] = pure tt
  send disk_write buf ((block, len) ∷ rs) = do
    disk_write block (take len buf)
    send disk_write (drop len buf) rs

  -- `floppyfs::write`, which adds `CYL_BOUNDARY` between two blocks.
  unfoldable pub write : (ℕ → List ℕ → Exec S E (Unit {0})) → ℕ → List ℕ → Exec S E (Unit {0})
  unfolding send requests
  write disk_write block buf = send disk_write buf (requests cyl_boundary block (length buf))
