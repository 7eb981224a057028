-- ===== src/Fs/Header/Layout.antt =====
-- The 512 bytes of a header, written and read back.
use sunflower.Common.{length, length-append, ◌^◌, ◌<◌, ◌≡◌, refl, ◌++◌, arith}
use sunflower.Common.Bytes.{to_le, length-to_le, of_le-to_le, take-append, drop-append, take_all}
use sunflower.Fs.Header.{FilesystemHeader, name_len, reserved_bytes, as_bytes, from_raw}

-- The ranges of the fields' Rust types.
pub record IsSized (h : FilesystemHeader) : Type 0 where
  pub magic_len : length h.magic ≡ 6
  pub release_fits : h.release.bits < 2 ^ 16
  pub features_fit : h.features < 2 ^ 64
  pub name_sized : length h.name ≡ name_len
  pub size_fits : h.size < 2 ^ 64
  pub reserved_len : length h.reserved ≡ reserved_bytes

-- A header fills one block of 512 bytes, and reading its bytes back gives the same header.
pub from_raw-as_bytes :
    (h : FilesystemHeader) → IsSized h → (length (as_bytes h) ≡ 512) × (from_raw (as_bytes h) ≡ h)
unfolding as_bytes from_raw
from_raw-as_bytes h v =
    let r₅ = to_le 8 h.size ++ h.reserved in
    let r₄ = h.name ++ r₅ in
    let r₃ = to_le 8 h.features ++ r₄ in
    let r₂ = to_le 2 h.release.bits ++ r₃ in
    (
      simp (length-append, length-to_le) (omega arith),
      rw
          (
            drop-append 6 h.magic r₂ v.magic_len,
            take-append 6 h.magic r₂ v.magic_len,
            drop-append 2 (to_le 2 h.release.bits) r₃ (length-to_le 2 _),
            take-append 2 (to_le 2 h.release.bits) r₃ (length-to_le 2 _),
            drop-append 8 (to_le 8 h.features) r₄ (length-to_le 8 _),
            take-append 8 (to_le 8 h.features) r₄ (length-to_le 8 _),
            drop-append 16 h.name r₅ v.name_sized,
            take-append 16 h.name r₅ v.name_sized,
            drop-append 8 (to_le 8 h.size) h.reserved (length-to_le 8 _),
            take-append 8 (to_le 8 h.size) h.reserved (length-to_le 8 _),
            take_all 472 h.reserved v.reserved_len,
            of_le-to_le 2 h.release.bits (omega arith),
            of_le-to_le 8 h.features (omega arith),
            of_le-to_le 8 h.size (omega arith),
          )
          refl,
    )
