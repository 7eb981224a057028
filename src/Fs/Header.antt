-- ===== src/Fs/Header.antt =====
-- libfs/src/header.rs: the filesystem header and its release date.
pub mod Release
pub mod Layout
use Prim.Native.Nat.{Ordering}
use sunflower.Common.{
  ltb, ◌==◌, if◌then◌else◌, take, drop, replicate, ℕ, ◌+◌, ◌-◌, ◌*◌, ◌/◌, ◌%◌, ◌^◌, bit_and, bit_or,
  ◌&&◌, ◌||◌, Option, some, List, [], ◌∷◌, ◌++◌,
}
use sunflower.Common.Bytes.{to_le, of_le}

-- `FsRelease`, sixteen bits.
pub record FsRelease : Type 0 where
  pub bits : ℕ

abbrev pub year_start : ℕ
year_start = 2025

-- A `u16` subtraction and a shift out of the word drop what does not fit.
unfoldable pub new_release : ℕ → ℕ → FsRelease
new_release day year = record {
  bits = bit_or ((year + 2 ^ 16 - year_start) % 2 ^ 16 * 2 ^ 10 % 2 ^ 16) day;
}

unfoldable pub year_day : FsRelease → ℕ × ℕ
year_day r = let yr : ℕ = r.bits / 2 ^ 10 in let day : ℕ = bit_and r.bits 0b1_1111_1111 in (yr, day)

unfoldable pub partial_cmp : FsRelease → FsRelease → Option Ordering
unfolding year_day
partial_cmp self other =
    if self.bits == other.bits
    then some Ordering.eq
    else (let (self_yr, self_day) = year_day self in
        let (other_yr, other_day) = year_day other in
        if ltb self_yr other_yr || (self_yr == other_yr && ltb self_day other_day)
        then some Ordering.lt
        else some Ordering.gt)

pub record FilesystemHeader : Type 0 where
  pub magic : List ℕ
  pub release : FsRelease
  pub features : ℕ
  pub name : List ℕ
  pub size : ℕ
  pub reserved : List ℕ

-- 0xFD, "SFK", 0x86, 0x64
abbrev pub magic_number : List ℕ
magic_number = 0xFD ∷ b'S' ∷ b'F' ∷ b'K' ∷ 0x86 ∷ 0x64 ∷ []

abbrev pub name_len : ℕ
name_len = 16

abbrev pub reserved_bytes : ℕ
reserved_bytes = 472

-- `FsFeatures::FLOPPY`
abbrev pub floppy_feature : ℕ
floppy_feature = 1

unfoldable pub new_header : List ℕ → ℕ → ℕ → ℕ → ℕ → FilesystemHeader
unfolding new_release
new_header name day year size feats = record {
  magic = magic_number;
  release = new_release day year;
  features = feats;
  name = name;
  size = size;
  reserved = replicate reserved_bytes 0;
}

-- The packed bytes that `AsBytes` reads.
unfoldable pub as_bytes : FilesystemHeader → List ℕ
as_bytes h =
    h.magic
    ++ (to_le 2 h.release.bits
        ++ (to_le 8 h.features ++ (h.name ++ (to_le 8 h.size ++ h.reserved))))

-- `mem::transmute` of the packed bytes.
unfoldable pub from_raw : List ℕ → FilesystemHeader
from_raw bytes =
    let at_release = drop 6 bytes in
    let at_features = drop 2 at_release in
    let at_name = drop 8 at_features in
    let at_size = drop 16 at_name in
    let at_reserved = drop 8 at_size in
    record {
      magic = take 6 bytes;
      release = record { bits = of_le (take 2 at_release) };
      features = of_le (take 8 at_features);
      name = take 16 at_name;
      size = of_le (take 8 at_size);
      reserved = take 472 at_reserved;
    }
