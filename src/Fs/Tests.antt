-- ===== src/Fs/Tests.antt =====
-- Instances of the theorems about libfs's pointers, inodes, headers and bitmap.
mod Drive
use sunflower.Common.{
  length, replicate, All-get_elem?, All-replicate, ℕ, ◌≡◌, refl, ◌↔◌, true, false, some, arith,
}
use sunflower.Sync.Exclusive.{ExclusiveMap}
use sunflower.Common.Outcome.{ok, err}
use sunflower.Fs.Ptr.{nonzero, new, DualBlockPtr, decode, encode}
use sunflower.Fs.Ptr.Packing.{fitted, decode-encode}
use sunflower.Fs.InodePtr as Pointers
use sunflower.Fs.Inode.{Inode, directory, clone, eq}
use sunflower.Fs.Inode as Inodes
use sunflower.Fs.Inode.Layout as InodeLayout
use sunflower.Fs.Inode.Layout.{of_bytes-as_bytes}
use sunflower.Fs.Inode.Equality.{eq-clone}
use sunflower.Fs.Header as Headers
use sunflower.Fs.Header.{FilesystemHeader, new_header, new_release, partial_cmp, floppy_feature}
use sunflower.Fs.Header.Layout as HeaderLayout
use sunflower.Fs.Header.Layout.{from_raw-as_bytes}
use sunflower.Fs.Header.Release.{calendar, partial_cmp-calendar}
use sunflower.Fs.Bitmap.{bitmap_words, fresh_bitmap, alloc_next_bmp}
use sunflower.Fs.Bitmap.Used.{IsIdle}
use sunflower.Fs.Bitmap.Next.{Allocates, alloc_next_bmp_lem}

decode-encode_example : decode (encode (new 777, new 0)) ≡ (fitted 777, fitted 0)
decode-encode_example = decode-encode 777 0

abbrev packed_pair : DualBlockPtr
packed_pair = record { one = 0x12; two = 0xAB; three = 0xFE }

abbrev home : Inode
home = Inodes.new directory 300 (Pointers.new 5)

home-IsSized : InodeLayout.IsSized home
unfolding Inodes.new Pointers.new nonzero
home-IsSized = record {
  mode_fits = omega arith;
  links_fit = omega arith;
  size_fits = omega arith;
  blocks_len = refl;
  parent_fits = omega arith;
  parent_nonzero = refl;
  reserved_len = refl;
}

of_bytes-as_bytes_example :
    (length (Inodes.as_bytes home) ≡ 128) × (Inodes.of_bytes (Inodes.as_bytes home) ≡ home)
of_bytes-as_bytes_example = of_bytes-as_bytes home home-IsSized

eq-clone_example : (eq home (clone home) ≡ true) ↔ (clone home ≡ clone (clone home))
eq-clone_example = eq-clone home (clone home)

abbrev floppy_header : FilesystemHeader
floppy_header = new_header (replicate 16 0x61) 42 2026 1440 floppy_feature

floppy_header-IsSized : HeaderLayout.IsSized floppy_header
unfolding new_header new_release
floppy_header-IsSized = record {
  magic_len = refl;
  release_fits = omega arith;
  features_fit = omega arith;
  name_sized = refl;
  size_fits = omega arith;
  reserved_len = refl;
}

from_raw-as_bytes_example :
    (length (Headers.as_bytes floppy_header) ≡ 512)
    × (Headers.from_raw (Headers.as_bytes floppy_header) ≡ floppy_header)
from_raw-as_bytes_example = from_raw-as_bytes floppy_header floppy_header-IsSized

partial_cmp-calendar_example :
    partial_cmp (new_release 300 2025) (new_release 12 2026) ≡ some (calendar 300 2025 12 2026)
partial_cmp-calendar_example =
    partial_cmp-calendar 300 2025 12 2026 (omega arith) (omega arith) (omega arith) (omega arith)
      (omega arith) (omega arith)

abbrev IsFree : ExclusiveMap ℕ → Type 0
IsFree w = w.access ≡ false

pub fresh_bitmap-IsIdle : IsIdle fresh_bitmap
unfolding fresh_bitmap
fresh_bitmap-IsIdle = record {
  words = refl;
  free_at = λ i word.
      All-get_elem? IsFree fresh_bitmap i word
        (All-replicate IsFree bitmap_words (record { cell = 0; access = false }) refl);
}

alloc_next_bmp_example : Allocates fresh_bitmap 1 (alloc_next_bmp fresh_bitmap)
alloc_next_bmp_example = alloc_next_bmp_lem fresh_bitmap fresh_bitmap-IsIdle
