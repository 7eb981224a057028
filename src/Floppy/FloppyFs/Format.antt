-- ===== src/Floppy/FloppyFs/Format.antt =====
-- `init_floppyfs` on a drive that keeps what is written to it.
use sunflower.Floppy.FloppyFs.{
  InitError, corrupt_drive, FsState, good_fs_header, bytes_eq, Drive, init_floppyfs,
}
use sunflower.Common.Outcome.{Outcome, ok, err}
use sunflower.Fs.Header.{from_raw, magic_number, FilesystemHeader, as_bytes}
use mathlib.Core.List.{append_assoc}
use sunflower.Fs.Header.Layout.{IsSized, from_raw-as_bytes}
use sunflower.Floppy.Chunks.Image.{image_read, read-part}
use sunflower.Floppy.Machine.{sectors, sector_size, cyl_boundary}
use sunflower.Common.{
  length, take, drop, replicate, length-take, length-drop, take-append-drop, length-replicate, ℕ,
  zero, suc, ◌+◌, ◌*◌, ◌≤◌, ◌≡◌, refl, sym, ap, ap₂, ◌∙◌, Bool, true, false, List, [], ◌∷◌, ◌++◌,
  arith,
}
use sunflower.Common.Bytes.{of_le, take-append, drop-append, take_all}
use sunflower.Floppy.Chunks.{requests, fetch, send}
use sunflower.Floppy.Chunks
use sunflower.Floppy.FloppyFs.Store.{store, take-drop-store, store-store, length-store}
use sunflower.Fs.Inode.{Inode, is_available, of_bytes}
use sunflower.Fs.Bitmap.{BlockBitmap}
use sunflower.Fs.Mount.{reformat_drive, read_table, parse_nods, active, load_nods}
use sunflower.Fs.Mount.Load.{resting}
use sunflower.Fs.Mount.Read.{read_table-ok}

abbrev pub zeros : ℕ → List ℕ
zeros n = replicate n 0

-- The image of a drive that was formatted: the header, a table of zeros, and the rest.
abbrev pub formatted : FilesystemHeader → List ℕ → List ℕ
formatted h image = store image 0 (as_bytes h ++ zeros 17920)

zeros-add : (m n : ℕ) → zeros (m + n) ≡ zeros m ++ zeros n
zeros-add zero n = let e : 0 + n ≡ n = omega arith in ap zeros e
zeros-add (suc m) n =
    let e : suc m + n ≡ suc (m + n) = omega arith in ap zeros e ∙ ap (◌∷◌ 0) (zeros-add m n)

zero_inode : (ns : List Inode) → active (of_bytes (zeros 128) ∷ ns) ≡ active ns
unfolding active of_bytes is_available of_le
zero_inode ns = refl

-- No inode of a table of zeros is in use.
zeros-active : (n : ℕ) → active (parse_nods n (zeros (n * 128))) ≡ []
unfolding parse_nods active
zeros-active zero = refl
zeros-active (suc n) =
    let e : suc n * 128 ≡ 128 + n * 128 = omega arith in
    let split = ap zeros e ∙ zeros-add 128 (n * 128) in
    let now = take-append 128 (zeros 128) (zeros (n * 128)) refl in
    let later = drop-append 128 (zeros 128) (zeros (n * 128)) refl in
    ap (λ b. active (parse_nods (suc n) b)) split
    ∙ ap₂ (λ a b. active (of_bytes a ∷ parse_nods n b)) now later
    ∙ zero_inode (parse_nods n (zeros (n * 128)))
    ∙ zeros-active n

-- The same image, as the two pieces that were written.
formatted-pieces :
    (h : FilesystemHeader) (image : List ℕ)
    → length (as_bytes h) ≡ 512
    → store (store image 0 (as_bytes h)) 512 (zeros 17920) ≡ formatted h image
formatted-pieces h image len =
    let at : 512 ≡ 0 + length (as_bytes h) = omega (arith, len) in
    ap (λ k. store (store image 0 (as_bytes h)) k (zeros 17920)) at
    ∙ store-store image 0 (as_bytes h) (zeros 17920) (omega arith)

header_read :
    (h : FilesystemHeader) (image : List ℕ)
    → IsSized h
    → from_raw (take 512 (drop (0 * sector_size) (formatted h image))) ≡ h
unfolding store
header_read h image v =
    let (len, back) = from_raw-as_bytes h v in
    let rest = drop (0 + length (as_bytes h ++ zeros 17920)) image in
    ap (λ b. from_raw (take 512 b)) (append_assoc (as_bytes h) (zeros 17920) rest)
    ∙ ap from_raw (take-append 512 (as_bytes h) (zeros 17920 ++ rest) len)
    ∙ back

good_magic : (day year : ℕ) → bytes_eq (good_fs_header day year).magic magic_number ≡ true
unfolding good_fs_header bytes_eq
good_magic day year = refl

abbrev pub statics : List Inode → BlockBitmap → List ℕ → Bool → FsState (List ℕ)
statics ns bmp image flag = record { mount = resting ns bmp image; floppyfs_init = flag }

module _ {E : Type 0} where
  abbrev pub image_drive : Drive (List ℕ) E
  image_drive = record {
    ready = λ image. true;
    disk_read = λ block len image. image_read image block len image;
    disk_write = λ block bytes image. (ok tt, store image (block * sector_size) bytes);
  }

  fetch-image :
      (image : List ℕ) (rs : List (ℕ × ℕ))
      → fetch {E = E} image_drive.disk_read rs image ≡ fetch (image_read image) rs image
  unfolding fetch
  fetch-image image [] = refl
  fetch-image image ((block, len) ∷ rs) = rw (fetch-image image rs) refl

  write-header :
      (h image : List ℕ)
      → length h ≡ 512
      → Chunks.write {E = E} image_drive.disk_write 0 h image ≡ (ok tt, store image 0 h)
  unfolding Chunks.write requests send
  write-header h image len =
      ap (λ n. send image_drive.disk_write h (requests cyl_boundary 0 n) image) len
      ∙ ap (λ b. (ok tt, store image 0 b)) (take_all 512 h len)

  write-table :
      (z image : List ℕ)
      → length z ≡ 17920
      → 512 ≤ length image
      → Chunks.write {E = E} image_drive.disk_write 1 z image ≡ (ok tt, store image 512 z)
  unfolding Chunks.write requests send
  write-table z image len room =
      let first : length (take 8704 z) ≡ 8704 = omega (arith, length-take 8704 z) in
      let second : length (drop 8704 z) ≡ 9216 = omega (arith, length-drop 8704 z) in
      ap (λ n. send image_drive.disk_write z (requests cyl_boundary 1 n) image) len
      ∙ ap (λ b. (ok tt, store (store image 512 (take 8704 z)) 9216 b))
          (take_all 9216 (drop 8704 z) second)
      ∙ ap (λ k. (ok tt, store (store image 512 (take 8704 z)) (512 + k) (drop 8704 z))) (sym first)
      ∙ ap (λ i. (ok tt, i)) (store-store image 512 (take 8704 z) (drop 8704 z) room)
      ∙ ap (λ b. (ok tt, store image 512 b)) (take-append-drop 8704 z)

  reformat_drive-image :
      (h : FilesystemHeader) (image : List ℕ)
      → IsSized h
      → 18432 ≤ length image
      → reformat_drive {E = E} h (Chunks.write image_drive.disk_write) image
        ≡ (ok tt, formatted h image)
  unfolding reformat_drive
  reformat_drive-image h image v room =
      let len = (from_raw-as_bytes h v).0 in
      let tail : length (zeros 17920) ≡ 17920 = length-replicate {A = ℕ} 17920 0 in
      let enough : 512 ≤ length (store image 0 (as_bytes h)) =
        omega (arith, length-store image 0 (as_bytes h) (omega arith)) in
      rw
        (
          write-header (as_bytes h) image len,
          write-table (zeros 17920) (store image 0 (as_bytes h)) tail enough,
        )
        (ap (λ i. (ok tt, i)) (formatted-pieces h image len))

  table_read :
      (h : FilesystemHeader) (image : List ℕ)
      → IsSized h
      → 18432 ≤ length image
      → Chunks.read {E = E} image_drive.disk_read 1 17920 (formatted h image)
        ≡ (ok (zeros 17920), formatted h image)
  unfolding Chunks.read
  table_read h image v room =
      let len = (from_raw-as_bytes h v).0 in
      let whole = formatted-pieces h image len in
      let tail : length (zeros 17920) ≡ 17920 = length-replicate {A = ℕ} 17920 0 in
      let enough : 512 ≤ length (store image 0 (as_bytes h)) =
        omega (arith, length-store image 0 (as_bytes h) (omega arith)) in
      let back : take 17920 (drop 512 (formatted h image)) ≡ zeros 17920 =
        ap₂ (λ n i. take n (drop 512 i)) (sym tail) (sym whole)
        ∙ take-drop-store (store image 0 (as_bytes h)) 512 (zeros 17920) enough in
      fetch-image (formatted h image) (requests sectors 1 17920)
      ∙ read-part {E = E} (formatted h image) (formatted h image) 1 35 (omega arith) (omega arith)
          (omega arith)
      ∙ ap (λ b. (ok b, formatted h image)) back

  mounted :
      (h : FilesystemHeader) (image : List ℕ) (ns : List Inode) (bmp : BlockBitmap)
      → IsSized h
      → 18432 ≤ length image
      → read_table (Chunks.read {E = E} image_drive.disk_read) (resting ns bmp (formatted h image))
        ≡ (ok (0, 0), resting ns bmp (formatted h image))
  unfolding load_nods
  mounted h image ns bmp v room =
      read_table-ok (Chunks.read image_drive.disk_read) ns bmp (formatted h image)
        (formatted h image) (zeros 17920) (table_read h image v room)
      ∙ ap (λ ns'. load_nods ns' 0 0 (resting ns bmp (formatted h image))) (zeros-active 140)

  module _ (image : List ℕ) (ns : List Inode) (bmp : BlockBitmap) (flag : Bool) (day year : ℕ) where
    format_and_mount :
        IsSized (good_fs_header day year)
        → 18432 ≤ length image
        → bytes_eq (from_raw (take 512 image)).magic magic_number ≡ false
        → init_floppyfs {E = E} image_drive day year true (statics ns bmp image flag)
          ≡ (ok tt, statics ns bmp (formatted (good_fs_header day year) image) true)
    unfolding init_floppyfs
    format_and_mount v room unformatted =
        rw
          (
            unformatted,
            reformat_drive-image (good_fs_header day year) image v room,
            mounted (good_fs_header day year) image ns bmp v room,
          )
          refl

    mount_again :
        IsSized (good_fs_header day year)
        → 18432 ≤ length image
        → (day' year' : ℕ) (agreed : Bool)
        → let now = statics ns bmp (formatted (good_fs_header day year) image) flag in
          init_floppyfs {E = E} image_drive day' year' agreed now
          ≡ (ok tt, record now { floppyfs_init = true })
    unfolding init_floppyfs
    mount_again v room day' year' agreed =
        let known =
          ap (λ h. bytes_eq h.magic magic_number) (header_read (good_fs_header day year) image v)
          ∙ good_magic day year in
        rw (known, mounted (good_fs_header day year) image ns bmp v room) refl

    refused :
        bytes_eq (from_raw (take 512 image)).magic magic_number ≡ false
        → init_floppyfs {E = E} image_drive day year false (statics ns bmp image flag)
          ≡ (err corrupt_drive, statics ns bmp image flag)
    unfolding init_floppyfs
    refused unformatted = rw unformatted refl

    -- On a drive that keeps what is written, has at least 36 sectors and does not start with the
    -- magic number: `init_floppyfs` fails and changes nothing if the user refuses. If the user
    -- agrees, it puts the header and an empty inode table on the first 36 sectors, leaves the rest
    -- of the drive, the table and the bitmap alone and sets `FLOPPYFS_INIT`; and any later start, of
    -- a kernel of any date, finds that filesystem without asking and changes nothing on the drive.
    pub init_floppyfs-format :
        IsSized (good_fs_header day year)
        → 18432 ≤ length image
        → bytes_eq (from_raw (take 512 image)).magic magic_number ≡ false
        → (day' year' : ℕ) (agreed : Bool)
        → let h = good_fs_header day year in
          let done : Outcome (InitError E) (Unit {0}) × FsState (List ℕ) =
            (ok tt, statics ns bmp (formatted h image) true) in
          (init_floppyfs {E = E} image_drive day year false (statics ns bmp image flag)
            ≡ (err corrupt_drive, statics ns bmp image flag))
          × (init_floppyfs {E = E} image_drive day year true (statics ns bmp image flag) ≡ done)
          × (init_floppyfs {E = E} image_drive day' year' agreed
                (statics ns bmp (formatted h image) flag)
              ≡ done)
    init_floppyfs-format v room unformatted day' year' agreed = (
      refused unformatted,
      format_and_mount v room unformatted,
      mount_again v room day' year' agreed,
    )
