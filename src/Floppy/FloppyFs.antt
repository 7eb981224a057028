-- ===== src/Floppy/FloppyFs.antt =====
-- `init_floppyfs` of kernel/src/floppy/floppyfs.rs, on the driver, the transfers across tracks and
-- libfs. What is printed is left out, and the answer to the question whether to format the drive is
-- an argument.
pub mod Store
pub mod Format
use sunflower.Common.{◌==◌, if◌then◌else◌, ℕ, Bool, true, false, not, ◌&&◌, List, [], ◌∷◌}
use sunflower.Common.Outcome.{map_err, Exec, pure, raise, ◌>>=◌, ◌>>◌, modify, gets}
use sunflower.Floppy.Machine.{FloppyError, World, Machine}
use sunflower.Floppy.Chunks
use sunflower.Floppy.Disk
use sunflower.Fs.Header.{FilesystemHeader, magic_number, floppy_feature, new_header, from_raw}
use sunflower.Fs.Mount.{MountState, ReadTblError, reformat_drive, read_table}

pub data InitError (E : Type 0) : Type 0 where
  no_floppy_driver : InitError E
  floppy_error : E → InitError E
  corrupt_drive : InitError E
  table_error : ReadTblError E → InitError E

-- The filesystem's statics and the driver under it.
pub record FsState (D : Type 0) : Type 0 where
  pub mount : MountState D
  pub floppyfs_init : Bool

abbrev pub floppy_name : List ℕ
floppy_name =
    102 ∷ 108 ∷ 111 ∷ 112 ∷ 112 ∷ 121 ∷ 32 ∷ 100 ∷ 114 ∷ 105 ∷ 118 ∷ 101 ∷ 0 ∷ 0 ∷ 0 ∷ 0 ∷ []

-- `GOOD_FS_HEADER`, of the day and the year that the kernel was built with.
unfoldable pub good_fs_header : ℕ → ℕ → FilesystemHeader
unfolding new_header
good_fs_header day year = new_header floppy_name day year 0 floppy_feature

unfoldable pub bytes_eq : List ℕ → List ℕ → Bool
bytes_eq [] [] = true
bytes_eq (x ∷ xs) (y ∷ ys) = x == y && bytes_eq xs ys
bytes_eq [] (y ∷ ys) = false
bytes_eq (x ∷ xs) [] = false

-- The transfers of a drive, as `disk::read` and `disk::write` give them.
pub record Drive (D E : Type 0) : Type 0 where
  pub ready : D → Bool
  pub disk_read : ℕ → ℕ → Exec D E (List ℕ)
  pub disk_write : ℕ → List ℕ → Exec D E (Unit {0})

module _ {D E : Type 0} (drive : Drive D E) where
  on_drive : {A : Type 0} → Exec D E A → Exec (FsState D) (InitError E) A
  on_drive o s =
      let (r, d) = o s.mount.drive in
      (map_err floppy_error r, record s { mount = record s.mount { drive = d } })

  on_mount :
      {A : Type 0} → Exec (MountState D) (ReadTblError E) A → Exec (FsState D) (InitError E) A
  on_mount o s = let (r, m) = o s.mount in (map_err table_error r, record s { mount = m })

  -- The question, if the drive is not formatted, and the formatting.
  unfoldable pub format_if :
      ℕ → ℕ → Bool → FilesystemHeader → Exec (FsState D) (InitError E) FilesystemHeader
  unfolding on_drive good_fs_header reformat_drive bytes_eq
  format_if day year agreed header =
      if bytes_eq header.magic magic_number
      then pure header
      else if agreed
      then (on_drive (reformat_drive (good_fs_header day year) (Chunks.write drive.disk_write))
          >> pure (good_fs_header day year))
      else raise corrupt_drive

  -- An error ends the task with `ExitCode::Error`, a value with `ExitCode::Ok`.
  unfoldable pub init_floppyfs : ℕ → ℕ → Bool → Exec (FsState D) (InitError E) (Unit {0})
  unfolding on_drive on_mount format_if from_raw read_table
  init_floppyfs day year agreed = do
    ready ← gets (λ s. drive.ready s.mount.drive)
    if not ready
        then raise no_floppy_driver
        else (on_drive (drive.disk_read 0 512) >>= (λ buf.
            format_if day year agreed (from_raw buf) >>= (λ _.
              on_mount (read_table (Chunks.read drive.disk_read))
              >>= (λ counts. modify (λ s. record s { floppyfs_init = true })))))

-- The floppy driver as such a drive.
unfoldable pub floppy_drive : World → ℕ → ℕ → Drive Machine FloppyError
unfolding Disk.read Disk.write
floppy_drive w fuel depth = record {
  ready = λ m. m.floppy_init;
  disk_read = Disk.read w fuel depth;
  disk_write = Disk.write w fuel depth;
}
