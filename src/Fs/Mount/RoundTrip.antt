-- ===== src/Fs/Mount/RoundTrip.antt =====
-- `fs_mount` behind `fs_umount`: what comes back.
use ecs150_project.Disk.State.{IsReliable, block_size, Host}
use ecs150_project.Fs.Mount.{fs_mount, Memory, fs_umount}
use ecs150_project.Fs.Mount.Remount.{fs_mount-refused, fs_mount-saved}
use ecs150_project.Fs.Mount.Save.{Remounted, IsFormatted, fs_umount-saved_disk, saved_disk}
use ecs150_project.Fs.State.{Table, State, eoc, SuperBlock, open_max_count}
use ecs150_project.Prelude.{
  ℕ, ◌*◌, ◌<◌, ◌≡◌, refl, ap, ◌∙◌, ◌≢◌, true, false, none, some, List, pos, failure, is_some,
}

module _ (host : Host) (good : IsReliable host) {s : State} {file : ℕ} (h : IsFormatted s)
    (open_disk : s.disk.fd ≡ some file) (mem : Memory) {sb0 : SuperBlock} {fat0 : Table}
    (has_sb : mem.new_sb ≡ some sb0) (has_fat : mem.new_fat ≡ some fat0)
    (has_files : (f : ℕ) → is_some (mem.new_file f) ≡ true) (name : List ℕ)
    (opens : host.open_file name ≡ some file)
    (size : host.fstat file ≡ some (s.disk.bcount * block_size)) where
  saved : fs_umount host s ≡ (
    pos 0,
    record s {
      disk = record (saved_disk host good h open_disk) { fd = none };
      is_disk_mounted = false;
    },
  )
  saved = fs_umount-saved_disk host good h open_disk

  -- On a reliable host, `fs_umount` of a formatted disk whose FAT begins with the end mark, and fits
  -- the array of `load_fat`, and
  -- `fs_mount` of the same host file both return 0. The numbers of the superblock, the files of
  -- the root directory and the data blocks come back, and of every 4096 entries of the FAT the
  -- first 2048. No file is open.
  pub fs_mount-fs_umount :
      s.fat 0 ≡ eoc
      → (s' : State) × ((fs_umount host s).0 ≡ pos 0)
        × (fs_mount host mem (some name) (fs_umount host s).1 ≡ (pos 0, s'))
        × Remounted s s'
  fs_mount-fs_umount mark =
      let (s', e, r, same) =
        fs_mount-saved host good h open_disk mem (fs_umount host s).1 has_sb has_fat has_files name
          opens size (ap (λ r. r.1.is_disk_mounted) saved) (ap (λ r. r.1.disk.fd) saved) refl
          mark in
      (s', ap (λ r. r.0) saved, e, r)

  -- On a formatted disk whose FAT fits the array of `load_fat`: if entry 0 of the FAT is not the end mark, as `fs_delete` leaves it behind a file of several
  -- blocks, `fs_umount` still returns 0, but `fs_mount` of the same host file returns -1, and
  -- counts the disk as mounted.
  pub fs_mount-unmarked :
      s.fat 0 ≢ eoc
      → (s' : State) × ((fs_umount host s).0 ≡ pos 0)
        × (fs_mount host mem (some name) (fs_umount host s).1 ≡ (failure, s'))
        × (s'.is_disk_mounted ≡ true)
  fs_mount-unmarked unmarked =
      let (s', e, m) =
        fs_mount-refused host good h open_disk mem (fs_umount host s).1 has_sb has_fat has_files
          name opens size (ap (λ r. r.1.is_disk_mounted) saved) (ap (λ r. r.1.disk.fd) saved) refl
          unmarked in
      (s', ap (λ r. r.0) saved, e, m)

  -- On a formatted disk whose FAT fits the array of `load_fat`: if files are open at the `fs_umount`, the mount behind it in the same process has no open file, but
  -- counts as many as there were.
  pub fs_mount-num_open_files :
      s.fat 0 ≡ eoc
      → (s' : State) × (fs_mount host mem (some name) (fs_umount host s).1 ≡ (pos 0, s'))
        × ((k : ℕ) → k < open_max_count → s'.open_files k ≡ none)
        × (s'.num_open_files ≡ s.num_open_files)
  fs_mount-num_open_files mark =
      let (s', e, r, same) =
        fs_mount-saved host good h open_disk mem (fs_umount host s).1 has_sb has_fat has_files name
          opens size (ap (λ r. r.1.is_disk_mounted) saved) (ap (λ r. r.1.disk.fd) saved) refl
          mark in
      (s', e, r.closed_files, same ∙ ap (λ r. r.1.num_open_files) saved)
