-- ===== src/Fs/Usage/Mounted.antt =====
-- Which calls change whether a disk is mounted: only `fs_mount` and `fs_umount`.
use ecs150_project.Disk.State.{Host}
use ecs150_project.Fs.Calls.{fs_read}
use ecs150_project.Fs.Descriptors.{fs_close, fs_lseek, fs_open}
use ecs150_project.Fs.Directory.{fs_create}
use ecs150_project.Fs.Directory.Create.{fs_create-CreateResult, CreateResult}
use ecs150_project.Fs.Mount.{fs_umount}
use ecs150_project.Fs.Names.{is_filename_invalid, CString}
use ecs150_project.Fs.Persist.Savable.{Unmoved-fs_read, Unmoved-fs_open}
use ecs150_project.Fs.State.{State, guarded_entry}
use ecs150_project.Prelude.{
  ℕ, ◌≡◌, refl, Bool, true, false, Option, none, some, arith, ℤ, pos, negsuc, Bytes,
}

-- the flag stays
abbrev pub SameMounted : State → State → Type 0
SameMounted s s' = s'.is_disk_mounted ≡ s.is_disk_mounted

pub SameMounted-fs_create : (name : Option CString) (s : State) → SameMounted s (fs_create name s).1
unfolding fs_create is_filename_invalid
SameMounted-fs_create none s = ground arith
SameMounted-fs_create (some name) s = by_result _ (fs_create-CreateResult name s)
  where
    by_result : (r : ℤ × State) → CreateResult name s r → SameMounted s r.1
    by_result (pos n, s') (z, (i, c)) = rw c.after refl
    by_result (negsuc n, s') (z, same, e) = rw same refl

pub SameMounted-fs_open :
    (malloc_ok : Bool) (name : Option CString) (s : State)
    → SameMounted s (fs_open malloc_ok name s).1
unfolding fs_open is_filename_invalid
SameMounted-fs_open malloc_ok none s = ground arith
SameMounted-fs_open malloc_ok (some name) s = (Unmoved-fs_open malloc_ok name s).mounted

pub SameMounted-fs_close : (fd : ℤ) (s : State) → SameMounted s (fs_close fd s).1
unfolding fs_close guarded_entry
SameMounted-fs_close (pos fd) s = ground arith
SameMounted-fs_close (negsuc n) s = refl

pub SameMounted-fs_lseek :
    (fd : ℤ) (offset : ℕ) (s : State) → SameMounted s (fs_lseek fd offset s).1
unfolding fs_lseek guarded_entry
SameMounted-fs_lseek (pos fd) offset s = ground arith
SameMounted-fs_lseek (negsuc n) offset s = refl

module _ (host : Host) (bounce : Bytes) where
  pub SameMounted-fs_read :
      (fd : ℤ) (buf : Option Bytes) (count : ℕ) (s : State)
      → SameMounted s (fs_read host bounce fd buf count s).2
  unfolding fs_read guarded_entry
  SameMounted-fs_read (pos fd) buf count s = (Unmoved-fs_read host bounce fd buf count s).mounted
  SameMounted-fs_read (negsuc n) buf count s = refl

pub fs_umount-unmounted : (host : Host) (s : State) → (fs_umount host s).1.is_disk_mounted ≡ false
unfolding fs_umount
fs_umount-unmounted host s = ground arith

-- `fs_umount` of a mounted disk returns 0.
pub fs_umount-zero :
    (host : Host) (s : State) → s.is_disk_mounted ≡ true → (fs_umount host s).0 ≡ pos 0
unfolding fs_umount
fs_umount-zero host s m = ground arith
