-- ===== src/Fs/Persist.antt =====
-- Files that outlive the process: what calls keep, so that `fs_umount` and a later `fs_mount` give the
-- files back.
pub mod Chains
pub mod Savable
pub mod Steps
pub mod Files
pub mod Sessions
use ecs150_project.Disk.State.{Host, block_size}
use ecs150_project.Fs.Mount.{Memory, fs_mount, fs_umount}
use ecs150_project.Fs.Mount.Save.{IsFormatted}
use ecs150_project.Fs.Names.{CString}
use ecs150_project.Fs.State.{State}
use ecs150_project.Prelude.{ℕ, ◌*◌, ◌≤◌, ◌<◌, ◌≡◌, true, false, none, some, is_some, ℤ, Bytes}

-- A mounted disk that can be saved whole: host file number `file`, of `count` blocks, with the data blocks
-- behind the root directory and no more of them than the FAT entries of one block that are saved.
pub record IsSavable (file count : ℕ) (s : State) : Type 0 where
  pub formatted : IsFormatted s
  pub data_behind : s.sb.root_index < s.sb.data_start_index
  pub few : s.sb.num_data_blocks ≤ 2048
  pub opened : s.disk.fd ≡ some file
  pub bcount : s.disk.bcount ≡ count

-- Every `malloc` of a mount succeeds.
pub record IsAmple (mem : Memory) : Type 0 where
  pub new_sb : is_some mem.new_sb ≡ true
  pub new_fat : is_some mem.new_fat ≡ true
  pub new_file : (f : ℕ) → is_some (mem.new_file f) ≡ true

-- `name` is a path to the host file `file`, which has `count` blocks.
pub record IsImage (host : Host) (file count : ℕ) (name : CString) : Type 0 where
  pub opens : host.open_file name ≡ some file
  pub size : host.fstat file ≡ some (count * block_size)

-- The globals of a process in which nothing has been mounted yet, over the host files `files`: no disk is
-- open, and no file. The pointers, which are NULL, are not looked at.
abbrev pub booted : State → (ℕ → Bytes) → State
booted t files = record t {
  is_disk_mounted = false;
  num_open_files = 0;
  disk = record t.disk { fd = none; files = files };
}

-- `fs_umount` in one process and `fs_mount` of the path `name` in the next: both statuses, and the
-- state afterwards.
unfoldable pub next_process : Host → Memory → CString → State → State → ℤ × ℤ × State
next_process host mem name t s =
    let (r, s') = fs_umount host s in
    let (r', s'') = fs_mount host mem (some name) (booted t s'.disk.files) in (r, r', s'')
