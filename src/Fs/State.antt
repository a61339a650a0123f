-- ===== src/Fs/State.antt =====
-- The structs, the limits and the globals of libfs/fs.c.
-- An entry of `open_files` holds a pointer to a `struct File`. Every such pointer is one of `root[]`,
-- so it is modelled by its index there, and a write through it is a write to the root entry.
use ecs150_project.Prelude.{
  ℕ, Bytes, Bool, Option, none, some, ℤ, pos, negsuc, if◌then◌else◌, not, leb,
}
use ecs150_project.Disk.State.{Disk}

abbrev pub filename_len : ℕ
filename_len = 16

abbrev pub file_max_count : ℕ
file_max_count = 128

abbrev pub open_max_count : ℕ
open_max_count = 32

-- FAT_EOC, the end of a chain
abbrev pub eoc : ℕ
eoc = 0xFFFF

pub record SuperBlock : Type 0 where
  pub signature : Bytes
  pub num_blocks : ℕ
  pub root_index : ℕ
  pub data_start_index : ℕ
  pub num_data_blocks : ℕ
  pub num_fat_blocks : ℕ
  pub padding : Bytes

pub record File : Type 0 where
  pub filename : Bytes
  pub file_size : ℕ
  pub first_index : ℕ
  pub padding : Bytes

pub record FileDescriptor : Type 0 where
  pub file : ℕ
  pub offset : ℕ

abbrev pub Table : Type 0
Table = ℕ → ℕ

-- The globals, and the disk below them.
pub record State : Type 0 where
  pub sb : SuperBlock
  pub fat : Table
  pub root : ℕ → File
  pub open_files : ℕ → Option FileDescriptor
  pub num_open_files : ℕ
  pub is_disk_mounted : Bool
  pub disk : Disk

-- `open_files[fd]` behind the guards that `fs_close`, `fs_stat`, `fs_lseek`, `fs_read` and `fs_write`
-- share: a mounted disk, an `fd` from 0 to FS_FILE_MAX_COUNT - 1, and an entry that is not NULL.
unfoldable pub guarded_entry : State → ℤ → Option (ℕ × FileDescriptor)
guarded_entry s (negsuc _) = none
guarded_entry s (pos fd) =
    if not s.is_disk_mounted
    then none
    else if leb file_max_count fd
    then none
    else elim (s.open_files fd) [ none ↦ none | some d ↦ some (fd, d) ]
