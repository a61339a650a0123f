-- ===== src/Fs/Directory.antt =====
-- The root directory in libfs/fs.c: `fs_create`, `fs_delete`, `fs_ls` and `fs_info`.
pub mod Create
pub mod Release
pub mod Delete
pub mod Report
use ecs150_project.Disk.Lifecycle.{block_disk_count}
use ecs150_project.Fs.Fat.{free_chain}
use ecs150_project.Fs.Names.{is_filename_invalid, c_str, CString, streq, write_name}
use ecs150_project.Fs.Root.{find_empty_root_entry, find_matching_filename}
use ecs150_project.Fs.State.{open_max_count, eoc, Table, State, file_max_count, File}
use ecs150_project.Prelude.{
  ℕ, zero, suc, ◌+◌, Bool, false, not, Option, none, some, List, [], ◌∷◌, ℤ, if◌then◌else◌, pos,
  ◌==◌, is_zero, is_some, failure, Bytes, update,
}
use ecs150_project.Prelude.Search.{find_first}

-- the entry that `fs_create` makes of an empty one
abbrev pub new_file : CString → File → File
new_file name f = record f {
  filename = write_name name 0 f.filename;
  file_size = 0;
  first_index = eoc;
}

create_entry : CString → State → ℤ × State
create_entry name s = elim (find_empty_root_entry s.root) [
  | none ↦ (failure, s)
  | some i ↦ (pos 0, record s { root = update s.root i (new_file name (s.root i)) })
]

unfoldable pub fs_create : Option CString → State → ℤ × State
unfolding create_entry
fs_create filename s =
    if not s.is_disk_mounted
    then (failure, s)
    else if is_filename_invalid filename
    then (failure, s)
    else elim filename [
      | none ↦ (failure, s)
      | some name ↦
          if is_some (find_matching_filename name s.root) then (failure, s) else create_entry name s
    ]

-- the test of the loop in `fs_delete` that looks for open descriptors of the file
unfoldable pub is_open_as : CString → State → ℕ → Bool
is_open_as name s i = elim (s.open_files i) [
  | none ↦ false
  | some d ↦ is_zero (streq (s.root d.file).filename (c_str name))
]

unfoldable pub is_file_open : CString → State → Bool
is_file_open name s = is_some (find_first (is_open_as name s) 0 open_max_count)

-- what `fs_delete` leaves of an entry
abbrev pub empty_file : File → File
empty_file f = record f { filename = update f.filename 0 0; file_size = 0; first_index = eoc }

-- The FAT without the blocks of a file, as far as `fs_delete` frees them. Two rounds of the loop
-- decide whether it ends.
unfoldable pub release_blocks : Table → ℕ → Option Table
release_blocks fat block_index =
    if block_index == eoc then some fat else free_chain 2 fat block_index

delete_entry : ℕ → State → Option (ℤ × State)
delete_entry i s = elim (release_blocks s.fat (s.root i).first_index) [
  | none ↦ none
  | some fat' ↦
      some (pos 0, record s { fat = fat'; root = update s.root i (empty_file (s.root i)) })
]

-- `none`: the call does not return.
unfoldable pub fs_delete : Option CString → State → Option (ℤ × State)
unfolding delete_entry
fs_delete filename s =
    if not s.is_disk_mounted
    then some (failure, s)
    else if is_filename_invalid filename
    then some (failure, s)
    else elim filename [
      | none ↦ some (failure, s)
      | some name ↦ elim (find_matching_filename name s.root) [
        | none ↦ some (failure, s)
        | some i ↦ if is_file_open name s then some (failure, s) else delete_entry i s
      ]
    ]

-- A line that `fs_ls` prints: the name, the size and the first index of a file.
pub record Listing : Type 0 where
  pub name : Bytes
  pub size : ℕ
  pub data_blk : ℕ

list_from : ℕ → ℕ → (ℕ → File) → List Listing
list_from zero i root = []
list_from (suc n) i root =
    let rest = list_from n (i + 1) root in
    if (root i).filename 0 == 0
    then rest
    else record {
      name = (root i).filename;
      size = (root i).file_size;
      data_blk = (root i).first_index;
    }
      ∷ rest

-- `fs_ls` goes on when no disk is mounted.
unfoldable pub fs_ls : State → ℤ × List Listing
unfolding list_from
fs_ls s = (pos 0, list_from file_max_count 0 s.root)

unfoldable pub count_if : (ℕ → Bool) → ℕ → ℕ
count_if test zero = 0
count_if test (suc n) = count_if test n + (if test n then 1 else 0)

-- What `fs_info` prints.
pub record Info : Type 0 where
  pub total_blk_count : ℤ
  pub fat_blk_count : ℕ
  pub rdir_blk : ℕ
  pub data_blk : ℕ
  pub data_blk_count : ℕ
  pub free_fat_entries : ℕ
  pub free_root_entries : ℕ

-- `none` is the -1 of the source, with nothing printed.
unfoldable pub fs_info : State → Option Info
fs_info s =
    if not s.is_disk_mounted
    then none
    else some (record {
      total_blk_count = block_disk_count s.disk;
      fat_blk_count = s.sb.num_fat_blocks;
      rdir_blk = s.sb.root_index;
      data_blk = s.sb.data_start_index;
      data_blk_count = s.sb.num_data_blocks;
      free_fat_entries = count_if (λ i. s.fat i == 0) s.sb.num_data_blocks;
      free_root_entries = count_if (λ i. (s.root i).filename 0 == 0) file_max_count;
    })
