-- ===== src/Fs/Descriptors.antt =====
-- Open files in libfs/fs.c: `add_file_to_fd_array`, `fs_open`, `fs_close`, `fs_stat` and `fs_lseek`.
-- Whether a `malloc` succeeds is an argument.
pub mod Count
pub mod Lifecycle
pub mod Open
pub mod Seek
use ecs150_project.Fs.Names.{CString, is_filename_invalid}
use ecs150_project.Fs.Root.{find_matching_filename}
use ecs150_project.Fs.State.{guarded_entry, State, open_max_count, FileDescriptor}
use ecs150_project.Prelude.{
  ℕ, ◌+◌, ◌-◌, ◌^◌, Bool, not, Option, none, some, is_some, negsuc, ltb, ℤ, failure, if◌then◌else◌,
  pos, u16, update, u8,
}
use ecs150_project.Prelude.Search.{find_first}

-- the first entry of `open_files` that is NULL
unfoldable pub free_slot : (ℕ → Option FileDescriptor) → Option ℕ
free_slot open_files = find_first (λ i. not (is_some (open_files i))) 0 open_max_count

-- `none` is the -1 of the source. On a full array the new descriptor is lost.
unfoldable pub add_file_to_fd_array : Bool → ℕ → State → Option ℕ × State
add_file_to_fd_array malloc_ok file s =
    if ltb open_max_count s.num_open_files
    then (none, s)
    else if not malloc_ok
    then (none, s)
    else elim (free_slot s.open_files) [
      | none ↦ (none, s)
      | some i ↦ (
        some i,
        record s {
          open_files = update s.open_files i (some (record { file = file; offset = 0 }));
          num_open_files = u8 (s.num_open_files + 1);
        },
      )
    ]

fd_result : Option ℕ × State → ℤ × State
fd_result (none, s) = (failure, s)
fd_result (some i, s) = (pos i, s)

unfoldable pub fs_open : Bool → Option CString → State → ℤ × State
unfolding fd_result
fs_open malloc_ok filename s =
    if not s.is_disk_mounted
    then (failure, s)
    else if is_filename_invalid filename
    then (failure, s)
    else elim filename [
      | none ↦ (failure, s)
      | some name ↦ elim (find_matching_filename name s.root) [
        | none ↦ (failure, s)
        | some file ↦ fd_result (add_file_to_fd_array malloc_ok file s)
      ]
    ]

-- The `free` of the descriptor has no counterpart: nothing else points to it. For a number from 32 to 127
-- with a word other than NULL behind `open_files`, the `free` of that word is undefined, and this result
-- is what follows if it returns.
unfoldable pub fs_close : ℤ → State → ℤ × State
unfolding guarded_entry
fs_close fd s = elim (guarded_entry s fd) [
  | none ↦ (failure, s)
  | some (i, _) ↦ (
    pos 0,
    record s {
      open_files = update s.open_files i none;
      num_open_files = u8 (s.num_open_files + 2 ^ 8 - 1);
    },
  )
]

-- a `uint32_t` returned as an `int`
abbrev pub int_of_u32 : ℕ → ℤ
int_of_u32 n = if ltb n (2 ^ 31) then pos n else negsuc (2 ^ 32 - n - 1)

unfoldable pub fs_stat : ℤ → State → ℤ
unfolding guarded_entry
fs_stat fd s = elim (guarded_entry s fd) [
  | none ↦ failure
  | some (_, d) ↦ int_of_u32 (s.root d.file).file_size
]

-- `offset` is a `size_t`, and the field of the descriptor a `uint16_t`.
unfoldable pub fs_lseek : ℤ → ℕ → State → ℤ × State
unfolding guarded_entry
fs_lseek fd offset s = elim (guarded_entry s fd) [
  | none ↦ (failure, s)
  | some (i, d) ↦ if ltb (s.root d.file).file_size offset then (failure, s) else (
    pos 0,
    record s { open_files = update s.open_files i (some (record d { offset = u16 offset })) },
  )
]
