-- ===== src/Fs/Calls.antt =====
-- `fs_read`, `fs_write` and `allocate_blocks_in_fat` of libfs/fs.c on the state of the file system.
-- `bounce` is what the bounce buffers on the stack hold at first.
pub mod Geometry
pub mod Effect
pub mod Slots
pub mod Write
pub mod Outcome
pub mod Written
pub mod Read
pub mod Zero
pub mod RoundTrip
use ecs150_project.Disk.State.{Disk, Host}
use ecs150_project.Fs.Fat.{allocate_blocks}
use ecs150_project.Fs.State.{FileDescriptor, guarded_entry, State}
use ecs150_project.Fs.Transfer.{
  returns, read_portions, goes_on, write_portions, Portion, find_num_target_blocks,
}
use ecs150_project.Prelude.{
  ℕ, ◌+◌, Bool, Option, none, some, if◌then◌else◌, failure, pos, ◌==◌, ℤ, u32, update, u16, Bytes,
}

-- `allocate_blocks_in_fat(fd, num_target_blocks)` for the root entry `file` behind the descriptor. The
-- walk along the chain gets a round for each entry of the FAT; `none`: it does not end.
unfoldable pub allocate_blocks_in_fat : ℕ → ℕ → State → Option (Bool × State)
allocate_blocks_in_fat file num_target_blocks s =
    elim (allocate_blocks s.sb.num_data_blocks s.sb.num_data_blocks num_target_blocks s.fat
      (s.root file).first_index) [
        | none ↦ none
        | some r ↦ some (
          r.success,
          record s {
            fat = r.fat;
            root = update s.root file (record (s.root file) { first_index = r.first_index });
          },
        )
      ]

module _ (host : Host) (bounce : Bytes) where
  -- the end of `fs_read`: only a read that reaches it moves the offset
  pub finish_read : State → ℕ → FileDescriptor → Portion Bytes → ℤ × Option Bytes × State
  finish_read s fd d (returns r buf) = (r, some buf, s)
  finish_read s fd d (goes_on buf n) = (
    pos n,
    some buf,
    record s {
      open_files = update s.open_files fd (some (record d { offset = u16 (d.offset + n) }));
    },
  )

  -- The status, the user's buffer (`none` is NULL) and the state afterwards.
  unfoldable pub fs_read : ℤ → Option Bytes → ℕ → State → ℤ × Option Bytes × State
  unfolding finish_read guarded_entry
  fs_read fd buf count s = elim (guarded_entry s fd) [
    | none ↦ (failure, buf, s)
    | some (i, d) ↦ elim buf [
      | none ↦ (failure, none, s)
      | some b ↦ finish_read s i d (
          read_portions host s.fat (s.root d.file).first_index s.sb.data_start_index bounce s.disk
            d.offset count b)
    ]
  ]

  -- the end of `fs_write`: only a write that reaches it moves the offset and changes the file size
  pub finish_write : State → ℕ → FileDescriptor → Portion Disk → ℤ × State
  finish_write s fd d (returns r disk) = (r, record s { disk = disk })
  finish_write s fd d (goes_on disk n) = (
    pos n,
    record s {
      disk = disk;
      open_files = update s.open_files fd (some (record d { offset = u16 (d.offset + n) }));
      root =
          update s.root d.file
            (record (s.root d.file) { file_size = u32 ((s.root d.file).file_size + n) });
    },
  )

  -- `fs_write` behind its guards; it goes on when the allocation fails.
  write_open : State → ℕ → FileDescriptor → Bytes → ℕ → Option (ℤ × State)
  write_open s fd d buf count =
      elim (allocate_blocks_in_fat d.file (find_num_target_blocks d.offset count) s) [
        | none ↦ none
        | some (_, s') ↦ some (
            finish_write s' fd d (
              write_portions host s'.fat (s'.root d.file).first_index s'.sb.data_start_index bounce
                buf d.offset count s'.disk))
      ]

  -- `none`: the call does not return.
  unfoldable pub fs_write : ℤ → Option Bytes → ℕ → State → Option (ℤ × State)
  unfolding write_open finish_write guarded_entry
  fs_write fd buf count s = elim (guarded_entry s fd) [
    | none ↦ some (failure, s)
    | some (i, d) ↦ elim buf [
      | none ↦ some (failure, s)
      | some b ↦ if count == 0 then some (pos 0, s) else write_open s i d b count
    ]
  ]
