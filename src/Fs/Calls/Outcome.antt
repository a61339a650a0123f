-- ===== src/Fs/Calls/Outcome.antt =====
-- What a `fs_write` has done when it returns: the file, the descriptor, and the rest of the disk.
-- What a write of `n` bytes of `buf` at the offset of `d` has done to the file with the blocks `bs`,
-- if it appended the blocks `new`.
use ecs150_project.Disk.Access.{byte_at}
use ecs150_project.Disk.State.{block_size, Disk}
use ecs150_project.Fs.Calls.Geometry.{IsLaidOut}
use ecs150_project.Fs.Calls.Read.{file_content, HasChain}
use ecs150_project.Fs.Descriptors.Seek.{IsOpenAt}
use ecs150_project.Fs.Fat.{Allocated}
use ecs150_project.Fs.Fat.Grow.{IsFull, Free}
use ecs150_project.Fs.State.{State, eoc, FileDescriptor}
use ecs150_project.Prelude.{
  ℕ, ◌+◌, ◌*◌, ◌≤◌, ◌<◌, ◌≡◌, ◌≢◌, ◌⊎◌, false, some, List, ◌++◌, update, u16, Bytes, u32,
}
use ecs150_project.Prelude.Lists.{get_or, has, length}

pub record FileWritten (s s' : State) (d : FileDescriptor) (bs new : List ℕ) (buf : Bytes) (n : ℕ)
    : Type 0 where
  pub chain : HasChain s' d.file (bs ++ new)
  pub free : Free s.fat new
  pub fat_same : (j : ℕ) → has j bs ≡ false → has j new ≡ false → s'.fat j ≡ s.fat j
  pub written : (k : ℕ) → k < n → file_content s' d.file (d.offset + k) ≡ buf k
  pub kept :
      (p : ℕ)
      → p < length bs * block_size
      → (p < d.offset) ⊎ (d.offset + n ≤ p)
      → file_content s' d.file p ≡ file_content s d.file p
  pub other_blocks :
      (b j : ℕ)
      → ((k : ℕ) → k < length (bs ++ new) → b ≢ get_or (bs ++ new) k eoc + s.sb.data_start_index)
      → j < block_size
      → byte_at s'.disk b j ≡ byte_at s.disk b j
  pub laid : IsLaidOut s'
  pub other_files : (f : ℕ) → f ≢ d.file → s'.root f ≡ s.root f

-- A complete `fs_write` of `count` bytes through the descriptor `d`.
pub record WriteDone (s s' : State) (fd : ℕ) (d : FileDescriptor) (bs new : List ℕ) (buf : Bytes)
    (count : ℕ) : Type 0 where
  pub file : FileWritten s s' d bs new buf count
  pub covers : d.offset + count ≤ length (bs ++ new) * block_size
  pub opened : IsOpenAt s' fd (record d { offset = u16 (d.offset + count) })
  pub offset :
      s'.open_files ≡ update s.open_files fd (some (record d { offset = u16 (d.offset + count) }))
  pub size : (s'.root d.file).file_size ≡ u32 ((s.root d.file).file_size + count)

-- A `fs_write` of `count` bytes that ran out of blocks after `n`: the file's blocks are filled, but
-- the descriptor and the file size are not changed.
pub record WriteShort (s s' : State) (d : FileDescriptor) (bs new : List ℕ) (buf : Bytes)
    (count n : ℕ) : Type 0 where
  pub file : FileWritten s s' d bs new buf n
  pub full : IsFull s.sb.num_data_blocks s'.fat
  pub less : n < count
  pub covers :
      (d.offset + n ≡ length (bs ++ new) * block_size)
      ⊎ ((n ≡ 0) × (length (bs ++ new) * block_size ≤ d.offset))
  pub offset : s'.open_files ≡ s.open_files
  pub size : (s'.root d.file).file_size ≡ (s.root d.file).file_size

-- the state when the portions start, with what the allocation returned
abbrev pub grown_state : State → ℕ → Allocated → State
grown_state s file r = record s {
  fat = r.fat;
  root = update s.root file (record (s.root file) { first_index = r.first_index });
}

-- the state behind a complete write that left the disk `e`
abbrev pub final_state : State → ℕ → FileDescriptor → ℕ → Allocated → Disk → State
final_state s fd d count r e = record s {
  fat = r.fat;
  disk = e;
  open_files = update s.open_files fd (some (record d { offset = u16 (d.offset + count) }));
  root = update (grown_state s d.file r).root d.file (record (s.root d.file) {
    first_index = r.first_index;
    file_size = u32 ((s.root d.file).file_size + count);
  });
}
