-- ===== src/Fs/Calls/Read.antt =====
-- `fs_read` on a state: what the caller gets.
use ecs150_project.Disk.State.{block_size, IsReliable, Host}
use ecs150_project.Fs.Calls.{fs_read, finish_read}
use ecs150_project.Fs.Calls.Geometry.{IsChain-HasBlock, IsLaidOut}
use ecs150_project.Fs.Descriptors.Seek.{IsOpenAt}
use ecs150_project.Fs.Fat.Chain.{IsChain}
use ecs150_project.Fs.State.{State, FileDescriptor}
use ecs150_project.Fs.Transfer.{returns, goes_on, Portion, find_num_target_blocks}
use ecs150_project.Fs.Transfer.Read.{read_portions-content, content}
use ecs150_project.Prelude.{
  ℕ, ◌+◌, ◌*◌, ◌≤◌, ◌<◌, ◌≡◌, refl, ◌⊎◌, inl, inr, some, List, arith, pos, if◌then◌else◌, ltb,
  update, Bytes, u16,
}
use ecs150_project.Prelude.Lists.{length}

-- The `p`-th byte of the blocks of the file in root entry `f`.
abbrev pub file_content : State → ℕ → ℕ → ℕ
file_content s f p = content s.fat (s.root f).first_index s.sb.data_start_index s.disk p

-- The file in root entry `f` occupies the blocks `bs`.
abbrev pub HasChain : State → ℕ → List ℕ → Type 0
HasChain s f bs = IsChain s.sb.num_data_blocks s.fat (s.root f).first_index bs

-- A read or write of `count` bytes ends inside `length bs` blocks.
pub target-le :
    (offset count m : ℕ) → offset + count ≤ m * block_size → find_num_target_blocks offset count ≤ m
unfolding find_num_target_blocks
target-le offset count m h = ground arith

module _ (host : Host) (good : IsReliable host) (bounce : Bytes) {s : State} {fd : ℕ}
    {d : FileDescriptor} {bs : List ℕ} (laid : IsLaidOut s) (o : IsOpenAt s fd d)
    (c : HasChain s d.file bs) where
  -- On a reliable host, `fs_read` of `count` bytes, at least one, that end inside the file's blocks
  -- returns `count`. The buffer then holds these bytes of the file, from the offset of the descriptor on, and
  -- behind them what it held before; the offset has moved by `count`, in 16 bits, and nothing else
  -- has changed.
  pub fs_read-file_content :
      (buf : Bytes) (count : ℕ)
      → 0 < count
      → d.offset + count ≤ length bs * block_size
      → (b : Bytes) × (fs_read host bounce (pos fd) (some buf) count s ≡ (
        pos count,
        some b,
        record s {
          open_files = update s.open_files fd (some (record d { offset = u16 (d.offset + count) }));
        },
      ))
        × ((k : ℕ) → b k ≡ (if ltb k count then file_content s d.file (d.offset + k) else buf k))
  unfolding fs_read
  fs_read-file_content buf count moves inside =
      let (b, e, f) =
        read_portions-content host good s.fat (s.root d.file).first_index s.sb.data_start_index
          s.disk laid.opened bounce buf d.offset count moves
          (λ k lt.
            IsChain-HasBlock s.sb.data_start_index s.disk laid.fat_small laid.fits laid.small c k
              (omega (arith, target-le d.offset count (length bs) inside))) in
      (b, ground (arith, o.mounted, o.in_range, o.entry, e), f)

-- A read leaves the state as it was, or moves the offset of its descriptor.
pub finish_read-cases :
    (host : Host) (bounce : Bytes) (s : State) (fd : ℕ) (d : FileDescriptor) (p : Portion Bytes)
    → ((finish_read host bounce s fd d p).2 ≡ s)
      ⊎ ((offset : ℕ) × ((finish_read host bounce s fd d p).2 ≡ record s {
        open_files = update s.open_files fd (some (record d { offset = offset }));
      }))
unfolding finish_read
finish_read-cases host bounce s fd d (returns r b) = inl refl
finish_read-cases host bounce s fd d (goes_on b n) = inr (u16 (d.offset + n), refl)
