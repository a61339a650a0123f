-- ===== src/Fs/Calls/Zero.antt =====
-- `fs_read` of zero bytes.
use ecs150_project.Disk.State.{block_size, IsReliable, Host}
use ecs150_project.Fs.Calls.{fs_read}
use ecs150_project.Fs.Calls.Geometry.{IsLaidOut, IsChain-HasBlock}
use ecs150_project.Fs.Calls.Read.{file_content, HasChain}
use ecs150_project.Fs.Descriptors.Seek.{IsOpenAt}
use ecs150_project.Fs.State.{State, FileDescriptor}
use ecs150_project.Fs.Transfer.Zero.{read_portions-zero}
use ecs150_project.Prelude.{
  ℕ, ◌+◌, ◌*◌, ◌/◌, ◌%◌, ◌<◌, ◌≡◌, ◌∙◌, ◌≢◌, some, List, arith, pos, failure, ltb, if◌then◌else◌,
  Bytes,
}
use ecs150_project.Prelude.Lists.{length}

-- On a reliable host, `fs_read` of zero bytes from the middle of a block returns -1 if the file has a
-- further block, and puts that block's 4096 bytes into the caller's buffer. The state stays.
pub fs_read-zero :
    (host : Host) (good : IsReliable host) (bounce : Bytes) {s : State} {fd : ℕ}
    {d : FileDescriptor} {bs : List ℕ} (buf : Bytes)
    → IsLaidOut s
    → IsOpenAt s fd d
    → HasChain s d.file bs
    → d.offset % block_size ≢ 0
    → d.offset / block_size + 1 < length bs
    → (b : Bytes) × (fs_read host bounce (pos fd) (some buf) 0 s ≡ (failure, some b, s))
      × ((k : ℕ)
          → b k ≡ (
              if ltb k block_size
              then file_content s d.file ((d.offset / block_size + 1) * block_size + k)
              else buf k))
unfolding fs_read
fs_read-zero host good bounce {s} {fd} {d} {bs} buf laid o c part more =
    let has = IsChain-HasBlock s.sb.data_start_index s.disk laid.fat_small laid.fits laid.small c in
    let next = d.offset / block_size + 1 in
    let (b, e, at) =
      read_portions-zero host good s.fat (s.root d.file).first_index s.sb.data_start_index s.disk
        laid.opened bounce buf d.offset part (has (d.offset / block_size) (omega arith))
        (has next more) in
    (
      b,
      ground (arith, o.mounted, o.in_range, o.entry, e),
      λ k. at k ∙ ground (arith, block_of next k, byte_of next k),
    )
  where
    block_of : (n k : ℕ) → k < block_size → (n * block_size + k) / block_size ≡ n
    block_of n k lt = omega arith

    byte_of : (n k : ℕ) → k < block_size → (n * block_size + k) % block_size ≡ k
    byte_of n k lt = omega arith
