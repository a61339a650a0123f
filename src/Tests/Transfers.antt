-- ===== src/Tests/Transfers.antt =====
-- `fs_read` and `fs_write` on the disk of `Demo`.
use ecs150_project.Disk.Access.{block_read, block_write}
use ecs150_project.Fs.Calls.{fs_read, fs_write, allocate_blocks_in_fat}
use ecs150_project.Fs.Calls.Read.{file_content, fs_read-file_content}
use ecs150_project.Fs.Calls.RoundTrip.{fs_read-fs_write, ReadsBack}
use ecs150_project.Fs.Calls.Write.{WriteOutcome, fs_write-WriteOutcome}
use ecs150_project.Fs.Calls.Zero.{fs_read-zero}
use ecs150_project.Fs.Descriptors.{fs_lseek}
use ecs150_project.Fs.Fat.{allocate_blocks, extend_chain, walk_to_end, find_data_block}
use ecs150_project.Fs.State.{State}
use ecs150_project.Fs.Transfer.{write_portions, find_num_target_blocks, num_full_blocks}
use ecs150_project.Prelude.{
  ℕ, ◌+◌, ◌*◌, ◌/◌, ◌<◌, ◌≡◌, refl, none, some, arith, ltb, if◌then◌else◌, failure, ℤ, pos, update,
  u16, Bytes,
}
use ecs150_project.Tests.Demo.{
  state-IsLaidOut, state-IsOpenAt, host, chain_ab, zeros, state, host-IsReliable, descriptor,
}

abbrev pub data_bytes : Bytes
data_bytes k = 7

-- 300 bytes at offset 100 of the file "ab"
pub after : ℤ × State
unfolding fs_write
after = elim (fs_write host zeros (pos 0) (some data_bytes) 300 state) [
  | none ↦ (failure, state)
  | some r ↦ r
]

pub after-eq : fs_write host zeros (pos 0) (some data_bytes) 300 state ≡ some (pos 300, after.1)
unfolding after fs_write allocate_blocks_in_fat allocate_blocks walk_to_end extend_chain
    find_num_target_blocks write_portions num_full_blocks find_data_block block_read block_write
after-eq = refl

fs_read-fs_write_example :
    ((fs_lseek (pos 0) 100 after.1).0 ≡ pos 0)
    × ReadsBack host zeros (fs_lseek (pos 0) 100 after.1).1 0 300 data_bytes zeros
fs_read-fs_write_example =
    fs_read-fs_write host host-IsReliable zeros state-IsLaidOut state-IsOpenAt chain_ab data_bytes
      zeros 300 (omega arith) (omega arith) (omega arith) (omega arith) after.1 after-eq

moves_9000 : 0 < 9000
moves_9000 = omega arith

-- 9000 bytes at offset 100 reach into a third block, which is added.
fs_write-WriteOutcome_example :
    (res : ℤ × State) × (fs_write host zeros (pos 0) (some data_bytes) 9000 state ≡ some res)
    × WriteOutcome host host-IsReliable zeros state-IsLaidOut state-IsOpenAt chain_ab data_bytes
        9000 moves_9000 res
fs_write-WriteOutcome_example =
    fs_write-WriteOutcome host host-IsReliable zeros state-IsLaidOut state-IsOpenAt chain_ab
      data_bytes 9000 moves_9000

fs_read-file_content_example :
    (b : Bytes) × (fs_read host zeros (pos 0) (some zeros) 5000 state ≡ (
      pos 5000,
      some b,
      record state {
        open_files =
            update state.open_files 0 (some (record descriptor { offset = u16 (100 + 5000) }));
      },
    ))
    × ((k : ℕ) → b k ≡ (if ltb k 5000 then file_content state 0 (100 + k) else 0))
fs_read-file_content_example =
    fs_read-file_content host host-IsReliable zeros state-IsLaidOut state-IsOpenAt chain_ab zeros
      5000 (omega arith) (omega arith)

-- zero bytes from offset 100 of "ab"
fs_read-zero_example :
    (b : Bytes) × (fs_read host zeros (pos 0) (some data_bytes) 0 state ≡ (failure, some b, state))
    × ((k : ℕ)
        → b k ≡ (
            if ltb k 4096
            then file_content state 0 ((100 / 4096 + 1) * 4096 + k)
            else data_bytes k))
fs_read-zero_example =
    fs_read-zero host host-IsReliable zeros data_bytes state-IsLaidOut state-IsOpenAt chain_ab
      (omega arith) (omega arith)
