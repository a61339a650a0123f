-- ===== src/Fs/Transfer.antt =====
-- `fs_read` and `fs_write` of libfs/fs.c, in the three portions of the source: the part of the first
-- block behind the offset, the blocks in the middle, and the beginning of the last block.
-- The `int` and `size_t` quantities are exact as long as offset + count stays below 2 ^ 31.
pub mod Portions
pub mod Frame
pub mod Read
pub mod Write
pub mod Zero
use ecs150_project.Disk.Access.{block_write, block_read}
use ecs150_project.Disk.State.{Disk, Host, block_size}
use ecs150_project.Fs.Fat.{find_data_block}
use ecs150_project.Fs.State.{Table, eoc}
use ecs150_project.Prelude.{
  ℕ, zero, suc, ◌+◌, ◌-◌, ◌/◌, ◌%◌, ◌||◌, leb, int_eq, ltb, failure, pos, ◌==◌, if◌then◌else◌, ℤ,
  memcpy, Bytes, u16,
}

-- How a portion ends: by a `return` of the function with this value, or by going on, with the number
-- of bytes moved so far. `A` is what the portion changes: the user's buffer or the disk.
pub data Portion (A : Type 0) : Type 0 where
  returns : ℤ → A → Portion A
  goes_on : A → ℕ → Portion A

infixl 5 ◌then_portion◌
abbrev pub ◌then_portion◌ : {A : Type 0} → Portion A → (A → ℕ → Portion A) → Portion A
returns r a then_portion next = returns r a
goes_on a n then_portion next = next a n

unfoldable pub find_num_target_blocks : ℕ → ℕ → ℕ
find_num_target_blocks offset count =
    let bytes = offset + count in bytes / block_size + (if bytes % block_size == 0 then 0 else 1)

-- how much of the first block a transfer covers that starts inside it
abbrev pub first_amount : ℕ → ℕ → ℕ
first_amount offset count =
    if ltb (offset % block_size + count) block_size then count else block_size - offset % block_size

-- `full_block_start_index` behind the first portion
abbrev pub full_start : ℕ → ℕ
full_start offset =
    if offset % block_size == 0 then offset / block_size else offset / block_size + 1

-- `num_full_blocks`; the loop that it bounds makes no round when the difference is negative
unfoldable pub num_full_blocks : ℕ → ℕ → ℕ → ℕ
num_full_blocks offset count done =
    find_num_target_blocks offset count
    - offset / block_size
    - (if done == 0 then 0 else 1)
    - (if (count - done) % block_size == 0 then 0 else 1)

-- the block of the disk behind an index of the FAT, in a `uint16_t`
abbrev pub on_disk : ℕ → ℕ → ℕ
on_disk start b = u16 (b + start)

-- What both functions know of the file: the FAT, the first index, and `sb->data_start_index`.
-- `bounce` is what the bounce buffers hold before they are filled.
module _ (host : Host) (fat : Table) (first start : ℕ) (bounce : Bytes) where
  module _ (d : Disk) (offset count : ℕ) where
    read_first : Bytes → Portion Bytes
    read_first buf =
        if offset % block_size == 0
        then goes_on buf 0
        else if find_data_block fat first (offset / block_size) == eoc
        then returns (pos 0) buf
        else let (r, block) =
            block_read host d (on_disk start (find_data_block fat first (offset / block_size)))
              bounce 0 in
          let n = first_amount offset count in
          if int_eq r failure
          then returns failure buf
          else goes_on (memcpy buf 0 block (offset % block_size) n) n

    -- `n` rounds of the loop, from block `i` of the file on
    read_full : ℕ → ℕ → Bytes → ℕ → Portion Bytes
    read_full zero i buf done = goes_on buf done
    read_full (suc n) i buf done =
        if find_data_block fat first i == eoc
        then returns (pos done) buf
        else let (r, buf') =
            block_read host d (on_disk start (find_data_block fat first i)) buf done in
          let rest = read_full n (i + 1) buf' (done + block_size) in
          if int_eq r failure then returns failure buf' else rest

    read_last : Bytes → ℕ → Portion Bytes
    read_last buf done =
        let k = find_num_target_blocks offset count - 1 in
        if ltb count done || leb block_size (count - done)
        then returns failure buf
        else if count == done
        then goes_on buf done
        else if find_data_block fat first k == eoc
        then returns (pos done) buf
        else let (r, block) =
            block_read host d (on_disk start (find_data_block fat first k)) bounce 0 in
          if int_eq r failure
          then returns failure buf
          else goes_on (memcpy buf done block 0 (count - done)) (done + (count - done))

    unfoldable pub read_portions : Bytes → Portion Bytes
    unfolding read_first read_full read_last
    read_portions buf =
        read_first buf
        then_portion (λ b done.
            read_full (num_full_blocks offset count done) (full_start offset) b done)
        then_portion read_last

  module _ (buf : Bytes) (offset count : ℕ) where
    write_first : Disk → Portion Disk
    write_first d =
        if offset % block_size == 0
        then goes_on d 0
        else if find_data_block fat first (offset / block_size) == eoc
        then returns (pos 0) d
        else let b = on_disk start (find_data_block fat first (offset / block_size)) in
          let (r, block) = block_read host d b bounce 0 in
          let n = first_amount offset count in
          let (w, d') = block_write host d b (memcpy block (offset % block_size) buf 0 n) 0 in
          if int_eq r failure
          then returns failure d
          else if int_eq w failure
          then returns failure d'
          else goes_on d' n

    write_full : ℕ → ℕ → Disk → ℕ → Portion Disk
    write_full zero i d done = goes_on d done
    write_full (suc n) i d done =
        if find_data_block fat first i == eoc
        then returns (pos done) d
        else let (w, d') =
            block_write host d (on_disk start (find_data_block fat first i)) buf done in
          let rest = write_full n (i + 1) d' (done + block_size) in
          if int_eq w failure then returns failure d' else rest

    write_last : Disk → ℕ → Portion Disk
    write_last d done =
        let k = find_num_target_blocks offset count - 1 in
        if count == done
        then goes_on d done
        else if find_data_block fat first k == eoc
        then returns (pos done) d
        else let b = on_disk start (find_data_block fat first k) in
          let (r, block) = block_read host d b bounce 0 in
          let (w, d') = block_write host d b (memcpy block 0 buf done (count - done)) 0 in
          if int_eq r failure
          then returns failure d
          else if int_eq w failure
          then returns failure d'
          else goes_on d' (done + (count - done))

    unfoldable pub write_portions : Disk → Portion Disk
    unfolding write_first write_full write_last
    write_portions d =
        write_first d
        then_portion (λ e done.
            write_full (num_full_blocks offset count done) (full_start offset) e done)
        then_portion write_last
