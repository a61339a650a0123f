-- ===== src/Fs/Mount.antt =====
-- `fs_mount` and `fs_umount` of libfs/fs.c, with the helpers that load the superblock, the FAT and the
-- root directory.
-- A null `sb`, `fat` or `root[f]` after a failed `malloc` is not represented: the state keeps what it
-- held. `free` in `fs_umount` leaves the contents in the state, which nothing but `fs_ls` reads then.
pub mod Root
pub mod Superblock
pub mod StoredFat
pub mod Fat
pub mod Save
pub mod Reopen
pub mod Remount
pub mod RoundTrip
pub mod Errors
pub mod Images
use ecs150_project.Disk.Access.{block_write, block_read}
use ecs150_project.Disk.Lifecycle.{block_disk_open, block_disk_count, block_disk_close}
use ecs150_project.Disk.State.{Host, Disk, block_size}
use ecs150_project.Fs.Codec.{
  fat_bytes, concatenate_four_bytes, u16_at, concatenate_two_bytes, root_array,
}
use ecs150_project.Fs.State.{
  Table, eoc, SuperBlock, open_max_count, filename_len, State, file_max_count, File,
}
use ecs150_project.Prelude.{
  ℕ, zero, suc, ◌+◌, ◌*◌, ◌≤◌, true, false, not, Option, none, some, List, if◌then◌else◌, leb, ℤ,
  pos, ◌==◌, is_some, is_zero, int_eq, ltb, failure, update, u16, Bytes, memcpy,
}
use ecs150_project.Prelude.Search.{find_first}

-- What `malloc` returns (`none` is NULL), and what the new memory and the arrays on the stack hold
-- before they are filled; and what `load_fat` comes to if it leaves the
-- bounds of its array.
pub record Memory : Type 0 where
  pub new_sb : Option SuperBlock
  pub new_fat : Option Table
  pub new_file : ℕ → Option File
  pub stack : Bytes
  pub fat_stack : Bytes
  pub overrun : ℤ × Table

unfoldable pub load_disk : Host → Option (List ℕ) → State → ℤ × State
load_disk host diskname s =
    if s.is_disk_mounted
    then (failure, s)
    else let (r, d) = block_disk_open host s.disk diskname in
      if is_zero r
      then (pos 0, record s { disk = d; is_disk_mounted = true })
      else (failure, record s { disk = d })

-- The first byte from `from` on, among `n`, that is not zero.
abbrev pub first_nonzero : Bytes → ℕ → ℕ → Option ℕ
first_nonzero buf from n = find_first (λ i. not (buf (from + i) == 0)) 0 n

load_padding : Bytes → SuperBlock → ℤ × SuperBlock
load_padding buf sb = elim (first_nonzero buf 17 4079) [
  | none ↦ (pos 0, record sb { padding = memcpy sb.padding 0 buf 17 4079 })
  | some i ↦ (failure, record sb { padding = memcpy sb.padding 0 buf 17 (i + 1) })
]

-- the fields behind the index of the first data block
load_counts : Bytes → SuperBlock → ℤ × SuperBlock
load_counts buf sb =
    let sb4 : SuperBlock = record sb {
      num_data_blocks = concatenate_two_bytes (buf 14) (buf 15);
    } in
    let sb5 : SuperBlock = record sb4 { num_fat_blocks = buf 16 } in
    if leb sb4.num_blocks sb4.num_data_blocks
    then (failure, sb4)
    else if leb sb5.num_blocks sb5.num_fat_blocks
    then (failure, sb5)
    else load_padding buf sb5

-- `load_superblock` behind its `malloc`: `count` is what `block_disk_count()` returns, and `sb0` the new
-- memory. The status, and the struct as far as it has been filled.
unfoldable pub load_superblock : ℤ → Bytes → SuperBlock → ℤ × SuperBlock
unfolding load_padding load_counts
load_superblock count buf sb0 =
    let sb1 : SuperBlock = record sb0 {
      signature = memcpy sb0.signature 0 buf 0 8;
      num_blocks = concatenate_two_bytes (buf 8) (buf 9);
    } in
    let sb2 : SuperBlock = record sb1 { root_index = concatenate_two_bytes (buf 10) (buf 11) } in
    let sb3 : SuperBlock = record sb2 {
      data_start_index = concatenate_two_bytes (buf 12) (buf 13);
    } in
    if not (int_eq (pos sb1.num_blocks) count)
    then (failure, sb1)
    else if sb2.root_index == 0
    then (failure, sb2)
    else if sb3.data_start_index == 0
    then (failure, sb3)
    else if sb3.data_start_index == sb3.root_index
    then (failure, sb3)
    else load_counts buf sb3

-- `buf_size` in `load_fat`, a `uint16_t`: the number of elements of the array `buffer`.
abbrev pub buf_size : ℕ → ℕ
buf_size num_data_blocks =
    if ltb block_size (2 * num_data_blocks) then u16 (2 * num_data_blocks) else block_size

-- The loop of `load_fat` over the FAT blocks. `buffer` is an array of `size` elements of type `uint16_t`,
-- so its element `BLOCK_SIZE * i` is at byte 8192 * i. `none`: the block does not fit into the array.
unfoldable pub read_fat_blocks : Host → Disk → ℕ → ℕ → ℕ → Bytes → Option (ℤ × Bytes)
read_fat_blocks host d size zero i buffer = some (pos 0, buffer)
read_fat_blocks host d size (suc n) i buffer =
    let (r, buffer') = block_read host d (i + 1) buffer (2 * (block_size * i)) in
    let rest = read_fat_blocks host d size n (i + 1) buffer' in
    if ltb (2 * size) (2 * (block_size * i) + block_size)
    then none
    else if int_eq r failure
    then some (failure, buffer')
    else rest

-- `load_fat` behind its `malloc`, which returned `fat0`. An access behind the end of `buffer` is undefined
-- behaviour; the status and the FAT are then the argument `overrun`.
unfoldable pub load_fat : Host → Disk → SuperBlock → Bytes → ℤ × Table → Table → ℤ × Table
load_fat host d sb fat_stack overrun fat0 =
    let size = buf_size sb.num_data_blocks in
    elim (read_fat_blocks host d size sb.num_fat_blocks 0 fat_stack) [
      | none ↦ overrun
      | some (r, buffer) ↦
          let fat : Table = λ i. if ltb i sb.num_data_blocks then u16_at buffer i else fat0 i in
          if not (is_zero r)
          then (failure, fat0)
          else if ltb size sb.num_data_blocks
          then overrun
          else if fat 0 == eoc
          then (pos 0, fat)
          else (failure, fat)
    ]

-- No access of `load_fat` is behind the end of `buffer`.
abbrev pub BufferHolds : ℕ → ℕ → Type 0
BufferHolds num_fat_blocks num_data_blocks =
    (2 * (block_size * num_fat_blocks) ≤ 2 * buf_size num_data_blocks + block_size)
    × (num_data_blocks ≤ buf_size num_data_blocks)

-- The 32 bytes of a root entry, from `at` on, put into the new memory `f0`.
unfoldable pub parse_file : Bytes → ℕ → File → File
parse_file buf at f0 = record {
  filename = memcpy f0.filename 0 buf at filename_len;
  file_size =
      concatenate_four_bytes (buf (at + 16)) (buf (at + 17)) (buf (at + 18)) (buf (at + 19));
  first_index = concatenate_two_bytes (buf (at + 20)) (buf (at + 21));
  padding = memcpy f0.padding 0 buf (at + 22) 10;
}

-- `n` entries from entry `f` on
load_entries : (ℕ → Option File) → Bytes → ℕ → ℕ → (ℕ → File) → ℤ × (ℕ → File)
load_entries new_file buf zero f root = (pos 0, root)
load_entries new_file buf (suc n) f root = elim (new_file f) [
  | none ↦ (failure, root)
  | some f0 ↦
      let rest = load_entries new_file buf n (f + 1) (update root f (parse_file buf (32 * f) f0)) in
      if is_some (first_nonzero buf (32 * f + 22) 10) then (failure, root) else rest
]

unfoldable pub load_root_directory : (ℕ → Option File) → Bytes → (ℕ → File) → ℤ × (ℕ → File)
unfolding load_entries
load_root_directory new_file buf root = load_entries new_file buf file_max_count 0 root

-- `fs_mount` from the second `block_read` on, whose status it ignores
mount_root : Host → Memory → Bytes → State → ℤ × State
mount_root host mem buf s =
    let buf' = (block_read host s.disk (s.sb.num_fat_blocks + 1) buf 0).1 in
    let (r, root) = load_root_directory mem.new_file buf' s.root in
    if is_zero r
    then (
      pos 0,
      record s {
        root = root;
        open_files = λ i. if ltb i open_max_count then none else s.open_files i;
      },
    )
    else (failure, record s { root = root })

-- `fs_mount` from `load_fat` on
mount_fat : Host → Memory → Bytes → State → ℤ × State
mount_fat host mem buf s = elim mem.new_fat [
  | none ↦ (failure, s)
  | some fat0 ↦
      let (r, fat) = load_fat host s.disk s.sb mem.fat_stack mem.overrun fat0 in
      if is_zero r
      then mount_root host mem buf (record s { fat = fat })
      else (failure, record s { fat = fat })
]

-- `fs_mount` from the first `block_read` on
mount_superblock : Host → Memory → State → ℤ × State
mount_superblock host mem s =
    let (r, buf) = block_read host s.disk 0 mem.stack 0 in
    if not (is_zero r) then (failure, s) else elim mem.new_sb [
      | none ↦ (failure, s)
      | some sb0 ↦
          let (r', sb) = load_superblock (block_disk_count s.disk) buf sb0 in
          if is_zero r'
          then mount_fat host mem buf (record s { sb = sb })
          else (failure, record s { sb = sb })
    ]

unfoldable pub fs_mount : Host → Memory → Option (List ℕ) → State → ℤ × State
unfolding mount_superblock mount_fat mount_root
fs_mount host mem diskname s =
    let (r, s') = load_disk host diskname s in
    if is_zero r then mount_superblock host mem s' else (failure, s')

-- The loop of `fs_umount` over the FAT blocks; `fat+BLOCK_SIZE*i` is at byte 8192 * i of the table. What
-- it writes behind the end of the table is whatever lies there in memory.
unfoldable pub write_fat_blocks : Host → Table → ℕ → ℕ → Disk → Disk
write_fat_blocks host fat zero i d = d
write_fat_blocks host fat (suc n) i d =
    write_fat_blocks host fat n (i + 1)
      (block_write host d (i + 1) (fat_bytes fat) (2 * (block_size * i))).1

unfoldable pub fs_umount : Host → State → ℤ × State
fs_umount host s =
    if not s.is_disk_mounted
    then (failure, s)
    else let d1 = write_fat_blocks host s.fat s.sb.num_fat_blocks 0 s.disk in
      let d2 = (block_write host d1 s.sb.root_index (root_array s.root) 0).1 in
      let d3 = (block_disk_close d2).1 in (pos 0, record s { disk = d3; is_disk_mounted = false })
