-- ===== src/Tests/Mounts.antt =====
-- `fs_mount` and `fs_umount` on a formatted disk with the files of `Demo`.
-- the disk of `Demo` with a superblock in its first block
use ecs150_project.Disk.Access.{block_read-block_write, byte_at, block_read, block_write}
use ecs150_project.Disk.Lifecycle.{block_disk_open, block_disk_close}
use ecs150_project.Fs.Codec.{concatenate_two_bytes, u16_at}
use ecs150_project.Fs.Mount.{Memory, fs_umount, write_fat_blocks, BufferHolds, fs_mount, load_fat}
use ecs150_project.Fs.Mount.Errors.{fs_mount-is_disk_mounted}
use ecs150_project.Fs.Mount.Fat.{load_fat-gap}
use ecs150_project.Fs.Mount.Images.{IsMountable}
use ecs150_project.Fs.Mount.Images.Exact.{fs_mount-IsMountable}
use ecs150_project.Fs.Mount.Root.{IsStorable}
use ecs150_project.Fs.Mount.RoundTrip.{
  fs_mount-fs_umount, fs_mount-num_open_files, fs_mount-unmarked,
}
use ecs150_project.Fs.Mount.Save.{IsFormatted, Remounted}
use ecs150_project.Fs.Mount.Superblock.{word, IsAccepted}
use ecs150_project.Fs.State.{State, Table}
use ecs150_project.Prelude.{
  ℕ, ◌^◌, ◌<◌, ◌≡◌, refl, ap, true, false, none, some, [], arith, pos, if◌then◌else◌, ◌==◌, failure,
  update, Bytes,
}
use ecs150_project.Tests.Demo.{
  host-IsReliable, blank, state, disk, superblock, zeros, table, name_c, host,
}

abbrev pub formatted_bytes : Bytes
formatted_bytes i =
    if i == 8
    then 11
    else if i == 10
    then 2
    else if i == 12
    then 3
    else if i == 14
    then 8
    else if i == 16
    then 1
    else 0

abbrev pub formatted : State
formatted = record state {
  disk = record { fd = some 0; bcount = 11; files = λ f. formatted_bytes };
}

abbrev pub memory : Memory
memory = record {
  new_sb = some superblock;
  new_fat = some zeros;
  new_file = λ f. some blank;
  stack = zeros;
  fat_stack = zeros;
  overrun = (failure, zeros);
}

pub table-small : (i : ℕ) → table i < 2 ^ 16
table-small i = ground arith

IsStorable-blank : IsStorable blank
IsStorable-blank = record {
  size_fits = omega arith;
  index_fits = omega arith;
  padding_zero = λ j lj. refl;
}

IsStorable-root : (f : ℕ) → IsStorable (state.root f)
IsStorable-root f = record {
  size_fits = ground arith;
  index_fits = ground arith;
  padding_zero = λ j lj. ground arith;
}

formatted-IsAccepted : IsAccepted 11 (byte_at formatted.disk 0)
unfolding concatenate_two_bytes
formatted-IsAccepted = record {
  blocks = refl;
  root_set = omega arith;
  data_set = omega arith;
  root_apart = omega arith;
  data_fits = omega arith;
  fat_fits = omega arith;
  padding = λ k lo hi. ground arith;
}

pub formatted-IsFormatted :
    (fat : Table) → ((i : ℕ) → fat i < 2 ^ 16) → IsFormatted (record formatted { fat = fat })
unfolding concatenate_two_bytes
formatted-IsFormatted fat small = record {
  mounted = refl;
  accepted = formatted-IsAccepted;
  root_index = refl;
  data_start_index = refl;
  num_data_blocks = refl;
  num_fat_blocks = refl;
  root_behind_fat = refl;
  root_on_disk = omega arith;
  some_fat = omega arith;
  some_data = omega arith;
  buffer_holds = (omega arith, omega arith);
  fat_fits = λ i lt. small i;
  storable = λ f lt. IsStorable-root f;
}

fs_mount-fs_umount_example :
    (s' : State) × ((fs_umount host formatted).0 ≡ pos 0)
    × (fs_mount host memory (some []) (fs_umount host formatted).1 ≡ (pos 0, s'))
    × Remounted formatted s'
fs_mount-fs_umount_example =
    fs_mount-fs_umount host host-IsReliable (formatted-IsFormatted table table-small) refl memory
      refl refl (λ f. refl) [] refl refl refl

-- "ab" is open at the unmount
fs_mount-num_open_files_example :
    (s' : State) × (fs_mount host memory (some []) (fs_umount host formatted).1 ≡ (pos 0, s'))
    × ((k : ℕ) → k < 32 → s'.open_files k ≡ none)
    × (s'.num_open_files ≡ 1)
fs_mount-num_open_files_example =
    fs_mount-num_open_files host host-IsReliable (formatted-IsFormatted table table-small) refl
      memory refl refl (λ f. refl) [] refl refl refl

-- entry 0 cleared
abbrev cleared_table : Table
cleared_table = update table 0 0

abbrev cleared : State
cleared = record formatted { fat = cleared_table }

fs_mount-unmarked_example :
    (s' : State) × ((fs_umount host cleared).0 ≡ pos 0)
    × (fs_mount host memory (some []) (fs_umount host cleared).1 ≡ (failure, s'))
    × (s'.is_disk_mounted ≡ true)
fs_mount-unmarked_example =
    fs_mount-unmarked host host-IsReliable
      (formatted-IsFormatted cleared_table (λ i. ground (arith, table-small i))) refl memory refl
      refl (λ f. refl) [] refl refl (omega arith)

-- a FAT of 3100 entries in two blocks
load_fat-gap_example :
    (load_fat host formatted.disk
        (record superblock { num_data_blocks = 3100; num_fat_blocks = 2 })
        zeros
        (failure, zeros)
        zeros).1
      2500
    ≡ u16_at zeros 2500
load_fat-gap_example =
    load_fat-gap host host-IsReliable formatted.disk (λ e. cc)
      (record superblock { num_data_blocks = 3100; num_fat_blocks = 2 }) zeros (failure, zeros)
      zeros (omega arith) (omega arith, omega arith) 2500 (omega arith) (omega arith)

abbrev pub unmounted_state : State
unmounted_state = record state { is_disk_mounted = false; disk = record disk { fd = none } }

open_disk-eq : (block_disk_open host unmounted_state.disk (some [])).0 ≡ pos 0
unfolding block_disk_open
open_disk-eq = refl

fs_mount-is_disk_mounted_example :
    ((fs_mount host memory (some []) unmounted_state).1.is_disk_mounted ≡ true)
    × (fs_mount host memory (some name_c) (fs_mount host memory (some []) unmounted_state).1
        ≡ (failure, (fs_mount host memory (some []) unmounted_state).1))
fs_mount-is_disk_mounted_example =
    fs_mount-is_disk_mounted host memory memory (some []) (some name_c) unmounted_state refl
      open_disk-eq

block_read-block_write_example :
    (block_read host (block_write host disk 4 zeros 0).1 4 zeros 0).1 9
    ≡ (if 4 == 4 then zeros 9 else (block_read host disk 4 zeros 0).1 9)
block_read-block_write_example =
    block_read-block_write host host-IsReliable disk 4 4 zeros zeros 9 (λ e. cc) (omega arith)
      (omega arith) (omega arith)

abbrev saved : State
saved = (fs_umount host formatted).1

saved-idle : saved.is_disk_mounted ≡ false
unfolding fs_umount
saved-idle = refl

saved-opens : (block_disk_open host saved.disk (some [])).0 ≡ pos 0
unfolding fs_umount block_disk_open block_disk_close block_write write_fat_blocks
saved-opens = refl

saved-small : (block_disk_open host saved.disk (some [])).1.bcount < 2 ^ 31
unfolding fs_umount block_disk_open block_disk_close block_write write_fat_blocks
saved-small = omega arith

saved-holds :
    let d = (block_disk_open host saved.disk (some [])).1 in
    BufferHolds (byte_at d 0 16) (word (byte_at d 0 14) (byte_at d 0 15))
unfolding fs_umount block_disk_open block_disk_close block_write write_fat_blocks
saved-holds = (omega arith, omega arith)

fs_mount-IsMountable_example : IsMountable memory (block_disk_open host saved.disk (some [])).1
fs_mount-IsMountable_example =
    (fs_mount-IsMountable host memory (some []) saved host-IsReliable saved-idle saved-opens
        saved-small saved-holds).0
      (ap (λ r. r.0)
        (fs_mount-fs_umount host host-IsReliable (formatted-IsFormatted table table-small) refl
          memory refl refl (λ f. refl) [] refl refl refl).2)
