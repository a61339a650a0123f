-- ===== src/Fs/Mount/Save.antt =====
-- What `fs_umount` leaves on the disk.
-- A mounted disk that can be saved: block 0 is the superblock it was mounted with, the root directory
-- lies behind the FAT, and what is stored fits.
use ecs150_project.Disk.Access.{
  block_write-ok, block_write, bcount-block_write, byte_at-block_write, fd-block_write, byte_at,
}
use ecs150_project.Disk.Lifecycle.{block_disk_close}
use ecs150_project.Disk.State.{block_size, IsReliable, Host, Disk}
use ecs150_project.Fs.Codec.{concatenate_two_bytes, root_array}
use ecs150_project.Fs.Mount.{fs_umount, BufferHolds, write_fat_blocks}
use ecs150_project.Fs.Mount.Root.{IsStorable, SameFile}
use ecs150_project.Fs.Mount.StoredFat.{write_fat_blocks-FatStored, FatStored}
use ecs150_project.Fs.Mount.Superblock.{IsAccepted}
use ecs150_project.Fs.State.{open_max_count, file_max_count, State}
use ecs150_project.Prelude.{
  ℕ, ◌+◌, ◌/◌, ◌%◌, ◌^◌, ◌<◌, ◌≡◌, ◌∙◌, true, false, none, some, arith, ◌==◌, if◌then◌else◌, pos,
}

pub record IsFormatted (s : State) : Type 0 where
  pub mounted : s.is_disk_mounted ≡ true
  pub accepted : IsAccepted s.disk.bcount (byte_at s.disk 0)
  pub root_index :
      s.sb.root_index ≡ concatenate_two_bytes (byte_at s.disk 0 10) (byte_at s.disk 0 11)
  pub data_start_index :
      s.sb.data_start_index ≡ concatenate_two_bytes (byte_at s.disk 0 12) (byte_at s.disk 0 13)
  pub num_data_blocks :
      s.sb.num_data_blocks ≡ concatenate_two_bytes (byte_at s.disk 0 14) (byte_at s.disk 0 15)
  pub num_fat_blocks : s.sb.num_fat_blocks ≡ byte_at s.disk 0 16
  pub root_behind_fat : s.sb.root_index ≡ s.sb.num_fat_blocks + 1
  pub root_on_disk : s.sb.root_index < s.disk.bcount
  pub some_fat : 0 < s.sb.num_fat_blocks
  pub some_data : 0 < s.sb.num_data_blocks
  pub buffer_holds : BufferHolds s.sb.num_fat_blocks s.sb.num_data_blocks
  pub fat_fits : (i : ℕ) → i < s.sb.num_data_blocks → s.fat i < 2 ^ 16
  pub storable : (f : ℕ) → f < file_max_count → IsStorable (s.root f)

-- What `s'`, mounted again, has kept of `s`.
pub record Remounted (s s' : State) : Type 0 where
  pub mounted : s'.is_disk_mounted ≡ true
  pub root_index : s'.sb.root_index ≡ s.sb.root_index
  pub data_start_index : s'.sb.data_start_index ≡ s.sb.data_start_index
  pub num_data_blocks : s'.sb.num_data_blocks ≡ s.sb.num_data_blocks
  pub num_fat_blocks : s'.sb.num_fat_blocks ≡ s.sb.num_fat_blocks
  pub fat :
      (i : ℕ)
      → i < s.sb.num_data_blocks
      → i / 4096 < s.sb.num_fat_blocks
      → i % 4096 < 2048
      → s'.fat i ≡ s.fat i
  pub root : (f : ℕ) → f < file_max_count → SameFile (s'.root f) (s.root f)
  pub fd : s'.disk.fd ≡ s.disk.fd
  pub bcount : s'.disk.bcount ≡ s.disk.bcount
  pub superblock : (j : ℕ) → j < block_size → byte_at s'.disk 0 j ≡ byte_at s.disk 0 j
  pub closed_files : (k : ℕ) → k < open_max_count → s'.open_files k ≡ none
  pub data_blocks :
      (b j : ℕ) → s.sb.root_index < b → j < block_size → byte_at s'.disk b j ≡ byte_at s.disk b j

module _ (host : Host) (good : IsReliable host) {s : State} {file : ℕ} (h : IsFormatted s)
    (open_disk : s.disk.fd ≡ some file) where
  -- the disk with the FAT, and the one with the root directory too
  abbrev pub fat_disk : Disk
  fat_disk = write_fat_blocks host s.fat s.sb.num_fat_blocks 0 s.disk

  abbrev pub saved_disk : Disk
  saved_disk = (block_write host fat_disk s.sb.root_index (root_array s.root) 0).1

  pub fat_saved : FatStored host good s.fat s.sb.num_fat_blocks 0 s.disk fat_disk
  fat_saved =
      write_fat_blocks-FatStored host good s.fat s.sb.num_fat_blocks 0 s.disk
        (λ e. ground (arith, open_disk)) (omega (arith, h.root_behind_fat, h.root_on_disk))

  pub saved_fd : saved_disk.fd ≡ some file
  saved_fd = fd-block_write host fat_disk _ _ 0 ∙ (fat_saved.fd ∙ open_disk)

  pub saved_bcount : saved_disk.bcount ≡ s.disk.bcount
  saved_bcount = bcount-block_write host fat_disk _ _ 0 ∙ fat_saved.bcount

  root_written : (block_write host fat_disk s.sb.root_index (root_array s.root) 0).0 ≡ pos 0
  root_written =
      block_write-ok host good fat_disk s.sb.root_index (rw (fat_saved.fd, open_disk) (λ e. cc))
        (rw fat_saved.bcount h.root_on_disk) (root_array s.root) 0

  pub saved_byte :
      (b j : ℕ)
      → j < block_size
      → byte_at saved_disk b j
        ≡ (if b == s.sb.root_index then root_array s.root (0 + j) else byte_at fat_disk b j)
  saved_byte b j lj =
      byte_at-block_write host fat_disk s.sb.root_index (root_array s.root) 0 b j root_written lj

  pub fs_umount-saved_disk :
      fs_umount host s
      ≡ (pos 0, record s { disk = record saved_disk { fd = none }; is_disk_mounted = false })
  unfolding fs_umount block_disk_close
  fs_umount-saved_disk = ground (arith, h.mounted, saved_fd)
