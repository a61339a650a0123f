-- ===== src/Fs/Mount/Reopen.antt =====
-- The disk that `fs_umount` left, opened again.
use ecs150_project.Disk.Access.{block_read-ok, byte_at, block_read-byte_at, IsOpen, block_read}
use ecs150_project.Disk.State.{block_size, Disk, Host, IsReliable}
use ecs150_project.Fs.Codec.{root_array}
use ecs150_project.Fs.Mount.Save.{
  fat_disk, saved_disk, saved_fd, IsFormatted, saved_byte, fat_saved,
}
use ecs150_project.Fs.Mount.StoredFat.{HoldsFat}
use ecs150_project.Fs.State.{State}
use ecs150_project.Prelude.{ℕ, ◌+◌, ◌-◌, ◌<◌, ◌≡◌, ap, ◌∙◌, ◌≢◌, ◌⊎◌, some, arith, Bytes}

module _ (host : Host) (good : IsReliable host) {s : State} {file : ℕ} (h : IsFormatted s)
    (open_disk : s.disk.fd ≡ some file) where
  -- the saved disk, opened again
  abbrev pub reopened : Disk
  reopened = record (saved_disk host good h open_disk) { fd = some file; bcount = s.disk.bcount }

  pub is_open : IsOpen reopened
  is_open = λ e. cc

  pub reopened_byte :
      (b j : ℕ) → byte_at reopened b j ≡ byte_at (saved_disk host good h open_disk) b j
  reopened_byte b j = ground (arith, saved_fd host good h open_disk)

  pub reopened_root :
      (j : ℕ) → j < block_size → byte_at reopened s.sb.root_index j ≡ root_array s.root j
  reopened_root j lj =
      reopened_byte s.sb.root_index j
      ∙ (saved_byte host good h open_disk s.sb.root_index j lj
          ∙ ground (arith, ap (root_array s.root) (unit j)))
    where
      unit : (j : ℕ) → 0 + j ≡ j
      unit j = omega arith

  -- Every other block is as the loop over the FAT left it.
  pub reopened_other :
      (b j : ℕ)
      → b ≢ s.sb.root_index
      → j < block_size
      → byte_at reopened b j ≡ byte_at (fat_disk host good h open_disk) b j
  reopened_other b j ne lj =
      reopened_byte b j ∙ (saved_byte host good h open_disk b j lj ∙ ground arith)

  pub reopened-HoldsFat : HoldsFat s.fat s.sb.num_fat_blocks reopened
  reopened-HoldsFat k j lt lj =
      reopened_other (k + 1) j (omega (arith, h.root_behind_fat)) lj
      ∙ (fat_saved host good h open_disk).stored k j (omega arith) (omega arith) lj

  -- Neither the superblock nor the data blocks have changed.
  pub reopened_same :
      (b j : ℕ)
      → (b ≡ 0) ⊎ (s.sb.root_index < b)
      → j < block_size
      → byte_at reopened b j ≡ byte_at s.disk b j
  reopened_same b j out lj =
      reopened_other b j (omega (arith, h.root_behind_fat)) lj
      ∙ (fat_saved host good h open_disk).others b j (omega (arith, h.root_behind_fat)) lj

  -- the first block, and the root directory, in a buffer
  pub block_in :
      (b : ℕ) (buf : Bytes) (k : ℕ)
      → b < s.disk.bcount
      → k < block_size
      → (block_read host reopened b buf 0).1 k ≡ byte_at reopened b k
  block_in b buf k lt lk = ground (
    arith,
    block_read-byte_at host reopened b buf 0 k
        (block_read-ok host good reopened b is_open lt buf 0),
    ap (byte_at reopened b) (unit k),
  )
    where
      unit : (j : ℕ) → 0 + (j - 0) ≡ j
      unit j = omega arith
