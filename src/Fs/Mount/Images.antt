-- ===== src/Fs/Mount/Images.antt =====
-- `load_disk`, `load_superblock`, `load_fat` and `load_root_directory` together: which disks `fs_mount`
-- accepts, in terms of the bytes of the disk.
pub mod Exact
use ecs150_project.Disk.Access.{byte_at, block_read}
use ecs150_project.Disk.State.{Disk, Host}
use ecs150_project.Fs.Codec.{u16_at}
use ecs150_project.Fs.Directory.{new_file}
use ecs150_project.Fs.Mount.{
  load_entries, mount_root, mount_fat, first_nonzero, Memory, load_root_directory, load_fat,
  parse_file,
}
use ecs150_project.Fs.Mount.Superblock.{word, IsAccepted}
use ecs150_project.Fs.State.{eoc, Table, File, State, file_max_count}
use ecs150_project.Prelude.{
  ℕ, zero, suc, ◌+◌, ◌*◌, ◌≤◌, ◌<◌, ◌≡◌, refl, ◌↔◌, inl, inr, true, not, Option, none, some, arith,
  ◌==◌, if◌then◌else◌, is_some, ℤ, pos, Option-cases, ==→eq, ltb, Bool-cases, Bytes, update,
}
use ecs150_project.Prelude.Search.{none-find_first, find_first-none}

-- What `block_read(num_fat_blocks + 1, ...)` leaves in the buffer that holds the superblock: its status
-- is ignored, so behind the last block the superblock is what is read as the root directory.
abbrev pub root_byte : Disk → ℕ → ℕ
root_byte d k =
    if ltb (byte_at d 0 16 + 1) d.bcount then byte_at d (byte_at d 0 16 + 1) k else byte_at d 0 k

-- Entry 0 of the FAT that is loaded_table, where `fat0` is the new memory and `fat_stack` the array. Without
-- data blocks nothing is copied, and without FAT blocks nothing is read.
abbrev pub first_entry_of : Disk → Bytes → Table → ℕ
first_entry_of d fat_stack fat0 =
    if word (byte_at d 0 14) (byte_at d 0 15) == 0
    then fat0 0
    else if byte_at d 0 16 == 0
    then u16_at fat_stack 0
    else u16_at (byte_at d 1) 0

-- What `fs_mount` requires of an open disk and of the memory.
pub record IsMountable (mem : Memory) (d : Disk) : Type 0 where
  pub superblock : IsAccepted d.bcount (byte_at d 0)
  pub sb_allocated : is_some mem.new_sb ≡ true
  pub fat_allocated : is_some mem.new_fat ≡ true
  pub marked : (fat0 : Table) → mem.new_fat ≡ some fat0 → first_entry_of d mem.fat_stack fat0 ≡ eoc
  pub files_allocated : (f : ℕ) → f < file_max_count → is_some (mem.new_file f) ≡ true
  pub padding : (f k : ℕ) → f < file_max_count → k < 10 → root_byte d (32 * f + 22 + k) ≡ 0

-- Entries `f` to `f + n - 1` can be loaded.
pub record Loadable (new_file : ℕ → Option File) (buf : Bytes) (f n : ℕ) : Type 0 where
  pub allocated : (g : ℕ) → f ≤ g → g < f + n → is_some (new_file g) ≡ true
  pub zeros : (g k : ℕ) → f ≤ g → g < f + n → k < 10 → buf (32 * g + 22 + k) ≡ 0

-- `load_root_directory` on its own.
module _ (new_file : ℕ → Option File) (buf : Bytes) where
  zeros-none :
      (f : ℕ)
      → ((k : ℕ) → k < 10 → buf (32 * f + 22 + k) ≡ 0)
      → first_nonzero buf (32 * f + 22) 10 ≡ none
  zeros-none f zeros =
      none-find_first (λ i. not (buf (32 * f + 22 + i) == 0)) 0 10
        (λ k lo hi. ground (arith, zeros k hi))

  none-zeros :
      (f k : ℕ) → first_nonzero buf (32 * f + 22) 10 ≡ none → k < 10 → buf (32 * f + 22 + k) ≡ 0
  none-zeros f k e lt =
      ground
        (arith, find_first-none (λ i. not (buf (32 * f + 22 + i) == 0)) 0 10 e k (omega arith) lt)

  load_entries-Loadable :
      (n f : ℕ) (root : ℕ → File)
      → Loadable new_file buf f n
      → (load_entries new_file buf n f root).0 ≡ pos 0
  unfolding load_entries
  load_entries-Loadable zero f root h = refl
  load_entries-Loadable (suc n) f root h = elim (Option-cases (new_file f)) [
    | inl e ↦ absurd (ground (arith, h.allocated f (omega arith) (omega arith)))
    | inr (f0, e) ↦ ground (
      arith,
      zeros-none f (λ k lt. h.zeros f k (omega arith) (omega arith) lt),
      load_entries-Loadable n (f + 1) (update root f (parse_file buf (32 * f) f0)) (record {
        allocated = λ g lo hi. h.allocated g (omega arith) (omega arith);
        zeros = λ g k lo hi lt. h.zeros g k (omega arith) (omega arith) lt;
      }),
    )
  ]

  Loadable-load_entries :
      (n f : ℕ) (root : ℕ → File)
      → (load_entries new_file buf n f root).0 ≡ pos 0
      → Loadable new_file buf f n
  unfolding load_entries
  Loadable-load_entries zero f root h = record {
    allocated = λ g lo hi. absurd (omega arith);
    zeros = λ g k lo hi lt. absurd (omega arith);
  }
  Loadable-load_entries (suc n) f root h = elim (Option-cases (new_file f)) [
    | inl e ↦ absurd (ground arith)
    | inr (f0, e) ↦ elim (Option-cases (first_nonzero buf (32 * f + 22) 10)) [
      | inr (i, bad) ↦ absurd (ground arith)
      | inl good ↦
          let rest =
            Loadable-load_entries n (f + 1) (update root f (parse_file buf (32 * f) f0))
              (ground arith) in
          record {
            allocated = λ g lo hi. elim (Bool-cases (g == f)) [
              | inl q ↦ rw (==→eq g f q) (ground arith)
              | inr ne ↦ rest.allocated g (ground arith) (omega arith)
            ];
            zeros = λ g k lo hi lt. elim (Bool-cases (g == f)) [
              | inl q ↦ rw (==→eq g f q) (none-zeros f k good lt)
              | inr ne ↦ rest.zeros g k (ground arith) (omega arith) lt
            ];
          }
    ]
  ]

-- The stages of `fs_mount`: what a status of 0 says of each, and what gives it.
module _ (host : Host) (mem : Memory) (buf : Bytes) (s : State) where
  -- the buffer that is read as the root directory
  root_buffer : Bytes
  root_buffer = (block_read host s.disk (s.sb.num_fat_blocks + 1) buf 0).1

  mount_root-status :
      ((mount_root host mem buf s).0 ≡ pos 0)
      ↔ ((load_root_directory mem.new_file root_buffer s.root).0 ≡ pos 0)
  unfolding mount_root root_buffer
  mount_root-status = ((λ h. ground arith), λ h. ground arith)

  module _ (fat0 : Table) (allocated : mem.new_fat ≡ some fat0) where
    loaded_table : ℤ × Table
    loaded_table = load_fat host s.disk s.sb mem.fat_stack mem.overrun fat0

    mount_fat-status : ((mount_fat host mem buf s).0 ≡ pos 0) ↔ (
        (loaded_table.0 ≡ pos 0)
        × ((mount_root host mem buf (record s { fat = loaded_table.1 })).0 ≡ pos 0))
    unfolding mount_fat loaded_table
    mount_fat-status = (
      (λ h. (ground (arith, allocated), ground (arith, allocated))),
      λ h. ground (arith, allocated, h.0, h.1),
    )
