-- ===== src/Fs/Mount/Images/Exact.antt =====
-- `fs_mount` on a reliable host: it returns 0 for exactly the disks of `IsMountable`.
use ecs150_project.Disk.Access.{block_read-ok, byte_at, IsOpen, block_read-byte_at, block_read}
use ecs150_project.Disk.Lifecycle.{block_disk_open-fd, block_disk_count-bcount, block_disk_open}
use ecs150_project.Disk.State.{Host, block_size, IsReliable}
use ecs150_project.Fs.Mount.{
  mount_fat, mount_superblock, fs_mount, load_disk, load_root_directory, Memory, load_superblock,
  BufferHolds,
}
use ecs150_project.Fs.Mount.Fat.{load_fat-first, load_fat-status}
use ecs150_project.Fs.Mount.Images.{
  load_entries-Loadable, Loadable-load_entries, root_buffer, mount_root-status, loaded_table,
  mount_fat-status, IsMountable, first_entry_of, Loadable, root_byte,
}
use ecs150_project.Fs.Mount.Superblock.{
  load_superblock-IsAccepted, load_superblock-fields, IsAccepted, word, concatenate_two_bytes-word,
  IsAccepted-same,
}
use ecs150_project.Fs.State.{State, Table, file_max_count, SuperBlock, eoc, File}
use ecs150_project.Prelude.{
  ℕ, ◌+◌, ◌*◌, ◌^◌, ◌<◌, ◌≡◌, refl, sym, ◌∙◌, ◌↔◌, inl, inr, true, false, Option, some, List, arith,
  ltb, ℤ, Option-cases, pos, Bool-cases, Bytes,
}

module _ (host : Host) (good : IsReliable host) (mem : Memory) (s : State)
    (open_disk : IsOpen s.disk) (buf : Bytes)
    (super : (k : ℕ) → k < block_size → buf k ≡ byte_at s.disk 0 k)
    (num_fat_blocks : s.sb.num_fat_blocks ≡ byte_at s.disk 0 16)
    (num_data_blocks : s.sb.num_data_blocks ≡ word (byte_at s.disk 0 14) (byte_at s.disk 0 15))
    (fat_fits : s.sb.num_fat_blocks < s.disk.bcount)
    (holds_blocks : BufferHolds s.sb.num_fat_blocks s.sb.num_data_blocks) where
  root_buffer-root_byte :
      (k : ℕ) → k < block_size → root_buffer host mem buf s k ≡ root_byte s.disk k
  unfolding root_buffer block_read
  root_buffer-root_byte k lk = elim (Bool-cases (ltb (s.sb.num_fat_blocks + 1) s.disk.bcount)) [
    | inl inside ↦
        let ok =
          block_read-ok host good s.disk (s.sb.num_fat_blocks + 1) open_disk (ground arith) buf 0 in
        ground (
          arith,
          block_read-byte_at host s.disk (s.sb.num_fat_blocks + 1) buf 0 k ok,
          num_fat_blocks,
        )
    | inr outside ↦ ground (arith, super k lk, num_fat_blocks)
  ]

  mount_root-IsMountable :
      (root : ℕ → File)
      → ((load_root_directory mem.new_file (root_buffer host mem buf s) root).0 ≡ pos 0)
        ↔ Loadable mem.new_file (root_byte s.disk) 0 file_max_count
  unfolding load_root_directory
  mount_root-IsMountable root = (
    (λ h.
        let l =
          Loadable-load_entries mem.new_file (root_buffer host mem buf s) file_max_count 0 root h in
        record {
          allocated = l.allocated;
          zeros = λ g k lo hi lt.
              sym (root_buffer-root_byte (32 * g + 22 + k) (omega arith)) ∙ l.zeros g k lo hi lt;
        }),
    λ l.
        load_entries-Loadable mem.new_file (root_buffer host mem buf s) file_max_count 0 root
          (record {
            allocated = l.allocated;
            zeros = λ g k lo hi lt.
                root_buffer-root_byte (32 * g + 22 + k) (omega arith) ∙ l.zeros g k lo hi lt;
          }),
  )

  module _ (fat0 : Table) (allocated : mem.new_fat ≡ some fat0) where
    loaded_table-first :
        (loaded_table host mem buf s fat0 allocated).1 0 ≡ first_entry_of s.disk mem.fat_stack fat0
    unfolding loaded_table
    loaded_table-first =
        load_fat-first host good s.disk open_disk s.sb mem.fat_stack mem.overrun fat0 fat_fits
          holds_blocks
        ∙ rw (num_fat_blocks, num_data_blocks) refl

    loaded_table-status :
        ((loaded_table host mem buf s fat0 allocated).0 ≡ pos 0)
        ↔ (first_entry_of s.disk mem.fat_stack fat0 ≡ eoc)
    unfolding loaded_table
    loaded_table-status =
        let status =
          load_fat-status host good s.disk open_disk s.sb mem.fat_stack mem.overrun fat0 fat_fits
            holds_blocks in
        let first = loaded_table-first in
        ((λ h. ground (arith, status, first)), λ h. ground (arith, status, first))

-- From the read of the superblock on, on an open disk.
module _ (host : Host) (good : IsReliable host) (mem : Memory) (s : State)
    (open_disk : IsOpen s.disk) (small : s.disk.bcount < 2 ^ 31)
    (holds_disk : BufferHolds
      (byte_at s.disk 0 16)
      (word (byte_at s.disk 0 14) (byte_at s.disk 0 15))) where
  super_buffer : Bytes
  super_buffer = (block_read host s.disk 0 mem.stack 0).1

  super_buffer-byte_at :
      (block_read host s.disk 0 mem.stack 0).0 ≡ pos 0
      → (k : ℕ) → k < block_size
      → super_buffer k ≡ byte_at s.disk 0 k
  unfolding super_buffer
  super_buffer-byte_at ok k lk = ground (arith, block_read-byte_at host s.disk 0 mem.stack 0 k ok)

  module _ (sb0 : SuperBlock) (allocated : mem.new_sb ≡ some sb0) where
    loaded_sb : ℤ × SuperBlock
    loaded_sb = load_superblock (pos s.disk.bcount) super_buffer sb0

    mount_superblock-status :
        ((mount_superblock host mem s).0 ≡ pos 0)
        ↔ ((block_read host s.disk 0 mem.stack 0).0 ≡ pos 0)
          × (loaded_sb.0 ≡ pos 0)
          × ((mount_fat host mem super_buffer (record s { sb = loaded_sb.1 })).0 ≡ pos 0)
    unfolding mount_superblock loaded_sb super_buffer
    mount_superblock-status =
        let count = block_disk_count-bcount s.disk open_disk small in
        (
          (λ h. (
            ground (arith, allocated, count),
            ground (arith, allocated, count),
            ground (arith, allocated, count),
          )),
          λ (r, l, f). ground (arith, allocated, count, r, l, f),
        )

    -- What the superblock gives the later stages.
    module _ (accepted : loaded_sb.0 ≡ pos 0)
        (same : (k : ℕ) → k < block_size → super_buffer k ≡ byte_at s.disk 0 k) where
      accepted-IsAccepted : IsAccepted s.disk.bcount (byte_at s.disk 0)
      unfolding loaded_sb
      accepted-IsAccepted =
          IsAccepted-same s.disk.bcount super_buffer (byte_at s.disk 0) (λ k lo lk. sym (same k lk))
            ((load_superblock-IsAccepted s.disk.bcount super_buffer sb0).0 accepted)

      at_fat : State
      at_fat = record s { sb = loaded_sb.1 }

      numbers :
          (loaded_sb.1.num_data_blocks ≡ word (byte_at s.disk 0 14) (byte_at s.disk 0 15))
          × (loaded_sb.1.num_fat_blocks ≡ byte_at s.disk 0 16)
      unfolding loaded_sb
      numbers =
          let a = (load_superblock-IsAccepted s.disk.bcount super_buffer sb0).0 accepted in
          let (root, start, blocks, fats) =
            load_superblock-fields s.disk.bcount super_buffer sb0 a in
          (
            blocks
                ∙ concatenate_two_bytes-word (super_buffer 14) (super_buffer 15)
                ∙ rw (same 14 (omega arith), same 15 (omega arith)) refl,
            fats ∙ same 16 (omega arith),
          )

      num_fat_blocks-lt : loaded_sb.1.num_fat_blocks < s.disk.bcount
      num_fat_blocks-lt = rw numbers.1 accepted-IsAccepted.fat_fits

      numbers_hold : BufferHolds loaded_sb.1.num_fat_blocks loaded_sb.1.num_data_blocks
      numbers_hold = rw (numbers.0, numbers.1) holds_disk

      -- From the load of the FAT on, with `fat0` the new memory.
      mount_fat-IsMountable :
          (fat0 : Table) (has_fat : mem.new_fat ≡ some fat0)
          → ((mount_fat host mem super_buffer (record s { sb = loaded_sb.1 })).0 ≡ pos 0) ↔ (
              (first_entry_of s.disk mem.fat_stack fat0 ≡ eoc)
              × Loadable mem.new_file (root_byte s.disk) 0 file_max_count)
      mount_fat-IsMountable fat0 has_fat =
          let s' : State = record s { sb = loaded_sb.1 } in
          let stage = mount_fat-status host mem super_buffer s' fat0 has_fat in
          let table =
            loaded_table-status host good mem s' open_disk super_buffer same numbers.1 numbers.0
              num_fat_blocks-lt numbers_hold fat0 has_fat in
          let s'' : State = record s' {
            fat = (loaded_table host mem super_buffer s' fat0 has_fat).1;
          } in
          let entries = mount_root-status host mem super_buffer s'' in
          let root =
            mount_root-IsMountable host good mem s'' open_disk super_buffer same numbers.1 numbers.0
              num_fat_blocks-lt numbers_hold s.root in
          (
            (λ h. (table.0 (stage.0 h).0, root.0 (entries.0 (stage.0 h).1))),
            λ (t, r). stage.1 (table.1 t, entries.1 (root.1 r)),
          )

  mount_superblock-IsMountable : (mount_superblock host mem s).0 ≡ pos 0 → IsMountable mem s.disk
  unfolding mount_superblock mount_fat
  mount_superblock-IsMountable h = elim (Option-cases mem.new_sb) [
    | inl e ↦ absurd (ground arith)
    | inr (sb0, has_sb) ↦
        let (ok, accepted, rest) = (mount_superblock-status sb0 has_sb).0 h in
        let same = super_buffer-byte_at ok in
        elim (Option-cases mem.new_fat) [
          | inl e ↦ absurd (ground arith)
          | inr (fat0, has_fat) ↦
              let (mark, entries) =
                (mount_fat-IsMountable sb0 has_sb accepted same fat0 has_fat).0 rest in
              record {
                superblock = accepted-IsAccepted sb0 has_sb accepted same;
                sb_allocated = ground arith;
                fat_allocated = ground arith;
                marked = λ f e. ((mount_fat-IsMountable sb0 has_sb accepted same f e).0 rest).0;
                files_allocated = λ f lt. entries.allocated f (omega arith) lt;
                padding = λ f k lt lk. entries.zeros f k (omega arith) lt lk;
              }
        ]
  ]

  IsMountable-mount_superblock : IsMountable mem s.disk → (mount_superblock host mem s).0 ≡ pos 0
  unfolding loaded_sb
  IsMountable-mount_superblock m = elim (Option-cases mem.new_sb) [
    | inl e ↦ absurd (ground (arith, m.sb_allocated))
    | inr (sb0, has_sb) ↦ elim (Option-cases mem.new_fat) [
      | inl e ↦ absurd (ground (arith, m.fat_allocated))
      | inr (fat0, has_fat) ↦ (mount_superblock-status sb0 has_sb).1 (
        ok,
        accepted sb0 has_sb,
        (mount_fat-IsMountable sb0 has_sb (accepted sb0 has_sb) same fat0 has_fat).1 (
          m.marked fat0 has_fat,
          record {
            allocated = λ g lo hi. m.files_allocated g hi;
            zeros = λ g k lo hi lk. m.padding g k hi lk;
          },
        ),
      )
    ]
  ]
    where
      ok : (block_read host s.disk 0 mem.stack 0).0 ≡ pos 0
      ok =
          block_read-ok host good s.disk 0 open_disk (omega (arith, m.superblock.fat_fits))
            mem.stack 0

      same : (k : ℕ) → k < block_size → super_buffer k ≡ byte_at s.disk 0 k
      same = super_buffer-byte_at ok

      accepted :
          (sb0 : SuperBlock) (has_sb : mem.new_sb ≡ some sb0) → (loaded_sb sb0 has_sb).0 ≡ pos 0
      accepted sb0 has_sb = (load_superblock-IsAccepted s.disk.bcount super_buffer sb0).1 (
          IsAccepted-same s.disk.bcount (byte_at s.disk 0) super_buffer (λ k lo lk. same k lk)
            m.superblock)

-- On a reliable host, with no disk mounted and a disk file of less than 2 ^ 31 blocks that
-- `block_disk_open` opens, whose FAT `load_fat` reads within the bounds of its array, `fs_mount`
-- returns 0 for exactly the disks and the memory of `IsMountable`: the superblock passes its checks, every
-- `malloc` succeeds, FAT entry 0 is the end mark, and the padding of the 128 root entries is zero.
pub fs_mount-IsMountable :
    (host : Host) (mem : Memory) (diskname : Option (List ℕ)) (s : State)
    → IsReliable host
    → s.is_disk_mounted ≡ false
    → (block_disk_open host s.disk diskname).0 ≡ pos 0
    → let d = (block_disk_open host s.disk diskname).1 in
      d.bcount < 2 ^ 31
      → BufferHolds (byte_at d 0 16) (word (byte_at d 0 14) (byte_at d 0 15))
      → ((fs_mount host mem diskname s).0 ≡ pos 0) ↔ IsMountable mem d
unfolding fs_mount load_disk
fs_mount-IsMountable host mem diskname s good idle opens small holds_disk =
    let d = (block_disk_open host s.disk diskname).1 in
    let t : State = record s { disk = d; is_disk_mounted = true } in
    let open_disk = block_disk_open-fd host s.disk diskname opens in
    (
      (λ h. mount_superblock-IsMountable host good mem t open_disk small holds_disk (ground arith)),
      λ m.
          ground (arith, IsMountable-mount_superblock host good mem t open_disk small holds_disk m),
    )
