-- ===== src/Fs/Mount/Remount.antt =====
-- A mount of the disk that `fs_umount` left, in any state `t` in which no disk is mounted.
use ecs150_project.Disk.Access.{block_read, block_read-ok, byte_at}
use ecs150_project.Disk.Lifecycle.{block_disk_count-bcount, block_disk_open, block_disk_count}
use ecs150_project.Disk.State.{Host, IsReliable, block_size}
use ecs150_project.Fs.Codec.{root_array}
use ecs150_project.Fs.Mount.{
  mount_root, mount_fat, mount_superblock, Memory, load_fat, load_root_directory, BufferHolds,
  load_superblock, fs_umount, fs_mount, load_disk,
}
use ecs150_project.Fs.Mount.Fat.{load_fat-unmarked, load_fat-HoldsFat}
use ecs150_project.Fs.Mount.Reopen.{
  reopened, reopened-HoldsFat, reopened_root, reopened_same, is_open, block_in,
}
use ecs150_project.Fs.Mount.Root.{load_root_directory-root_array, SameFile}
use ecs150_project.Fs.Mount.Save.{Remounted, IsFormatted, saved_disk, fs_umount-saved_disk}
use ecs150_project.Fs.Mount.Superblock.{
  load_superblock-IsAccepted, IsAccepted, IsAccepted-same, load_superblock-fields,
}
use ecs150_project.Fs.State.{File, eoc, SuperBlock, file_max_count, State, open_max_count, Table}
use ecs150_project.Prelude.{
  ℕ, ◌+◌, ◌*◌, ◌/◌, ◌%◌, ◌<◌, ◌≡◌, refl, sym, ap, ◌∙◌, ◌≢◌, inl, inr, true, false, none, some, List,
  arith, pos, ℤ, ltb, failure, is_some, if◌then◌else◌, Bytes,
}

module _ (host : Host) (good : IsReliable host) {s : State} {file : ℕ} (h : IsFormatted s)
    (open_disk : s.disk.fd ≡ some file) where
  module _ (mem : Memory) (t : State) {sb0 : SuperBlock} {fat0 : Table}
      (has_sb : mem.new_sb ≡ some sb0) (has_fat : mem.new_fat ≡ some fat0)
      (has_files : (f : ℕ) → is_some (mem.new_file f) ≡ true) where
    super_buf : Bytes
    super_buf = (block_read host (reopened host good h open_disk) 0 mem.stack 0).1

    loaded_sb : ℤ × SuperBlock
    loaded_sb = load_superblock (pos s.disk.bcount) super_buf sb0

    super_same : (k : ℕ) → k < block_size → super_buf k ≡ byte_at s.disk 0 k
    unfolding super_buf
    super_same k lk =
        (block_in host good h open_disk) 0 mem.stack k (omega (arith, h.root_on_disk)) lk
        ∙ (reopened_same host good h open_disk) 0 k (inl refl) lk

    super-IsAccepted : IsAccepted s.disk.bcount super_buf
    super-IsAccepted =
        IsAccepted-same s.disk.bcount (byte_at s.disk 0) super_buf (λ k lo lk. super_same k lk)
          h.accepted

    sb_loaded : loaded_sb.0 ≡ pos 0
    unfolding loaded_sb
    sb_loaded = (load_superblock-IsAccepted s.disk.bcount super_buf sb0).1 super-IsAccepted

    -- The numbers of the superblock are the old ones.
    sb_same :
        (loaded_sb.1.root_index ≡ s.sb.root_index)
        × (loaded_sb.1.data_start_index ≡ s.sb.data_start_index)
        × (loaded_sb.1.num_data_blocks ≡ s.sb.num_data_blocks)
        × (loaded_sb.1.num_fat_blocks ≡ s.sb.num_fat_blocks)
    unfolding loaded_sb
    sb_same =
        let (a, b, c, d) = load_superblock-fields s.disk.bcount super_buf sb0 super-IsAccepted in
        (
          a ∙ (rw (super_same 10 (omega arith), super_same 11 (omega arith)) (sym h.root_index)),
          b
              ∙ (rw (super_same 12 (omega arith), super_same 13 (omega arith))
                  (sym h.data_start_index)),
          c
              ∙ (rw (super_same 14 (omega arith), super_same 15 (omega arith))
                  (sym h.num_data_blocks)),
          d ∙ (super_same 16 (omega arith) ∙ sym h.num_fat_blocks),
        )

    loaded_fat : ℤ × Table
    loaded_fat =
        load_fat host (reopened host good h open_disk) loaded_sb.1 mem.fat_stack mem.overrun fat0

    -- The FAT that is loaded, in whatever way it is used.
    fat_on_disk : loaded_sb.1.num_fat_blocks < s.disk.bcount
    fat_on_disk = omega (arith, sb_same.3, h.root_behind_fat, h.root_on_disk)

    buffer_same : BufferHolds loaded_sb.1.num_fat_blocks loaded_sb.1.num_data_blocks
    buffer_same = rw (sb_same.3, sb_same.2) h.buffer_holds

    count_same : block_disk_count (reopened host good h open_disk) ≡ pos s.disk.bcount
    count_same =
        block_disk_count-bcount (reopened host good h open_disk) (is_open host good h open_disk)
          (omega (arith, h.accepted.blocks))

    fat_loaded :
        s.fat 0 ≡ eoc
        → (loaded_fat.0 ≡ pos 0)
          × ((i : ℕ)
              → i < s.sb.num_data_blocks
              → i / 4096 < s.sb.num_fat_blocks
              → i % 4096 < 2048
              → loaded_fat.1 i ≡ s.fat i)
    unfolding loaded_fat
    fat_loaded mark =
        let l =
          load_fat-HoldsFat host good (reopened host good h open_disk)
            (is_open host good h open_disk) loaded_sb.1 mem.fat_stack mem.overrun fat0 fat_on_disk
            buffer_same s.fat (rw sb_same.3 (reopened-HoldsFat host good h open_disk))
            (rw sb_same.3 h.some_fat) (rw sb_same.2 h.some_data) (rw sb_same.2 h.fat_fits) mark in
        (l.0, λ i lt covered low. l.1 i (rw sb_same.2 lt) (rw sb_same.3 covered) low)

    fat_refused : s.fat 0 ≢ eoc → loaded_fat.0 ≡ failure
    unfolding loaded_fat
    fat_refused unmarked =
        load_fat-unmarked host good (reopened host good h open_disk) (is_open host good h open_disk)
          loaded_sb.1 mem.fat_stack mem.overrun fat0 fat_on_disk buffer_same s.fat
          (rw sb_same.3 (reopened-HoldsFat host good h open_disk)) (rw sb_same.3 h.some_fat)
          (rw sb_same.2 h.some_data) (rw sb_same.2 h.fat_fits) unmarked

    root_buf : Bytes
    root_buf =
        (block_read host (reopened host good h open_disk) (loaded_sb.1.num_fat_blocks + 1) super_buf
          0).1

    root_same : (k : ℕ) → k < 4096 → root_buf k ≡ root_array s.root k
    unfolding root_buf
    root_same k lk =
        let at : loaded_sb.1.num_fat_blocks + 1 ≡ s.sb.root_index =
          rw sb_same.3 (sym h.root_behind_fat) in
        rw (root_buf, at)
          ((block_in host good h open_disk) s.sb.root_index super_buf k h.root_on_disk lk
            ∙ (reopened_root host good h open_disk) k lk)

    loaded_root : ℤ × (ℕ → File)
    loaded_root = load_root_directory mem.new_file root_buf t.root

    root_loaded :
        (loaded_root.0 ≡ pos 0)
        × ((f : ℕ) → f < file_max_count → SameFile (loaded_root.1 f) (s.root f))
    unfolding loaded_root
    root_loaded =
        load_root_directory-root_array s.root root_buf root_same h.storable mem.new_file has_files
          t.root

    -- the state that `fs_mount` leaves
    abbrev remounted : State
    remounted = record t {
      sb = loaded_sb.1;
      fat = loaded_fat.1;
      root = loaded_root.1;
      open_files = λ i. if ltb i open_max_count then none else t.open_files i;
      is_disk_mounted = true;
      disk = (reopened host good h open_disk);
    }

    remounted-Remounted : s.fat 0 ≡ eoc → Remounted s remounted
    remounted-Remounted mark = record {
      mounted = refl;
      root_index = sb_same.0;
      data_start_index = sb_same.1;
      num_data_blocks = sb_same.2;
      num_fat_blocks = sb_same.3;
      fat = (fat_loaded mark).1;
      root = root_loaded.1;
      fd = sym open_disk;
      bcount = refl;
      superblock = λ j lj. (reopened_same host good h open_disk) 0 j (inl refl) lj;
      closed_files = λ k lt. ground arith;
      data_blocks = λ b j past lj. (reopened_same host good h open_disk) b j (inr past) lj;
    }

    -- the state in which the superblock is read
    abbrev with_disk : State
    with_disk = record t { disk = (reopened host good h open_disk); is_disk_mounted = true }

    mount_root-remounted :
        mount_root host mem super_buf (record with_disk { sb = loaded_sb.1; fat = loaded_fat.1 })
        ≡ (pos 0, remounted)
    unfolding mount_root loaded_root root_buf
    mount_root-remounted = ground (arith, root_loaded.0)

    mount_fat-remounted :
        s.fat 0 ≡ eoc
        → mount_fat host mem super_buf (record with_disk { sb = loaded_sb.1 }) ≡ (pos 0, remounted)
    unfolding mount_fat loaded_fat
    mount_fat-remounted mark = ground (arith, has_fat, (fat_loaded mark).0, mount_root-remounted)

    -- With another entry 0 the mount ends at the FAT.
    abbrev refused : State
    refused = record with_disk { sb = loaded_sb.1; fat = loaded_fat.1 }

    mount_fat-refused :
        s.fat 0 ≢ eoc
        → mount_fat host mem super_buf (record with_disk { sb = loaded_sb.1 }) ≡ (failure, refused)
    unfolding mount_fat loaded_fat
    mount_fat-refused unmarked = ground (arith, has_fat, fat_refused unmarked)

    mount_superblock-mount_fat :
        mount_superblock host mem with_disk
        ≡ mount_fat host mem super_buf (record with_disk { sb = loaded_sb.1 })
    unfolding mount_superblock loaded_sb super_buf
    mount_superblock-mount_fat = ground (
      arith,
      count_same,
      has_sb,
      block_read-ok host good (reopened host good h open_disk) 0 (is_open host good h open_disk)
          (omega (arith, h.root_on_disk)) mem.stack 0,
      sb_loaded,
    )

    module _ (name : List ℕ) (opens : host.open_file name ≡ some file)
        (size : host.fstat file ≡ some (s.disk.bcount * block_size))
        (idle : t.is_disk_mounted ≡ false) (no_disk : t.disk.fd ≡ none)
        (image : t.disk.files ≡ (fs_umount host s).1.disk.files) where
      saved_files : t.disk.files ≡ (saved_disk host good h open_disk).files
      saved_files = image ∙ ap (λ r. r.1.disk.files) (fs_umount-saved_disk host good h open_disk)

      load_disk-with_disk : load_disk host (some name) t ≡ (pos 0, with_disk)
      unfolding load_disk block_disk_open
      load_disk-with_disk = ground (arith, opens, size, idle, no_disk, saved_files)

      fs_mount-mount_fat :
          fs_mount host mem (some name) t
          ≡ mount_fat host mem super_buf (record with_disk { sb = loaded_sb.1 })
      unfolding fs_mount
      fs_mount-mount_fat = ground (arith, load_disk-with_disk, mount_superblock-mount_fat)

      -- A mount of the saved disk, in a state `t` of this process or another in which no disk is
      -- mounted.
      pub fs_mount-saved :
          s.fat 0 ≡ eoc
          → (s' : State) × (fs_mount host mem (some name) t ≡ (pos 0, s'))
            × Remounted s s'
            × (s'.num_open_files ≡ t.num_open_files)
      fs_mount-saved mark =
          (remounted, fs_mount-mount_fat ∙ mount_fat-remounted mark, remounted-Remounted mark, refl)

      pub fs_mount-refused :
          s.fat 0 ≢ eoc
          → (s' : State) × (fs_mount host mem (some name) t ≡ (failure, s'))
            × (s'.is_disk_mounted ≡ true)
      fs_mount-refused unmarked = (refused, fs_mount-mount_fat ∙ mount_fat-refused unmarked, refl)
