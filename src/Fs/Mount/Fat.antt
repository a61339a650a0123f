-- ===== src/Fs/Mount/Fat.antt =====
-- The FAT as `fs_mount` loads it. The loop steps 8192 bytes in memory for a block of 4096, so of every
-- 4096 entries it fills the first 2048.
use ecs150_project.Disk.Access.{IsOpen, byte_at, block_read, block_read-byte_at, block_read-ok}
use ecs150_project.Disk.State.{Host, IsReliable, block_size, Disk}
use ecs150_project.Fs.Codec.{u16_at, fat_bytes}
use ecs150_project.Fs.Mount.{buf_size, read_fat_blocks, load_fat, BufferHolds}
use ecs150_project.Fs.Mount.StoredFat.{HoldsFat}
use ecs150_project.Fs.State.{Table, eoc, SuperBlock}
use ecs150_project.Prelude.{
  ℕ, zero, suc, ◌+◌, ◌-◌, ◌*◌, ◌/◌, ◌%◌, ◌^◌, ◌≤◌, ◌<◌, ◌≡◌, refl, ap, ◌∙◌, ◌≢◌, inl, inr, false,
  some, arith, if◌then◌else◌, failure, Bool-cases, ◌==◌, ltb, ==→eq, ℤ, pos, Bytes,
}
use mathlib.Core.Path.{subst}

module _ (host : Host) (good : IsReliable host) where
  -- The buffer behind the loop of `load_fat` from block `i` on.
  record FatLoaded (d : Disk) (n i : ℕ) (buffer : Bytes) (out : Bytes) : Type 0 where
    loaded :
        (k j : ℕ)
        → i ≤ k
        → k < i + n
        → j < block_size
        → out (2 * (block_size * k) + j) ≡ byte_at d (k + 1) j
    before : (p : ℕ) → p < 2 * (block_size * i) → out p ≡ buffer p
    -- the half of every step that no block is read to
    gap : (p : ℕ) → block_size ≤ p % 8192 → out p ≡ buffer p

  read_fat_blocks-FatLoaded :
      (d : Disk) (size n i : ℕ) (buffer : Bytes)
      → IsOpen d
      → i + n < d.bcount
      → (0 < n → 2 * (block_size * (i + n)) ≤ 2 * size + block_size)
      → (out : Bytes) × (read_fat_blocks host d size n i buffer ≡ some (pos 0, out))
        × FatLoaded d n i buffer out
  unfolding read_fat_blocks
  read_fat_blocks-FatLoaded d size zero i buffer opened le room = (
    buffer,
    refl,
    record {
      loaded = λ k j lo hi lj. absurd (omega arith);
      before = λ p lt. refl;
      gap = λ p out. refl;
    },
  )
  read_fat_blocks-FatLoaded d size (suc n) i buffer opened le room =
      let to = 2 * (block_size * i) in
      let buffer' = (block_read host d (i + 1) buffer to).1 in
      let ok = block_read-ok host good d (i + 1) opened (omega arith) buffer to in
      let inside = room (omega arith) in
      let (out, e, rest) =
        read_fat_blocks-FatLoaded d size n (i + 1) buffer' opened (omega arith)
          (λ more. omega (arith, inside)) in
      let fits : ltb (2 * size) (to + block_size) ≡ false = in_room i n (room (omega arith)) in
      let E : read_fat_blocks host d size (suc n) i buffer ≡ some (pos 0, out) =
        ground (arith, ok, fits, e) in
      (
        out,
        E,
        record {
          loaded = λ k j lo hi lj. elim (Bool-cases (k == i)) [
            | inl q ↦ rw (==→eq k i q) (
                rest.before (to + j) (omega arith)
                ∙ (block_read-byte_at host d (i + 1) buffer to (to + j) ok
                    ∙ ground (arith, ap (byte_at d (i + 1)) (back i j))))
            | inr ne ↦ rest.loaded k j (ground arith) (omega arith) lj
          ];
          before = λ p lt.
              rest.before p (omega arith)
              ∙ (block_read-byte_at host d (i + 1) buffer to p ok ∙ ground arith);
          gap = λ p out.
              rest.gap p out ∙ (block_read-byte_at host d (i + 1) buffer to p ok ∙ ground arith);
        },
      )
    where
      back : (i j : ℕ) → 0 + (2 * (block_size * i) + j - 2 * (block_size * i)) ≡ j
      back i j = omega arith

      in_room :
          (i n : ℕ)
          → 2 * (block_size * (i + suc n)) ≤ 2 * size + block_size
          → ltb (2 * size) (2 * (block_size * i) + block_size) ≡ false
      in_room i n h = ground arith

  -- An entry whose two bytes are in the buffer.
  u16_at-fat_bytes :
      (fat : Table) (buffer : Bytes) (i : ℕ)
      → fat i < 2 ^ 16
      → buffer (2 * i) ≡ fat_bytes fat (2 * i)
      → buffer (2 * i + 1) ≡ fat_bytes fat (2 * i + 1)
      → u16_at buffer i ≡ fat i
  unfolding u16_at fat_bytes
  u16_at-fat_bytes fat buffer i fits e e' = ground (arith, ap fat (half i), ap fat (half' i))
    where
      half : (i : ℕ) → 2 * i / 2 ≡ i
      half i = omega arith

      half' : (i : ℕ) → (2 * i + 1) / 2 ≡ i
      half' i = omega arith

  module _ (d : Disk) (opened : IsOpen d) (sb : SuperBlock) (fat_stack : Bytes)
      (overrun : ℤ × Table) (fat0 : Table) (on_disk_fat : sb.num_fat_blocks < d.bcount)
      (holds_blocks : BufferHolds sb.num_fat_blocks sb.num_data_blocks) where
    buffer-FatLoaded :
        (out : Bytes) × (read_fat_blocks host d
            (buf_size sb.num_data_blocks)
            sb.num_fat_blocks
            0
            fat_stack
          ≡ some (pos 0, out))
        × FatLoaded d sb.num_fat_blocks 0 fat_stack out
    buffer-FatLoaded =
        read_fat_blocks-FatLoaded d (buf_size sb.num_data_blocks) sb.num_fat_blocks 0 fat_stack
          opened (omega arith) (λ more. omega (arith, holds_blocks.0))

    -- the array once the blocks are read
    read_buffer : Bytes
    read_buffer = buffer-FatLoaded.0

    read_buffer-FatLoaded : FatLoaded d sb.num_fat_blocks 0 fat_stack read_buffer
    unfolding read_buffer
    read_buffer-FatLoaded = buffer-FatLoaded.2

    -- the FAT that is copied from it
    read_table : Table
    read_table i = if ltb i sb.num_data_blocks then u16_at read_buffer i else fat0 i

    load_fat-read_table :
        load_fat host d sb fat_stack overrun fat0
        ≡ (if read_table 0 == eoc then pos 0 else failure, read_table)
    unfolding load_fat read_buffer read_table
    load_fat-read_table =
        let all_inside : ltb (buf_size sb.num_data_blocks) sb.num_data_blocks ≡ false =
          ground (arith, holds_blocks.1) in
        ground (arith, buffer-FatLoaded.1, all_inside)

    load_fat-u16_at :
        (i : ℕ)
        → i < sb.num_data_blocks
        → (load_fat host d sb fat_stack overrun fat0).1 i ≡ u16_at read_buffer i
    unfolding read_table
    load_fat-u16_at i lt = ap (λ r. r.1 i) load_fat-read_table ∙ ground arith

    -- If all accesses are within its array, the entries from 2048 to 4095 of every 4096 that `load_fat` puts into the FAT do not come
    -- from the disk: they are what its array held before anything was read to it.
    pub load_fat-gap :
        (i : ℕ)
        → i < sb.num_data_blocks
        → 2048 ≤ i % 4096
        → (load_fat host d sb fat_stack overrun fat0).1 i ≡ u16_at fat_stack i
    unfolding u16_at
    load_fat-gap i lt high =
        load_fat-u16_at i lt
        ∙ rw
            (
              read_buffer-FatLoaded.gap (2 * i) (omega arith),
              read_buffer-FatLoaded.gap (2 * i + 1) (omega arith),
            )
            refl

    byte-HoldsFat :
        (fat : Table) (i j : ℕ)
        → HoldsFat fat sb.num_fat_blocks d
        → i / 4096 < sb.num_fat_blocks
        → i % 4096 < 2048
        → j < 2
        → read_buffer (2 * i + j) ≡ fat_bytes fat (2 * i + j)
    byte-HoldsFat fat i j holds covered low lj =
        let k = i / 4096 in
        let q = 2 * (i % 4096) + j in
        let at : 2 * (block_size * k) + q ≡ 2 * i + j = omega arith in
        subst (λ p. read_buffer p ≡ fat_bytes fat p) at
          (read_buffer-FatLoaded.loaded k q (omega arith) (omega arith) (omega arith)
            ∙ holds k q (omega arith) (omega arith))

    -- The others come back as `fs_umount` stored them.
    load_fat-entry :
        (fat : Table) (i : ℕ)
        → HoldsFat fat sb.num_fat_blocks d
        → i < sb.num_data_blocks
        → fat i < 2 ^ 16
        → i / 4096 < sb.num_fat_blocks
        → i % 4096 < 2048
        → (load_fat host d sb fat_stack overrun fat0).1 i ≡ fat i
    load_fat-entry fat i holds lt fits covered low =
        load_fat-u16_at i lt
        ∙ u16_at-fat_bytes fat _ i fits
            (subst (λ p. read_buffer p ≡ fat_bytes fat p) (unit i)
              (byte-HoldsFat fat i 0 holds covered low (omega arith)))
            (byte-HoldsFat fat i 1 holds covered low (omega arith))
      where
        unit : (i : ℕ) → 2 * i + 0 ≡ 2 * i
        unit i = omega arith

    -- `load_fat` returns 0 if entry 0 is the end mark, and -1 otherwise.
    pub load_fat-status :
        (load_fat host d sb fat_stack overrun fat0).0
        ≡ (if (load_fat host d sb fat_stack overrun fat0).1 0 == eoc then pos 0 else failure)
    load_fat-status = rw load_fat-read_table refl

    -- Entry 0 of the loaded FAT: what is in memory without data blocks, what is on the stack without FAT
    -- blocks, and else the first two bytes of block 1.
    pub load_fat-first : (load_fat host d sb fat_stack overrun fat0).1 0 ≡ (
        if sb.num_data_blocks == 0
        then fat0 0
        else if sb.num_fat_blocks == 0
        then u16_at fat_stack 0
        else u16_at (byte_at d 1) 0)
    unfolding u16_at read_fat_blocks read_buffer read_table
    load_fat-first = elim (Bool-cases (sb.num_data_blocks == 0)) [
      | inl no_data ↦ ap (λ r. r.1 0) load_fat-read_table ∙ ground arith
      | inr has_data ↦
          let from_buffer = load_fat-u16_at 0 (ground arith) in
          elim (Bool-cases (sb.num_fat_blocks == 0)) [
            | inl no_fat ↦ ground (arith, from_buffer, ==→eq sb.num_fat_blocks 0 no_fat)
            | inr has_fat ↦ ground (
              arith,
              from_buffer,
              read_buffer-FatLoaded.loaded 0 0 (omega arith) (ground arith) (omega arith),
              read_buffer-FatLoaded.loaded 0 1 (omega arith) (ground arith) (omega arith),
            )
          ]
    ]

    module _ (fat : Table) (holds : HoldsFat fat sb.num_fat_blocks d)
        (some_fat : 0 < sb.num_fat_blocks) (some_data : 0 < sb.num_data_blocks)
        (fits : (i : ℕ) → i < sb.num_data_blocks → fat i < 2 ^ 16) where
      first_entry : (load_fat host d sb fat_stack overrun fat0).1 0 ≡ fat 0
      first_entry =
          load_fat-entry fat 0 holds some_data (fits 0 some_data) (omega arith) (omega arith)

      pub load_fat-HoldsFat :
          fat 0 ≡ eoc
          → ((load_fat host d sb fat_stack overrun fat0).0 ≡ pos 0)
            × ((i : ℕ)
                → i < sb.num_data_blocks
                → i / 4096 < sb.num_fat_blocks
                → i % 4096 < 2048
                → (load_fat host d sb fat_stack overrun fat0).1 i ≡ fat i)
      load_fat-HoldsFat mark = (
        ground (arith, load_fat-status, first_entry),
        λ i lt covered low. load_fat-entry fat i holds lt (fits i lt) covered low,
      )

      -- A FAT whose entry 0 is not the end mark is refused.
      pub load_fat-unmarked : fat 0 ≢ eoc → (load_fat host d sb fat_stack overrun fat0).0 ≡ failure
      load_fat-unmarked unmarked = ground (arith, load_fat-status, first_entry)
