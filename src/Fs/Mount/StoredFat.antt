-- ===== src/Fs/Mount/StoredFat.antt =====
-- The FAT as `fs_umount` stores it. The loop steps 8192 bytes in memory for a block of 4096, so of every
-- 4096 entries it moves the first 2048.
use ecs150_project.Disk.Access.{
  byte_at-block_write, bcount-block_write, block_write, IsOpen, byte_at, block_write-ok,
  fd-block_write,
}
use ecs150_project.Disk.State.{IsReliable, Disk, block_size, Host}
use ecs150_project.Fs.Codec.{fat_bytes}
use ecs150_project.Fs.Mount.{write_fat_blocks}
use ecs150_project.Fs.State.{Table}
use ecs150_project.Prelude.{
  ℕ, zero, suc, ◌+◌, ◌*◌, ◌≤◌, ◌<◌, ◌≡◌, refl, ◌∙◌, ◌⊎◌, inl, inr, arith, ==→eq, ◌==◌, Bool-cases,
}

-- Blocks 1 to `n` hold the FAT, as far as `fs_umount` stores it.
abbrev pub HoldsFat : Table → ℕ → Disk → Type 0
HoldsFat fat n d =
    (k j : ℕ)
    → k < n
    → j < block_size
    → byte_at d (k + 1) j ≡ fat_bytes fat (2 * (block_size * k) + j)

module _ (host : Host) (good : IsReliable host) where
  -- The disk behind the loop of `fs_umount` from block `i` on.
  pub record FatStored (fat : Table) (n i : ℕ) (d e : Disk) : Type 0 where
    pub fd : e.fd ≡ d.fd
    pub bcount : e.bcount ≡ d.bcount
    pub stored :
        (k j : ℕ)
        → i ≤ k
        → k < i + n
        → j < block_size
        → byte_at e (k + 1) j ≡ fat_bytes fat (2 * (block_size * k) + j)
    pub others : (b j : ℕ) → (b ≤ i) ⊎ (i + n < b) → j < block_size → byte_at e b j ≡ byte_at d b j

  pub write_fat_blocks-FatStored :
      (fat : Table) (n i : ℕ) (d : Disk)
      → IsOpen d
      → i + n < d.bcount
      → FatStored fat n i d (write_fat_blocks host fat n i d)
  unfolding write_fat_blocks
  write_fat_blocks-FatStored fat zero i d opened le = record {
    fd = refl;
    bcount = refl;
    stored = λ k j lo hi lj. absurd (omega arith);
    others = λ b j out lj. refl;
  }
  write_fat_blocks-FatStored fat (suc n) i d opened le =
      let from = 2 * (block_size * i) in
      let e = (block_write host d (i + 1) (fat_bytes fat) from).1 in
      let ok = block_write-ok host good d (i + 1) opened (omega arith) (fat_bytes fat) from in
      let fd_e = fd-block_write host d (i + 1) (fat_bytes fat) from in
      let bcount_e = bcount-block_write host d (i + 1) (fat_bytes fat) from in
      let rest =
        write_fat_blocks-FatStored fat n (i + 1) e (rw fd_e opened) (omega (arith, bcount_e)) in
      record {
        fd = rest.fd ∙ fd_e;
        bcount = rest.bcount ∙ bcount_e;
        stored = λ k j lo hi lj. elim (Bool-cases (k == i)) [
          | inl q ↦ rw (==→eq k i q) (
              rest.others (i + 1) j (inl (omega arith)) lj
              ∙ (byte_at-block_write host d (i + 1) (fat_bytes fat) from (i + 1) j ok lj
                  ∙ ground arith))
          | inr ne ↦ rest.stored k j (ground arith) (omega arith) lj
        ];
        others = λ b j out lj.
            rest.others b j (ground arith) lj
            ∙ (byte_at-block_write host d (i + 1) (fat_bytes fat) from b j ok lj ∙ ground arith);
      }
