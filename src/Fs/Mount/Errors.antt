-- ===== src/Fs/Mount/Errors.antt =====
-- A mount that fails behind `load_disk`: the disk stays mounted.
use ecs150_project.Disk.Access.{block_read}
use ecs150_project.Disk.Lifecycle.{block_disk_open, block_disk_count}
use ecs150_project.Disk.State.{Host}
use ecs150_project.Fs.Mount.{
  mount_root, mount_fat, mount_superblock, load_fat, Memory, fs_mount, load_superblock, load_disk,
}
use ecs150_project.Fs.State.{State}
use ecs150_project.Prelude.{
  ℕ, ◌≡◌, inl, inr, true, false, Option, List, arith, pos, failure, Option-cases, Bytes,
}

module _ (host : Host) (mem : Memory) where
  mount_root-mounted :
      (buf : Bytes) (s : State) → (mount_root host mem buf s).1.is_disk_mounted ≡ s.is_disk_mounted
  unfolding mount_root
  mount_root-mounted buf s = ground arith

  mount_fat-mounted :
      (buf : Bytes) (s : State) → (mount_fat host mem buf s).1.is_disk_mounted ≡ s.is_disk_mounted
  unfolding mount_fat
  mount_fat-mounted buf s = elim (Option-cases mem.new_fat) [
    | inl e ↦ ground arith
    | inr (fat0, e) ↦ ground (
      arith,
      mount_root-mounted buf
          (record s { fat = (load_fat host s.disk s.sb mem.fat_stack mem.overrun fat0).1 }),
    )
  ]

  mount_superblock-mounted :
      (s : State) → (mount_superblock host mem s).1.is_disk_mounted ≡ s.is_disk_mounted
  unfolding mount_superblock
  mount_superblock-mounted s =
      let buf = (block_read host s.disk 0 mem.stack 0).1 in
      elim (Option-cases mem.new_sb) [
        | inl e ↦ ground arith
        | inr (sb0, e) ↦ ground (
          arith,
          mount_fat-mounted buf
              (record s { sb = (load_superblock (block_disk_count s.disk) buf sb0).1 }),
        )
      ]

  mounted_disk :
      (diskname : Option (List ℕ)) (s : State)
      → s.is_disk_mounted ≡ false
      → (block_disk_open host s.disk diskname).0 ≡ pos 0
      → (fs_mount host mem diskname s).1.is_disk_mounted ≡ true
  unfolding fs_mount load_disk
  mounted_disk diskname s m e = ground (
    arith,
    mount_superblock-mounted
        (record s { disk = (block_disk_open host s.disk diskname).1; is_disk_mounted = true }),
  )

  -- A mount that succeeds leaves the disk mounted.
  pub fs_mount-mounted :
      (diskname : Option (List ℕ)) (s : State)
      → (fs_mount host mem diskname s).0 ≡ pos 0
      → (fs_mount host mem diskname s).1.is_disk_mounted ≡ true
  unfolding fs_mount load_disk
  fs_mount-mounted diskname s e = ground (
    arith,
    mount_superblock-mounted
        (record s { disk = (block_disk_open host s.disk diskname).1; is_disk_mounted = true }),
  )

  second_mount :
      (diskname : Option (List ℕ)) (s : State)
      → s.is_disk_mounted ≡ true
      → fs_mount host mem diskname s ≡ (failure, s)
  unfolding fs_mount load_disk
  second_mount diskname s m = ground arith

-- Once `block_disk_open` has succeeded, the disk counts as mounted, whether `fs_mount` returns 0 or -1;
-- so another `fs_mount` returns -1 and changes nothing.
pub fs_mount-is_disk_mounted :
    (host : Host) (mem mem' : Memory) (diskname diskname' : Option (List ℕ)) (s : State)
    → s.is_disk_mounted ≡ false
    → (block_disk_open host s.disk diskname).0 ≡ pos 0
    → ((fs_mount host mem diskname s).1.is_disk_mounted ≡ true)
      × (fs_mount host mem' diskname' (fs_mount host mem diskname s).1
          ≡ (failure, (fs_mount host mem diskname s).1))
fs_mount-is_disk_mounted host mem mem' diskname diskname' s m e =
    let stays = mounted_disk host mem diskname s m e in
    (stays, second_mount host mem' diskname' (fs_mount host mem diskname s).1 stays)
