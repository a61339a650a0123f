-- ===== src/Tests/Tiny.antt =====
-- `fs_mount` of a disk that has no block for the root directory.
use ecs150_project.Disk.Access.{byte_at}
use ecs150_project.Disk.Lifecycle.{block_disk_open}
use ecs150_project.Disk.State.{IsReliable, Host, Disk}
use ecs150_project.Fs.Codec.{concatenate_two_bytes, u16_at}
use ecs150_project.Fs.Mount.{fs_mount, BufferHolds}
use ecs150_project.Fs.Mount.Images.{IsMountable}
use ecs150_project.Fs.Mount.Images.Exact.{fs_mount-IsMountable}
use ecs150_project.Fs.Mount.Superblock.{word}
use ecs150_project.Fs.State.{State}
use ecs150_project.Prelude.{
  ◌^◌, ◌<◌, ◌≡◌, refl, ap, false, none, some, [], arith, ◌==◌, pos, if◌then◌else◌, Bytes,
}
use ecs150_project.Tests.Demo.{state, host}
use ecs150_project.Tests.Mounts.{memory}

-- A disk of two blocks, a superblock and a FAT: no block is left for the root directory.
abbrev tiny_bytes : Bytes
tiny_bytes i =
    if i == 8
    then 2
    else if i == 10
    then 1
    else if i == 12
    then 2
    else if i == 14
    then 1
    else if i == 16
    then 1
    else if i == 4096
    then 255
    else if i == 4097
    then 255
    else 0

abbrev tiny_host : Host
tiny_host = record host { fstat = λ f. some 8192 }

abbrev tiny : State
tiny = record state {
  is_disk_mounted = false;
  disk = record { fd = none; bcount = 0; files = λ f. tiny_bytes };
}

abbrev tiny_disk : Disk
tiny_disk = record { fd = some 0; bcount = 2; files = λ f. tiny_bytes }

tiny_host-IsReliable : IsReliable tiny_host
tiny_host-IsReliable = record { seeks = λ n. refl; reads = λ n. refl; writes = λ n. refl }

tiny-opens : block_disk_open tiny_host tiny.disk (some []) ≡ (pos 0, tiny_disk)
unfolding block_disk_open
tiny-opens = refl

tiny-IsMountable : IsMountable memory tiny_disk
unfolding concatenate_two_bytes u16_at
tiny-IsMountable = record {
  superblock = record {
    blocks = refl;
    root_set = omega arith;
    data_set = omega arith;
    root_apart = omega arith;
    data_fits = omega arith;
    fat_fits = omega arith;
    padding = λ k lo hi. ground arith;
  };
  sb_allocated = refl;
  fat_allocated = refl;
  marked = λ fat0 e. refl;
  files_allocated = λ f lt. refl;
  padding = λ f k lt lk. ground arith;
}

tiny-small : (block_disk_open tiny_host tiny.disk (some [])).1.bcount < 2 ^ 31
tiny-small = rw tiny-opens (omega arith)

tiny-holds :
    let d = (block_disk_open tiny_host tiny.disk (some [])).1 in
    BufferHolds (byte_at d 0 16) (word (byte_at d 0 14) (byte_at d 0 15))
tiny-holds = rw tiny-opens (omega arith, omega arith)

-- It is mounted, with the superblock as its root directory.
tiny-mounts : (fs_mount tiny_host memory (some []) tiny).0 ≡ pos 0
tiny-mounts =
    (fs_mount-IsMountable tiny_host memory (some []) tiny tiny_host-IsReliable refl
        (ap (λ r. r.0) tiny-opens) tiny-small tiny-holds).1
      (rw tiny-opens tiny-IsMountable)
