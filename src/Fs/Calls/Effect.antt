-- ===== src/Fs/Calls/Effect.antt =====
-- What `fs_write` changes, whether it succeeds or not and on any host.
-- the file that a descriptor is open on
use ecs150_project.Disk.Access.{byte_at}
use ecs150_project.Disk.State.{Disk, Host, block_size}
use ecs150_project.Fs.Calls.{fs_write, allocate_blocks_in_fat, finish_write}
use ecs150_project.Fs.Calls.Geometry.{IsLaidOut}
use ecs150_project.Fs.Calls.Outcome.{final_state, grown_state}
use ecs150_project.Fs.Calls.Read.{HasChain}
use ecs150_project.Fs.Descriptors.Seek.{IsOpenAt}
use ecs150_project.Fs.Fat.{Allocated, allocate_blocks, find_data_block}
use ecs150_project.Fs.Fat.Allocate.{allocate_blocks-Allocation, Allocation}
use ecs150_project.Fs.State.{File, eoc, FileDescriptor, State}
use ecs150_project.Fs.Transfer.{
  find_num_target_blocks, goes_on, returns, Portion, write_portions, on_disk,
}
use ecs150_project.Fs.Transfer.Frame.{Kept, write_portions-Kept, left}
use ecs150_project.Prelude.{
  ℕ, ◌+◌, ◌^◌, ◌<◌, ◌≡◌, refl, ap, ◌≢◌, ◌⊎◌, inl, inr, true, Option, none, some, List, arith, ==→eq,
  pos, ◌==◌, ℤ, u32, Bytes, update,
}

abbrev pub open_file : State → ℕ → Option ℕ
open_file s k = elim (s.open_files k) [ none ↦ none | some d ↦ some d.file ]

-- What a `fs_write` has changed in a file whose blocks are now `bs`, if its allocation returned `r`.
pub record WriteEffect (s s' : State) (file : ℕ) (r : Allocated) : Type 0 where
  pub sb : s'.sb ≡ s.sb
  pub fat : s'.fat ≡ r.fat
  pub mounted : s'.is_disk_mounted ≡ s.is_disk_mounted
  pub first : (s'.root file).first_index ≡ r.first_index
  pub name : (s'.root file).filename ≡ (s.root file).filename
  pub padding : (s'.root file).padding ≡ (s.root file).padding
  pub size :
      ((s'.root file).file_size ≡ (s.root file).file_size) ⊎ ((s'.root file).file_size < 2 ^ 32)
  pub others : (f : ℕ) → f ≢ file → s'.root f ≡ s.root f
  pub files : (k : ℕ) → open_file s' k ≡ open_file s k
  pub count : s'.num_open_files ≡ s.num_open_files
  pub fd : s'.disk.fd ≡ s.disk.fd
  pub bcount : s'.disk.bcount ≡ s.disk.bcount
  pub outside :
      (b j : ℕ)
      → ((k : ℕ)
          → find_data_block r.fat r.first_index k ≢ eoc
          → b ≢ on_disk s.sb.data_start_index (find_data_block r.fat r.first_index k))
      → j < block_size
      → byte_at s'.disk b j ≡ byte_at s.disk b j

module _ (host : Host) (bounce : Bytes) {s : State} {fd : ℕ} {d : FileDescriptor} {bs : List ℕ}
    (laid : IsLaidOut s) (o : IsOpenAt s fd d) (c : HasChain s d.file bs) (buf : Bytes) (count : ℕ)
    (moves : 0 < count) where
  grown_self :
      (r : Allocated)
      → (grown_state s d.file r).root d.file
        ≡ record (s.root d.file) { first_index = r.first_index }
  grown_self r = ground arith

  pub finish_write-goes_on :
      (r : Allocated) (e : Disk)
      → finish_write host bounce (grown_state s d.file r) fd d (goes_on e count)
        ≡ (pos count, final_state s fd d count r e)
  unfolding finish_write
  finish_write-goes_on r e = ap (with_size r e) (grown_self r)
    where
      with_size : Allocated → Disk → File → ℤ × State
      with_size r e f = (
        pos count,
        record (final_state s fd d count r e) {
          root =
              update (grown_state s d.file r).root d.file
                (record f { file_size = u32 (f.file_size + count) });
        },
      )

  pub finish_write-returns :
      (r : Allocated) (e : Disk) (n : ℕ)
      → finish_write host bounce (grown_state s d.file r) fd d (returns (pos n) e)
        ≡ (pos n, record (grown_state s d.file r) { disk = e })
  unfolding finish_write
  finish_write-returns r e n = refl

  pub fs_write-finish_write :
      (r : Allocated)
      → allocate_blocks s.sb.num_data_blocks s.sb.num_data_blocks
          (find_num_target_blocks d.offset count)
          s.fat
          (s.root d.file).first_index
        ≡ some r
      → fs_write host bounce (pos fd) (some buf) count s
        ≡ some (
            finish_write host bounce (grown_state s d.file r) fd d (
              write_portions host r.fat r.first_index s.sb.data_start_index bounce buf d.offset
                count s.disk))
  unfolding fs_write allocate_blocks_in_fat
  fs_write-finish_write r e = ground (arith, o.mounted, o.in_range, o.entry, e, grown_self r)

  WriteEffect-finish_write :
      (r : Allocated) (p : Portion Disk)
      → Kept host r.fat r.first_index s.sb.data_start_index bounce s.disk
          (left host r.fat r.first_index s.sb.data_start_index bounce p)
      → WriteEffect s (finish_write host bounce (grown_state s d.file r) fd d p).1 d.file r
  unfolding finish_write
  WriteEffect-finish_write r (returns n e) k = record {
    sb = refl;
    fat = refl;
    mounted = refl;
    first = ground arith;
    name = ground arith;
    padding = ground arith;
    size = inl (ground arith);
    others = λ f ne. ground arith;
    files = λ q. refl;
    count = refl;
    fd = k.fd;
    bcount = k.bcount;
    outside = k.outside;
  }
  WriteEffect-finish_write r (goes_on e n) k = record {
    sb = refl;
    fat = refl;
    mounted = refl;
    first = ground arith;
    name = ground arith;
    padding = ground arith;
    size = inr (ground arith);
    others = λ f ne. ground arith;
    files = λ q. ground (arith, o.entry, same_place q);
    count = refl;
    fd = k.fd;
    bcount = k.bcount;
    outside = k.outside;
  }
    where
      same_place : (q : ℕ) → (q == fd) ≡ true → s.open_files q ≡ s.open_files fd
      same_place q h = ap s.open_files (==→eq q fd h)

  -- `fs_write` of at least one byte returns, on any host. It has appended free blocks to the file's,
  -- and changed nothing but the file's root entry, its chain, its blocks on the disk and the offset of
  -- the descriptor.
  pub fs_write-WriteEffect :
      (res : ℤ × State) × (r : Allocated) × (new : List ℕ) × (fs_write host bounce
          (pos fd)
          (some buf)
          count
          s
        ≡ some res)
      × Allocation s.sb.num_data_blocks (find_num_target_blocks d.offset count) s.fat bs r new
      × WriteEffect s res.1 d.file r
  fs_write-WriteEffect =
      let (r, new, e, a) =
        allocate_blocks-Allocation s.sb.num_data_blocks (find_num_target_blocks d.offset count)
          s.fat (s.root d.file).first_index bs laid.fat_small c in
      (
        _,
        r,
        new,
        fs_write-finish_write r e,
        a,
        WriteEffect-finish_write r _ (
            write_portions-Kept host r.fat r.first_index s.sb.data_start_index bounce buf d.offset
              count s.disk),
      )
