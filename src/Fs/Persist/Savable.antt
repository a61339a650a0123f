-- ===== src/Fs/Persist/Savable.antt =====
-- Which changes of the state leave a disk that can be saved.
use ecs150_project.Disk.Access.{byte_at}
use ecs150_project.Disk.State.{block_size, Host}
use ecs150_project.Fs.Calls.{fs_read, finish_read}
use ecs150_project.Fs.Calls.Read.{finish_read-cases}
use ecs150_project.Fs.Descriptors.{fs_open, fs_close, fs_lseek}
use ecs150_project.Fs.Descriptors.Open.{fs_open-OpenResult, OpenResult}
use ecs150_project.Fs.Descriptors.Seek.{
  IsOpenAt-cases, guarded_entry-IsOpenAt, guarded_entry-IsRefused,
}
use ecs150_project.Fs.Mount.Root.{IsStorable}
use ecs150_project.Fs.Mount.Superblock.{IsAccepted-same}
use ecs150_project.Fs.Names.{CString}
use ecs150_project.Fs.Persist.{IsSavable}
use ecs150_project.Fs.State.{State, FileDescriptor, file_max_count, guarded_entry}
use ecs150_project.Fs.Transfer.{read_portions, Portion}
use ecs150_project.Prelude.{
  ℕ, ◌^◌, ◌<◌, ◌≡◌, refl, ap, ◌∙◌, inl, inr, Bool, Option, none, some, arith, ℤ, pos, negsuc,
  failure, Option-cases, Bytes,
}

-- What `fs_open`, `fs_close`, `fs_lseek` and `fs_read` leave alone.
pub record Unmoved (s s' : State) : Type 0 where
  pub sb : s'.sb ≡ s.sb
  pub fat : s'.fat ≡ s.fat
  pub root : s'.root ≡ s.root
  pub mounted : s'.is_disk_mounted ≡ s.is_disk_mounted
  pub disk : s'.disk ≡ s.disk

-- What matters of a change: block 0 and the superblock stay, and what is stored still fits.
pub IsSavable-change :
    {file count : ℕ} {s s' : State}
    → IsSavable file count s
    → s'.sb ≡ s.sb
    → s'.is_disk_mounted ≡ s.is_disk_mounted
    → s'.disk.fd ≡ s.disk.fd
    → s'.disk.bcount ≡ s.disk.bcount
    → ((j : ℕ) → j < block_size → byte_at s'.disk 0 j ≡ byte_at s.disk 0 j)
    → ((i : ℕ) → i < s.sb.num_data_blocks → s'.fat i < 2 ^ 16)
    → ((f : ℕ) → f < file_max_count → IsStorable (s'.root f))
    → IsSavable file count s'
IsSavable-change {s} {s'} h sb m fd bcount block0 small storable =
    let f = h.formatted in
    record {
      formatted = record {
        mounted = m ∙ f.mounted;
        accepted = rw bcount (
            IsAccepted-same s.disk.bcount (byte_at s.disk 0) (byte_at s'.disk 0)
              (λ k lo lk. block0 k lk) f.accepted);
        root_index = rw (sb, block0 10 (omega arith), block0 11 (omega arith)) f.root_index;
        data_start_index =
            rw (sb, block0 12 (omega arith), block0 13 (omega arith)) f.data_start_index;
        num_data_blocks =
            rw (sb, block0 14 (omega arith), block0 15 (omega arith)) f.num_data_blocks;
        num_fat_blocks = rw (sb, block0 16 (omega arith)) f.num_fat_blocks;
        root_behind_fat = rw sb f.root_behind_fat;
        root_on_disk = rw (sb, bcount) f.root_on_disk;
        some_fat = rw sb f.some_fat;
        some_data = rw sb f.some_data;
        buffer_holds = rw sb f.buffer_holds;
        fat_fits = rw sb small;
        storable = storable;
      };
      data_behind = rw sb h.data_behind;
      few = rw sb h.few;
      opened = fd ∙ h.opened;
      bcount = bcount ∙ h.bcount;
    }

pub IsSavable-Unmoved :
    {file count : ℕ} {s s' : State}
    → IsSavable file count s
    → Unmoved s s'
    → IsSavable file count s'
IsSavable-Unmoved {s} {s'} h u =
    IsSavable-change h u.sb u.mounted (ap (λ d. d.fd) u.disk) (ap (λ d. d.bcount) u.disk)
      (λ j lj. ap (λ d. byte_at d 0 j) u.disk) (rw u.fat h.formatted.fat_fits)
      (rw u.root h.formatted.storable)

-- Only descriptors change.
Unmoved-descriptors :
    (s : State) (open_files : ℕ → Option FileDescriptor) (n : ℕ)
    → Unmoved s (record s { open_files = open_files; num_open_files = n })
Unmoved-descriptors s open_files n = record {
  sb = refl;
  fat = refl;
  root = refl;
  mounted = refl;
  disk = refl;
}

pub Unmoved-refl : (s : State) → Unmoved s s
Unmoved-refl s = Unmoved-descriptors s s.open_files s.num_open_files

pub Unmoved-fs_open :
    (malloc_ok : Bool) (name : CString) (s : State) → Unmoved s (fs_open malloc_ok (some name) s).1
Unmoved-fs_open malloc_ok name s = by_result _ (fs_open-OpenResult malloc_ok name s)
  where
    by_result : (r : ℤ × State) → OpenResult malloc_ok name s r → Unmoved s r.1
    by_result (pos fd, s') o = rw o.after (Unmoved-descriptors s _ _)
    by_result (negsuc k, s') (z, same, e) = rw same (Unmoved-refl s)

pub Unmoved-fs_close : (fd : ℕ) (s : State) → Unmoved s (fs_close (pos fd) s).1
unfolding fs_close guarded_entry
Unmoved-fs_close fd s = record {
  sb = ground arith;
  fat = ground arith;
  root = ground arith;
  mounted = ground arith;
  disk = ground arith;
}

pub Unmoved-fs_lseek : (fd offset : ℕ) (s : State) → Unmoved s (fs_lseek (pos fd) offset s).1
unfolding fs_lseek guarded_entry
Unmoved-fs_lseek fd offset s = record {
  sb = ground arith;
  fat = ground arith;
  root = ground arith;
  mounted = ground arith;
  disk = ground arith;
}

Unmoved-finish_read :
    (host : Host) (bounce : Bytes) (s : State) (fd : ℕ) (d : FileDescriptor) (p : Portion Bytes)
    → Unmoved s (finish_read host bounce s fd d p).2
Unmoved-finish_read host bounce s fd d p = elim (finish_read-cases host bounce s fd d p) [
  | inl same ↦ rw same (Unmoved-refl s)
  | inr (offset, moved) ↦ rw moved (Unmoved-descriptors s _ _)
]

pub Unmoved-fs_read :
    (host : Host) (bounce : Bytes) (fd : ℕ) (buf : Option Bytes) (count : ℕ) (s : State)
    → Unmoved s (fs_read host bounce (pos fd) buf count s).2
unfolding fs_read guarded_entry
Unmoved-fs_read host bounce fd buf count s = elim (IsOpenAt-cases s fd) [
  | inl refused ↦
      let E : fs_read host bounce (pos fd) buf count s ≡ (failure, buf, s) =
        ground (arith, guarded_entry-IsRefused refused) in
      rw E (Unmoved-refl s)
  | inr (d, o) ↦ elim (Option-cases buf) [
    | inl no_buf ↦
        let E : fs_read host bounce (pos fd) buf count s ≡ (failure, none, s) =
          ground (arith, guarded_entry-IsOpenAt o, no_buf) in
        rw E (Unmoved-refl s)
    | inr (b, some_buf) ↦
        let p =
          read_portions host s.fat (s.root d.file).first_index s.sb.data_start_index bounce s.disk
            d.offset count b in
        let E : fs_read host bounce (pos fd) buf count s ≡ finish_read host bounce s fd d p =
          ground (arith, guarded_entry-IsOpenAt o, some_buf) in
        rw E (Unmoved-finish_read host bounce s fd d p)
  ]
]
