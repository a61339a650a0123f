-- ===== src/Fs/Usage/Content.antt =====
-- Reading a whole file: `fs_open`, `fs_stat`, `fs_read` of as many bytes as `fs_stat` returned.
use ecs150_project.Disk.State.{Host, IsReliable, block_size}
use ecs150_project.Fs.Calls.{fs_read}
use ecs150_project.Fs.Calls.Geometry.{IsLaidOut}
use ecs150_project.Fs.Calls.Read.{fs_read-file_content, HasChain, file_content}
use ecs150_project.Fs.Descriptors.{fs_stat, fs_open}
use ecs150_project.Fs.Descriptors.Seek.{IsOpenAt, guarded_entry-IsOpenAt}
use ecs150_project.Fs.Names.{is_filename_invalid, CString}
use ecs150_project.Fs.Root.{IsFirstNamed}
use ecs150_project.Fs.State.{FileDescriptor, State, open_max_count}
use ecs150_project.Fs.Usage.Succeeds.{fs_open-OpenedAt, OpenedAt-IsOpenAt}
use ecs150_project.Prelude.{
  ℕ, ◌+◌, ◌*◌, ◌^◌, ◌≤◌, ◌<◌, ◌≡◌, refl, ap, ◌∙◌, true, false, none, some, List, arith, pos,
  if◌then◌else◌, ltb, Bytes, u16,
}
use ecs150_project.Prelude.Lists.{length}

-- What the three calls give of the file `f`.
pub record FetchedWhole (host : Host) (bounce : Bytes) (name : CString) (s : State) (f : ℕ)
    (buf : Bytes) : Type 0 where
  pub fd : ℕ
  pub opened : State
  pub after : State
  pub bytes : Bytes
  pub opens : fs_open true (some name) s ≡ (pos fd, opened)
  pub stats : fs_stat (pos fd) opened ≡ pos (s.root f).file_size
  pub reads :
      fs_read host bounce (pos fd) (some buf) (s.root f).file_size opened
      ≡ (pos (s.root f).file_size, some bytes, after)
  pub same : (k : ℕ) → k < (s.root f).file_size → bytes k ≡ file_content s f k
  pub descriptor : FileDescriptor
  pub still_open : IsOpenAt after fd descriptor

pub fs_stat-IsOpenAt :
    {s : State} {fd : ℕ} {d : FileDescriptor}
    → IsOpenAt s fd d
    → (s.root d.file).file_size < 2 ^ 31
    → fs_stat (pos fd) s ≡ pos (s.root d.file).file_size
unfolding fs_stat
fs_stat-IsOpenAt o small = ground (arith, guarded_entry-IsOpenAt o)

-- On a reliable host, with memory and a free entry of `open_files`, a file that is not empty, has less
-- than 2 GiB and all its bytes in its blocks is read.
pub FetchedWhole_lem :
    (host : Host) (good : IsReliable host) (bounce : Bytes) {name : CString} {s : State} {f : ℕ}
    {bs : List ℕ} (k : ℕ) (buf : Bytes)
    → IsLaidOut s
    → s.is_disk_mounted ≡ true
    → is_filename_invalid (some name) ≡ false
    → IsFirstNamed name s.root f
    → HasChain s f bs
    → s.num_open_files ≤ open_max_count
    → k < open_max_count
    → s.open_files k ≡ none
    → 0 < (s.root f).file_size
    → (s.root f).file_size < 2 ^ 31
    → (s.root f).file_size ≤ length bs * block_size
    → FetchedWhole host bounce name s f buf
FetchedWhole_lem host good bounce {name} {s} {f} {bs} k buf laid m valid found c few lt empty moves
      small covers =
    let (fd, s1, opens, o) = fs_open-OpenedAt f k m valid found few lt empty in
    let d : FileDescriptor = record { file = f; offset = 0 } in
    let o1 = OpenedAt-IsOpenAt found o in
    let same_root : s1.root ≡ s.root = rw o.after refl in
    let count = (s.root f).file_size in
    let (bytes, e, at) =
      fs_read-file_content host good bounce {s = s1} {d = d} {bs = bs}
        (rw o.after (record {
          opened = laid.opened;
          fat_small = laid.fat_small;
          fits = laid.fits;
          small = laid.small;
        }))
        o1 (rw o.after c) buf count moves (omega (arith, covers)) in
    record {
      fd = fd;
      opened = s1;
      after = _;
      bytes = bytes;
      opens = opens;
      stats = fs_stat-IsOpenAt o1 (rw same_root small) ∙ ap (λ r. pos (r f).file_size) same_root;
      reads = e;
      same = λ j lj.
          at j
          ∙ (inside_count (file_content s1 f (0 + j)) (buf j) j lj
              ∙ (ap (λ q. file_content q f (0 + j)) o.after ∙ ap (file_content s f) (zero_add j)));
      descriptor = record d { offset = u16 (0 + count) };
      still_open = record { mounted = o1.mounted; in_range = o1.in_range; entry = ground arith };
    }
  where
    inside_count :
        (a b j : ℕ) → j < (s.root f).file_size → (if ltb j (s.root f).file_size then a else b) ≡ a
    inside_count a b j lj = ground arith

    zero_add : (j : ℕ) → 0 + j ≡ j
    zero_add j = omega arith
