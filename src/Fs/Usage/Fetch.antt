-- ===== src/Fs/Usage/Fetch.antt =====
-- Reading a part of a file: `fs_open`, `fs_lseek`, `fs_read`.
use ecs150_project.Disk.State.{IsReliable, Host, block_size}
use ecs150_project.Fs.Calls.{fs_read}
use ecs150_project.Fs.Calls.Geometry.{IsLaidOut}
use ecs150_project.Fs.Calls.Read.{HasChain, file_content, fs_read-file_content}
use ecs150_project.Fs.Descriptors.{fs_lseek, fs_open}
use ecs150_project.Fs.Descriptors.Seek.{fs_lseek-IsOpenAt, IsOpenAt}
use ecs150_project.Fs.Names.{CString, is_filename_invalid}
use ecs150_project.Fs.Root.{IsFirstNamed}
use ecs150_project.Fs.State.{open_max_count, FileDescriptor, State}
use ecs150_project.Fs.Usage.Succeeds.{OpenedAt-IsOpenAt, fs_open-OpenedAt}
use ecs150_project.Prelude.{
  ℕ, ◌+◌, ◌*◌, ◌^◌, ◌≤◌, ◌<◌, ◌≡◌, refl, ap, ◌∙◌, true, false, none, some, List, arith,
  if◌then◌else◌, pos, ltb, Bytes, u16, update,
}
use ecs150_project.Prelude.Lists.{length}

-- The status, the buffer and the state after each of the three calls.
pub record Fetched (host : Host) (bounce : Bytes) (name : CString) (s : State) (f offset count : ℕ)
    (buf : Bytes) : Type 0 where
  pub fd : ℕ
  pub opened : State
  pub sought : State
  pub after : State
  pub bytes : Bytes
  pub opens : fs_open true (some name) s ≡ (pos fd, opened)
  pub seeks : fs_lseek (pos fd) offset opened ≡ (pos 0, sought)
  pub reads : fs_read host bounce (pos fd) (some buf) count sought ≡ (pos count, some bytes, after)
  pub same : (k : ℕ) → k < count → bytes k ≡ file_content s f (offset + k)

-- On a reliable host, with memory and a free entry of `open_files`, the part of a file below 64 KiB that
-- starts inside the file and ends inside its blocks is read.
pub Fetched_lem :
    (host : Host) (good : IsReliable host) (bounce : Bytes) {name : CString} {s : State} {f : ℕ}
    {bs : List ℕ} (k offset count : ℕ) (buf : Bytes)
    → IsLaidOut s
    → s.is_disk_mounted ≡ true
    → is_filename_invalid (some name) ≡ false
    → IsFirstNamed name s.root f
    → HasChain s f bs
    → s.num_open_files ≤ open_max_count
    → k < open_max_count
    → s.open_files k ≡ none
    → 0 < count
    → offset < 2 ^ 16
    → offset ≤ (s.root f).file_size
    → offset + count ≤ length bs * block_size
    → Fetched host bounce name s f offset count buf
Fetched_lem host good bounce {name} {s} {f} {bs} k offset count buf laid m valid found c few lt
      empty moves narrow inside ends =
    let (fd, s1, opens, o) = fs_open-OpenedAt f k m valid found few lt empty in
    let d : FileDescriptor = record { file = f; offset = 0 } in
    let o1 = OpenedAt-IsOpenAt found o in
    let d2 : FileDescriptor = record { file = f; offset = offset } in
    let s2 : State = record s1 { open_files = update s1.open_files fd (some d2) } in
    let same_root : s1.root ≡ s.root = rw o.after refl in
    let seeks : fs_lseek (pos fd) offset s1 ≡ (pos 0, s2) =
      fs_lseek-IsOpenAt offset o1
      ∙ ground (arith, ap (λ r. (r f).file_size) same_root, u16-small offset narrow) in
    let o2 : IsOpenAt s2 fd d2 = record {
      mounted = o1.mounted;
      in_range = o1.in_range;
      entry = ground arith;
    } in
    let s3 : State = record s2 {
      open_files = update s2.open_files fd (some (record d2 { offset = u16 (offset + count) }));
    } in
    let (bytes, e, at) =
      fs_read-file_content host good bounce {s = s2} {d = d2} {bs = bs}
        (rw o.after (record {
          opened = laid.opened;
          fat_small = laid.fat_small;
          fits = laid.fits;
          small = laid.small;
        }))
        o2 (rw o.after c) buf count moves ends in
    record {
      fd = fd;
      opened = s1;
      sought = s2;
      after = s3;
      bytes = bytes;
      opens = opens;
      seeks = seeks;
      reads = e;
      same = λ j lj.
          at j
          ∙ (inside_count (file_content s2 f (offset + j)) (buf j) j lj
              ∙ ap (λ q. file_content q f (offset + j)) o.after);
    }
  where
    u16-small : (n : ℕ) → n < 2 ^ 16 → u16 n ≡ n
    u16-small n h = omega arith

    inside_count : (a b j : ℕ) → j < count → (if ltb j count then a else b) ≡ a
    inside_count a b j lj = ground arith
