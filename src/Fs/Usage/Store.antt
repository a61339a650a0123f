-- ===== src/Fs/Usage/Store.antt =====
-- Storing a new file: `fs_create`, `fs_open`, `fs_write`, `fs_close`.
use ecs150_project.Disk.State.{Host, IsReliable, block_size}
use ecs150_project.Fs.Calls.{fs_write}
use ecs150_project.Fs.Calls.Geometry.{IsLaidOut}
use ecs150_project.Fs.Calls.Outcome.{WriteShort, WriteDone}
use ecs150_project.Fs.Calls.Read.{HasChain, file_content}
use ecs150_project.Fs.Calls.Slots.{fs_write-SameSlots}
use ecs150_project.Fs.Calls.Write.{WriteOutcome, fs_write-WriteOutcome}
use ecs150_project.Fs.Descriptors.{fs_open, fs_close}
use ecs150_project.Fs.Descriptors.Open.{OpenedAt}
use ecs150_project.Fs.Descriptors.Seek.{IsOpenAt}
use ecs150_project.Fs.Directory.{fs_create}
use ecs150_project.Fs.Directory.Create.{CreatedAt-IsFirstNamed, CreatedAt}
use ecs150_project.Fs.Layout.Chains.{IsChain-nil}
use ecs150_project.Fs.Layout.Steps.{
  on_write, on_open, on_create, one_more, Call, Run, on_close, no_call,
}
use ecs150_project.Fs.Names.{is_filename_invalid, CString, IsCString}
use ecs150_project.Fs.Persist.Sessions.{Reopened}
use ecs150_project.Fs.Root.{IsAbsent, IsFirstNamed}
use ecs150_project.Fs.State.{
  State, filename_len, open_max_count, eoc, file_max_count, FileDescriptor,
}
use ecs150_project.Fs.Usage.Succeeds.{
  OpenedAt-IsOpenAt, closed_state, fs_create-CreatedAt, IsFirstNamed-same, fs_close-IsOpenAt,
  fs_open-OpenedAt,
}
use ecs150_project.Prelude.{
  ℕ, ◌+◌, ◌*◌, ◌≤◌, ◌<◌, ◌≡◌, refl, ap, ◌∙◌, inl, inr, true, false, none, some, List, [], ◌∷◌,
  arith, ℤ, pos, Bytes,
}
use ecs150_project.Prelude.Lists.{length}
use mathlib.Core.Path.{subst}

-- A mounted disk on which a new file of that name can be stored.
pub record HasRoom (name : CString) (s : State) : Type 0 where
  pub text : IsCString name
  pub valid : is_filename_invalid (some name) ≡ false
  pub fresh : IsAbsent name s.root
  pub entry : ℕ
  pub entry_in_range : entry < file_max_count
  pub entry_empty : (s.root entry).filename 0 ≡ 0
  pub block : ℕ
  pub block_positive : 0 < block
  pub block_in_range : block < s.sb.num_data_blocks
  pub block_free : s.fat block ≡ 0
  pub few_open : s.num_open_files ≤ open_max_count
  pub slot : ℕ
  pub slot_in_range : slot < open_max_count
  pub slot_free : s.open_files slot ≡ none

-- The next process has as much room.
pub HasRoom-Reopened :
    {file count : ℕ} {name : CString} {s s' : State} {blocks : ℕ → List ℕ}
    → length name < filename_len
    → HasRoom name s
    → Reopened file count s s' blocks
    → HasRoom name s'
HasRoom-Reopened {name} {s} {s'} short room o = record {
  text = room.text;
  valid = room.valid;
  fresh = o.kept.absent name short room.fresh;
  entry = room.entry;
  entry_in_range = room.entry_in_range;
  entry_empty = o.kept.empty room.entry room.entry_in_range room.entry_empty;
  block = room.block;
  block_positive = room.block_positive;
  block_in_range = rw o.kept.num_data_blocks room.block_in_range;
  block_free = o.kept.fat room.block room.block_in_range ∙ room.block_free;
  few_open = omega (arith, o.none_counted);
  slot = 0;
  slot_in_range = omega arith;
  slot_free = o.none_open 0 (omega arith);
}

-- The states behind the four calls, and the file behind the last of them.
pub record StoredFile (host : Host) (bounce : Bytes) (name : CString) (s : State) (count : ℕ)
    (buf : Bytes) : Type 0 where
  pub fd : ℕ
  pub created : State
  pub opened : State
  pub written : State
  pub after : State
  pub creates : fs_create (some name) s ≡ (pos 0, created)
  pub opens : fs_open true (some name) created ≡ (pos fd, opened)
  pub writes : fs_write host bounce (pos fd) (some buf) count opened ≡ some (pos count, written)
  pub closes : fs_close (pos fd) written ≡ (pos 0, after)
  pub run : Run host bounce s after
  pub file : ℕ
  pub laid : IsLaidOut opened
  pub descriptor : IsOpenAt opened fd (record { file = file; offset = 0 })
  pub empty_chain : HasChain opened file []
  pub empty_size : (opened.root file).file_size ≡ 0
  pub found : IsFirstNamed name after.root file
  pub size : (after.root file).file_size ≡ count
  pub blocks : List ℕ
  pub chain : HasChain after file blocks
  pub covers : count ≤ length blocks * block_size
  pub content : (k : ℕ) → k < count → file_content after file k ≡ buf k

four_calls :
    {host : Host} {bounce : Bytes} {s s1 s2 s3 s4 : State}
    → Call host bounce s s1
    → Call host bounce s1 s2
    → Call host bounce s2 s3
    → Call host bounce s3 s4
    → Run host bounce s s4
four_calls {s} {s1} {s2} {s3} {s4} a b c d =
    one_more s s3 s4 (one_more s s2 s3 (one_more s s1 s2 (one_more s s s1 (no_call s) a) b) c) d

-- A write into an empty file that one free block can hold is complete.
write-empty :
    {s s' : State} {d : FileDescriptor} {new : List ℕ} {buf : Bytes} {count n : ℕ} (block : ℕ)
    → 0 < block
    → block < s.sb.num_data_blocks
    → s.fat block ≡ 0
    → d.offset ≡ 0
    → 0 < count
    → count ≤ block_size
    → WriteShort s s' d [] new buf count n
    → ⊥
write-empty {s} {s'} {new = []} block positive lt free start moves one w =
    w.full block positive lt (w.file.fat_same block refl refl ∙ free)
write-empty {new = x ∷ xs} block positive lt free start moves one w =
    ground (arith, w.covers, w.less)

module _ (host : Host) (good : IsReliable host) (bounce : Bytes) {name : CString} {s : State}
    (room : HasRoom name s) (buf : Bytes) (count : ℕ) (moves : 0 < count)
    (one : count ≤ block_size) where
  module _ {i fd : ℕ} {s1 s2 : State} (laid : IsLaidOut s) (c : CreatedAt name s s1 i)
      (creates : fs_create (some name) s ≡ (pos 0, s1)) (o : OpenedAt name s1 s2 fd)
      (opens : fs_open true (some name) s1 ≡ (pos fd, s2)) where
    abbrev descriptor : FileDescriptor
    descriptor = record { file = i; offset = 0 }

    opened_at : IsOpenAt s2 fd descriptor
    opened_at = OpenedAt-IsOpenAt (CreatedAt-IsFirstNamed name s s1 i c) o

    laid2 : IsLaidOut s2
    laid2 =
        rw (o.after, c.after)
          (record {
            opened = laid.opened;
            fat_small = laid.fat_small;
            fits = laid.fits;
            small = laid.small;
          })

    first2 : (s2.root i).first_index ≡ eoc
    first2 = rw (o.after, c.after) (ground arith)

    chain2 : HasChain s2 i []
    chain2 = rw first2 (IsChain-nil s2.sb.num_data_blocks s2.fat)

    size2 : (s2.root i).file_size ≡ 0
    size2 = rw (o.after, c.after) (ground arith)

    found2 : IsFirstNamed name s2.root i
    found2 = rw o.after (CreatedAt-IsFirstNamed name s s1 i c)

    -- a write that is complete, and the closing of the file
    stored :
        {s3 : State} {new : List ℕ}
        → fs_write host bounce (pos fd) (some buf) count s2 ≡ some (pos count, s3)
        → WriteDone s2 s3 fd descriptor [] new buf count
        → StoredFile host bounce name s count buf
    stored {s3} {new} writes w =
        let closes = fs_close-IsOpenAt w.opened in
        let names = (fs_write-SameSlots host bounce fd (some buf) count writes).names in
        record {
          fd = fd;
          created = s1;
          opened = s2;
          written = s3;
          after = closed_state s3 fd;
          creates = creates;
          opens = opens;
          writes = writes;
          closes = closes;
          run =
              four_calls
                (subst (Call host bounce s) (ap (λ r. r.1) creates) (on_create name room.text))
                (subst (Call host bounce s1) (ap (λ r. r.1) opens) (on_open true name room.text))
                (on_write fd (some buf) count (pos count) s3 o.in_range writes)
                (subst (Call host bounce s3) (ap (λ r. r.1) closes) (on_close fd o.in_range));
          file = i;
          laid = laid2;
          descriptor = opened_at;
          empty_chain = chain2;
          empty_size = size2;
          found = IsFirstNamed-same names found2;
          size = w.size ∙ ground (arith, size2);
          blocks = new;
          chain = w.file.chain;
          covers = omega (arith, w.covers);
          content = λ k lt. ap (file_content s3 i) (from_start k) ∙ w.file.written k lt;
        }
      where
        from_start : (k : ℕ) → k ≡ 0 + k
        from_start k = omega arith

    stored-outcome : StoredFile host bounce name s count buf
    stored-outcome =
        let (res, writes, out) =
          fs_write-WriteOutcome host good bounce laid2 opened_at chain2 buf count moves in
        by_outcome res writes out
      where
        by_outcome :
            (res : ℤ × State)
            → fs_write host bounce (pos fd) (some buf) count s2 ≡ some res
            → WriteOutcome host good bounce laid2 opened_at chain2 buf count moves res
            → StoredFile host bounce name s count buf
        by_outcome (r, s3) writes (inl (ret, (new, w))) =
            stored (writes ∙ ap (λ q. some (q, s3)) ret) w
        by_outcome (r, s3) writes (inr (n, ret, (new, w))) = absurd (
            write-empty room.block room.block_positive (rw (o.after, c.after) room.block_in_range)
              (rw (o.after, c.after) room.block_free) refl moves one w)

  -- On a reliable host a new file of at most one block is stored, and its bytes are in it.
  pub StoredFile_lem :
      IsLaidOut s → s.is_disk_mounted ≡ true → StoredFile host bounce name s count buf
  StoredFile_lem laid m =
      let (i, s1, creates, c) =
        fs_create-CreatedAt room.entry m room.valid room.fresh room.entry_in_range
          room.entry_empty in
      let (fd, s2, opens, o) =
        fs_open-OpenedAt i room.slot (rw c.after m) room.valid
          (CreatedAt-IsFirstNamed name s s1 i c) (rw c.after room.few_open) room.slot_in_range
          (rw c.after room.slot_free) in
      stored-outcome laid c creates o opens
