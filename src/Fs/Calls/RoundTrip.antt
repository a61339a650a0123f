-- ===== src/Fs/Calls/RoundTrip.antt =====
-- What has been written is read back.
use ecs150_project.Disk.State.{IsReliable, Host}
use ecs150_project.Fs.Calls.{fs_read, fs_write}
use ecs150_project.Fs.Calls.Geometry.{IsLaidOut}
use ecs150_project.Fs.Calls.Outcome.{WriteDone}
use ecs150_project.Fs.Calls.Read.{fs_read-file_content, HasChain, file_content}
use ecs150_project.Fs.Calls.Write.{fs_write-WriteOutcome, WriteOutcome}
use ecs150_project.Fs.Descriptors.{fs_lseek}
use ecs150_project.Fs.Descriptors.Seek.{IsOpenAt, fs_lseek-IsOpenAt}
use ecs150_project.Fs.State.{FileDescriptor, State}
use ecs150_project.Prelude.{
  ℕ, ◌+◌, ◌^◌, ◌≤◌, ◌<◌, ◌≡◌, ap, ◌∙◌, inl, inr, some, List, ◌++◌, arith, pos, update, Bytes, u16,
}
use mathlib.Core.Path.{subst}

-- The state behind a seek of the descriptor to `offset`.
abbrev sought : State → ℕ → FileDescriptor → ℕ → State
sought s fd d offset = record s {
  open_files = update s.open_files fd (some (record d { offset = u16 offset }));
}

IsLaidOut-sought :
    (s : State) (fd : ℕ) (d : FileDescriptor) (offset : ℕ)
    → IsLaidOut s
    → IsLaidOut (sought s fd d offset)
IsLaidOut-sought s fd d offset l = record {
  opened = l.opened;
  fat_small = l.fat_small;
  fits = l.fits;
  small = l.small;
}

-- After a complete write the descriptor can be put back to where the write began.
seek-back :
    {s s' : State} {fd : ℕ} {d : FileDescriptor} {bs new : List ℕ} {buf : Bytes} {count : ℕ}
    → d.offset ≤ (s.root d.file).file_size
    → (s.root d.file).file_size + count < 2 ^ 32
    → WriteDone s s' fd d bs new buf count
    → fs_lseek (pos fd) d.offset s' ≡ (pos 0, sought s' fd d d.offset)
seek-back {s} {s'} {d} inside small w = fs_lseek-IsOpenAt d.offset w.opened ∙ ground (arith, w.size)

-- What a read of `count` bytes through `fd` returns if the file holds `buf` at the offset.
pub record ReadsBack (host : Host) (bounce : Bytes) (s : State) (fd count : ℕ) (buf buf' : Bytes)
    : Type 0 where
  pub bytes : Bytes
  pub after : State
  pub returned : fs_read host bounce (pos fd) (some buf') count s ≡ (pos count, some bytes, after)
  pub same : (k : ℕ) → k < count → bytes k ≡ buf k
  pub rest : (k : ℕ) → count ≤ k → bytes k ≡ buf' k
  pub descriptor : FileDescriptor
  pub opened : IsOpenAt after fd descriptor

read-back :
    (host : Host) (good : IsReliable host) (bounce : Bytes) {s s' : State} {fd : ℕ}
    {d : FileDescriptor} {bs new : List ℕ} {buf : Bytes} {count : ℕ} (buf' : Bytes)
    → 0 < count
    → d.offset < 2 ^ 16
    → WriteDone s s' fd d bs new buf count
    → ReadsBack host bounce (sought s' fd d d.offset) fd count buf buf'
read-back host good bounce {s} {s'} {fd} {d} {bs} {new} {buf} {count} buf' moves narrow w =
    let at : u16 d.offset ≡ d.offset = omega arith in
    let s2 = sought s' fd d d.offset in
    let d2 : FileDescriptor = record d { offset = u16 d.offset } in
    let o2 : IsOpenAt s2 fd d2 = record {
      mounted = w.opened.mounted;
      in_range = w.opened.in_range;
      entry = ground arith;
    } in
    let (b, e, f) =
      fs_read-file_content host good bounce {d = d2} {bs = bs ++ new}
        (IsLaidOut-sought s' fd d d.offset w.file.laid) o2 w.file.chain buf' count moves
        (omega (arith, w.covers)) in
    record {
      bytes = b;
      after = _;
      returned = e;
      same = λ k lt.
          f k ∙ ground (arith, ap (file_content s' d.file) (shift at k), w.file.written k lt);
      rest = λ k le. f k ∙ ground arith;
      descriptor = record d2 { offset = u16 (u16 d.offset + count) };
      opened = record {
        mounted = w.opened.mounted;
        in_range = w.opened.in_range;
        entry = ground arith;
      };
    }
  where
    shift : u16 d.offset ≡ d.offset → (k : ℕ) → u16 d.offset + k ≡ d.offset + k
    shift at k = omega arith

-- After an `fs_write` of at least one byte that returned the whole count, `fs_lseek` takes the
-- descriptor back to where the write began, and `fs_read` of as many bytes returns the count and the
-- bytes that were written; the rest of the buffer is as it was. The descriptor starts inside the file, and
-- the file size stays below 2 ^ 32.
pub fs_read-fs_write :
    (host : Host) (good : IsReliable host) (bounce : Bytes) {s : State} {fd : ℕ}
    {d : FileDescriptor} {bs : List ℕ}
    → IsLaidOut s
    → IsOpenAt s fd d
    → HasChain s d.file bs
    → (buf buf' : Bytes) (count : ℕ) → 0 < count
    → d.offset < 2 ^ 16
    → d.offset ≤ (s.root d.file).file_size
    → (s.root d.file).file_size + count < 2 ^ 32
    → (s' : State) → fs_write host bounce (pos fd) (some buf) count s ≡ some (pos count, s')
    → ((fs_lseek (pos fd) d.offset s').0 ≡ pos 0)
      × ReadsBack host bounce (fs_lseek (pos fd) d.offset s').1 fd count buf buf'
fs_read-fs_write host good bounce {s} {fd} {d} laid o c buf buf' count moves narrow inside small s'
      e =
    let (res, e', out) = fs_write-WriteOutcome host good bounce laid o c buf count moves in
    let same : res ≡ (pos count, s') = ground (arith, e, e') in
    finish (subst (WriteOutcome host good bounce laid o c buf count moves) same out)
  where
    finish :
        WriteOutcome host good bounce laid o c buf count moves (pos count, s')
        → ((fs_lseek (pos fd) d.offset s').0 ≡ pos 0)
          × ReadsBack host bounce (fs_lseek (pos fd) d.offset s').1 fd count buf buf'
    finish (inl (ret, (new, w))) =
        let q = seek-back inside small w in
        (ap (λ x. x.0) q, rw q (read-back host good bounce buf' moves narrow w))
    finish (inr (n, ret, (new, w))) = absurd (ground (arith, w.less))
