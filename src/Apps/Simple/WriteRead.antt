-- ===== src/Apps/Simple/WriteRead.antt =====
-- apps/simple_reader.c behind apps/simple_writer.c.
use ecs150_project.Apps.{strncmp_eq, Process, argument, finished}
use ecs150_project.Apps.Simple.{
  simple_reader, alphabet, my_file, simple_writer, letters, is_expected,
}
use ecs150_project.Disk.State.{Host, IsReliable, block_size}
use ecs150_project.Fs.Descriptors.{fs_close}
use ecs150_project.Fs.Layout.{IsWellFormed}
use ecs150_project.Fs.Layout.Descriptors.{IsFirstNamed-IsNamed}
use ecs150_project.Fs.Layout.Steps.{IsWellFormed-Run}
use ecs150_project.Fs.Mount.{fs_umount, fs_mount}
use ecs150_project.Fs.Names.{CString}
use ecs150_project.Fs.Persist.{booted, IsImage, IsAmple, IsSavable}
use ecs150_project.Fs.Persist.Chains.{IsChain-unique}
use ecs150_project.Fs.Persist.Sessions.{next_process-fs_mount, next_process-Reopened}
use ecs150_project.Fs.Persist.Steps.{IsSavable-Run}
use ecs150_project.Fs.State.{filename_len, State}
use ecs150_project.Fs.Usage.Fetch.{Fetched_lem, Fetched}
use ecs150_project.Fs.Usage.Store.{StoredFile, HasRoom, StoredFile_lem}
use ecs150_project.Prelude.{
  ℕ, zero, suc, ◌+◌, ◌*◌, ◌≤◌, ◌<◌, ◌≡◌, refl, ap, ◌∙◌, true, false, some, List, [], ◌∷◌, arith,
  pos, ltb, Bytes,
}
use ecs150_project.Prelude.Lists.{get_or, length}

get_or-letters : (n c k : ℕ) (d : ℕ) → k < n → get_or (letters n c) k d ≡ c + k
get_or-letters zero c k d lt = absurd (omega arith)
get_or-letters (suc n) c zero d lt = omega arith
get_or-letters (suc n) c (suc k) d lt = omega (arith, get_or-letters n (c + 1) k d (omega arith))

strncmp_eq-letters :
    (n c : ℕ) (buf : Bytes) (i : ℕ)
    → ((k : ℕ) → k < n → buf (i + k) ≡ c + k)
    → strncmp_eq n (letters n c) buf i ≡ true
unfolding strncmp_eq
strncmp_eq-letters zero c buf i same = refl
strncmp_eq-letters (suc n) c buf i same = ground (
  arith,
  same 0 (omega arith),
  ap buf (at_start i),
  strncmp_eq-letters n (c + 1) buf (i + 1)
      (λ k lt. ap buf (shift i k) ∙ (same (suc k) (omega arith) ∙ count k)),
)
  where
    at_start : (i : ℕ) → i ≡ i + 0
    at_start i = omega arith

    shift : (i k : ℕ) → i + 1 + k ≡ i + suc k
    shift i k = omega arith

    count : (k : ℕ) → c + suc k ≡ c + 1 + k
    count k = omega arith

-- A file with the alphabet in it: the 10 bytes from the 12th on are the expected ones.
is_expected-alphabet :
    (stack buf : Bytes)
    → ((k : ℕ) → k < 10 → buf k ≡ alphabet stack (12 + k))
    → is_expected (some buf) ≡ true
is_expected-alphabet stack buf same = strncmp_eq-letters 10 b'm' buf 0 (λ k lt.
    ap buf (from_start k)
    ∙ (same k lt ∙ (get_or-letters 26 b'a' (12 + k) (stack (12 + k)) (omega arith) ∙ twelve k)))
  where
    from_start : (k : ℕ) → 0 + k ≡ k
    from_start k = omega arith

    twelve : (k : ℕ) → b'a' + (12 + k) ≡ b'm' + k
    twelve k = omega arith

has_program :
    (argv : List CString) {path : CString}
    → argument argv 1 ≡ some path
    → ltb (length argv) 1 ≡ false
has_program [] e = absurd (ground arith)
has_program (a ∷ argv) e = ground arith

module _ (host : Host) (p : Process) (argv : List CString) (path : CString) (t : State) {s : State}
    (at_path : argument argv 1 ≡ some path)
    (mounts : fs_mount host p.memory (some path) t ≡ (pos 0, s)) (memory : p.malloc_ok ≡ true) where
  -- Behind a mount, and four calls that succeed, the writer has nothing left but to unmount.
  simple_writer-finished :
      (st : StoredFile host p.bounce my_file s 26 (alphabet p.stack))
      → simple_writer host p argv t ≡ finished (fs_umount host st.after).1
  unfolding simple_writer
  simple_writer-finished st =
      ground (arith, has_program argv at_path, st.creates, st.opens, st.writes, st.closes)

  -- And the reader, if it has read what it expects.
  simple_reader-finished :
      {f : ℕ} (r : Fetched host p.bounce my_file s f 12 10 p.stack)
      → is_expected (some r.bytes) ≡ true
      → simple_reader host p argv t ≡ finished (fs_umount host (fs_close (pos r.fd) r.after).1).1
  unfolding simple_reader
  simple_reader-finished r same =
      ground (arith, has_program argv at_path, r.opens, r.seeks, r.reads)

pub my_file-short : length my_file < filename_len
my_file-short = omega arith

-- On a reliable host, apps/simple_writer.c returns 0 if its `fs_mount` succeeds on a well-formed disk that
-- can be saved, has room for the file, and memory is there. If apps/simple_reader.c then runs on the same
-- image, with memory and whatever its stack holds, it returns 0 as well: it has found the file under
-- its name and read the bytes that it expects.
pub simple_reader-simple_writer :
    (host : Host) (p q : Process) (argv argv' : List CString) (path path' : CString)
    {file count : ℕ} (t t' : State) {s : State}
    → IsReliable host
    → p.malloc_ok ≡ true
    → q.malloc_ok ≡ true
    → IsAmple q.memory
    → argument argv 1 ≡ some path
    → argument argv' 1 ≡ some path'
    → IsImage host file count path'
    → fs_mount host p.memory (some path) t ≡ (pos 0, s)
    → IsSavable file count s
    → IsWellFormed s
    → HasRoom my_file s
    → (s1 s2 : State) × (simple_writer host p argv t ≡ finished s1)
      × (simple_reader host q argv' (booted t' s1.disk.files) ≡ finished s2)
simple_reader-simple_writer host p q argv argv' path path' {file} {count} t t' {s} good has_p has_q
      ample at_p at_q image mounts savable (blocks0, l0) room =
    let st =
      StoredFile_lem host good p.bounce room (alphabet p.stack) 26 (omega arith) (omega arith)
        l0.laid savable.formatted.mounted in
    let (blocks, l) = IsWellFormed-Run st.run (blocks0, l0) in
    let savable' = IsSavable-Run st.run (blocks0, l0) savable in
    let (s2, e, o) = next_process-Reopened host good q.memory path' t' ample image savable' l in
    let (lt, named) = IsFirstNamed-IsNamed my_file st.after st.file room.text room.valid st.found in
    let same_blocks : st.blocks ≡ blocks st.file =
      IsChain-unique st.chain (l.chains st.file lt named) in
    let covers : 26 ≤ length (blocks st.file) * block_size = rw (← same_blocks) st.covers in
    let found = o.kept.found my_file st.file my_file-short st.found in
    let (lt', named') = IsFirstNamed-IsNamed my_file s2 st.file room.text room.valid found in
    let r =
      Fetched_lem host good q.bounce {f = st.file} 0 12 10 q.stack o.layout.laid
        o.savable.formatted.mounted room.valid found (o.layout.chains st.file lt' named')
        (omega (arith, o.none_counted)) (omega arith) (o.none_open 0 (omega arith)) (omega arith)
        (omega arith) (omega (arith, o.kept.size st.file lt, st.size)) (omega (arith, covers)) in
    let same_bytes : (k : ℕ) → k < 10 → r.bytes k ≡ alphabet p.stack (12 + k) = λ k lk.
      r.same k lk
      ∙ (o.kept.content st.file (12 + k) lt named (omega (arith, covers))
          ∙ st.content (12 + k) (omega arith)) in
    (
      (fs_umount host st.after).1,
      (fs_umount host (fs_close (pos r.fd) r.after).1).1,
      simple_writer-finished host p argv path t at_p mounts has_p st,
      simple_reader-finished host q argv' path' (booted t' (fs_umount host st.after).1.disk.files)
          at_q (next_process-fs_mount host q.memory path' t' st.after e) has_q r
          (is_expected-alphabet p.stack r.bytes same_bytes),
    )
