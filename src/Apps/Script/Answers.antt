-- ===== src/Apps/Script/Answers.antt =====
-- What a script prints for a WRITE, a SEEK back and a READ of the same data.
use ecs150_project.Apps.Desks.{
  goes, Desk, zeroed, wrote, do_seek, successful, compared, memcmp_eq, Session, do_write, do_read,
}
use ecs150_project.Apps.Script.{comparison, run_write, run_command, with_data, on_status, run_read}
use ecs150_project.Apps.Text.{atoi, literal}
use ecs150_project.Disk.State.{IsReliable}
use ecs150_project.Fs.Calls.{fs_write}
use ecs150_project.Fs.Calls.Geometry.{IsLaidOut}
use ecs150_project.Fs.Calls.Read.{HasChain}
use ecs150_project.Fs.Calls.RoundTrip.{ReadsBack, fs_read-fs_write}
use ecs150_project.Fs.Descriptors.{fs_lseek}
use ecs150_project.Fs.Descriptors.Seek.{IsOpenAt}
use ecs150_project.Fs.Names.{c_str, CString}
use ecs150_project.Fs.State.{FileDescriptor}
use ecs150_project.Prelude.{
  ℕ, zero, suc, ◌+◌, ◌^◌, ◌≤◌, ◌<◌, ◌≡◌, refl, sym, ap, ◌∙◌, inl, inr, true, some, List, [], ◌∷◌,
  arith, ltb, Bool-cases, pos, Bytes,
}
use ecs150_project.Prelude.Lists.{length}

-- The parts of a line behind WRITE, or behind the length of a READ, for data in the line itself.
abbrev pub inline_data : CString → List CString
inline_data text = literal "DATA" ∷ text ∷ []

memcmp_eq-same : (n : ℕ) (a b : Bytes) → ((k : ℕ) → k < n → a k ≡ b k) → memcmp_eq n a b ≡ true
memcmp_eq-same zero a b same = refl
memcmp_eq-same (suc n) a b same =
    ground (arith, memcmp_eq-same n a b (λ k lt. same k (omega arith)), same n (omega arith))

c_str-behind : (s : CString) (k : ℕ) → length s ≤ k → c_str s k ≡ 0
unfolding c_str
c_str-behind [] k le = refl
c_str-behind (c ∷ cs) zero le = absurd (omega arith)
c_str-behind (c ∷ cs) (suc k) le = c_str-behind cs k (omega arith)

module _ (desk : Desk) (text : CString) (t : Session) where
  -- A WRITE that reports all bytes has got all of them from `fs_write`.
  complete_write :
      {fd : ℕ} {t1 : Session}
      → t.fs_fd ≡ pos fd
      → run_command desk do_write (inline_data text) t ≡ goes t1
      → t1.out ≡ wrote (pos (length text)) ∷ t.out
      → (fs_write desk.host desk.process.bounce (pos fd) (some (c_str text)) (length text) t.fs
          ≡ some (pos (length text), t1.fs))
        × (t1.fs_fd ≡ pos fd)
  unfolding run_command run_write with_data
  complete_write at_fd writes all =
      (ground (arith, at_fd, writes, all), ground (arith, at_fd, writes, all))

  pub seek_step :
      {fd : ℕ} (position : CString) (offset : ℕ)
      → t.fs_fd ≡ pos fd
      → atoi position ≡ pos offset
      → (fs_lseek (pos fd) offset t.fs).0 ≡ pos 0
      → run_command desk do_seek (position ∷ []) t
        ≡ goes
            (record t { fs = (fs_lseek (pos fd) offset t.fs).1; out = successful "SEEK" ∷ t.out })
  unfolding run_command on_status
  seek_step position offset at_fd number ok = ground (arith, at_fd, number, ok)

  -- A READ into a buffer that then has the text, and the zero behind it.
  pub read_step :
      {fd : ℕ} (len : CString)
      → t.fs_fd ≡ pos fd
      → atoi len ≡ pos (length text)
      → (r : ReadsBack desk.host desk.process.bounce t.fs fd
          (length text)
          (c_str text)
          (zeroed (length text + 1) desk.process.stack))
      → run_command desk do_read (len ∷ inline_data text) t
        ≡ goes (record t { fs = r.after; out = compared (pos (length text)) (length text) ∷ t.out })
  unfolding run_command run_read with_data comparison
  read_step len at_fd number r =
      let same = memcmp_eq-same (length text + 1) (c_str text) r.bytes same_byte in
      ground (arith, at_fd, number, r.returned, same)
    where
      same_byte : (k : ℕ) → k < length text + 1 → c_str text k ≡ r.bytes k
      same_byte k lt = elim (Bool-cases (ltb k (length text))) [
        | inl inside ↦ sym (r.same k (ground arith))
        | inr outside ↦
            c_str-behind text k (ground arith) ∙ sym (r.rest k (ground arith) ∙ ground arith)
      ]

-- In a script, a WRITE of at least one byte from the line itself, through a descriptor inside a file whose
-- size stays below 2 ^ 32, that reports every byte, can be followed by a SEEK to where it began and
-- a READ of as many bytes with the same data: both go on, and the READ prints that all of them compare
-- equal. The host is reliable.
pub run_command-compared :
    (desk : Desk) (text position len : CString) (t t1 : Session) {fd : ℕ} {d : FileDescriptor}
    {bs : List ℕ}
    → IsReliable desk.host
    → t.fs_fd ≡ pos fd
    → IsLaidOut t.fs
    → IsOpenAt t.fs fd d
    → HasChain t.fs d.file bs
    → 0 < length text
    → d.offset < 2 ^ 16
    → d.offset ≤ (t.fs.root d.file).file_size
    → (t.fs.root d.file).file_size + length text < 2 ^ 32
    → atoi position ≡ pos d.offset
    → atoi len ≡ pos (length text)
    → run_command desk do_write (inline_data text) t ≡ goes t1
    → t1.out ≡ wrote (pos (length text)) ∷ t.out
    → (t2 t3 : Session) × (run_command desk do_seek (position ∷ []) t1 ≡ goes t2)
      × (run_command desk do_read (len ∷ inline_data text) t2 ≡ goes t3)
      × (t3.out
          ≡ compared (pos (length text)) (length text)
            ∷ successful "SEEK"
            ∷ wrote (pos (length text))
            ∷ t.out)
run_command-compared desk text position len t t1 {fd} {d} {bs} good at_fd laid o c moves narrow
      inside small at_position at_len writes all =
    let (wrote_all, at_fd1) = complete_write desk text t at_fd writes all in
    let (ok, r) =
      fs_read-fs_write desk.host good desk.process.bounce laid o c (c_str text)
        (zeroed (length text + 1) desk.process.stack) (length text) moves narrow inside small t1.fs
        wrote_all in
    let t2 : Session = record t1 {
      fs = (fs_lseek (pos fd) d.offset t1.fs).1;
      out = successful "SEEK" ∷ t1.out;
    } in
    (
      t2,
      record t2 { fs = r.after; out = compared (pos (length text)) (length text) ∷ t2.out },
      seek_step desk text t1 position d.offset at_fd1 at_position ok,
      read_step desk text t2 len at_fd1 at_len r,
      ap (λ l. compared (pos (length text)) (length text) ∷ successful "SEEK" ∷ l) all,
    )
