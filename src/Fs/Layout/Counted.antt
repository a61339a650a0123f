-- ===== src/Fs/Layout/Counted.antt =====
-- The count of open files, along sequences of calls.
use ecs150_project.Disk.State.{Host}
use ecs150_project.Fs.Calls.{finish_read, fs_read}
use ecs150_project.Fs.Calls.Read.{finish_read-cases}
use ecs150_project.Fs.Calls.Slots.{SameSlots, moved_slot, fs_write-SameSlots}
use ecs150_project.Fs.Descriptors.{fs_lseek}
use ecs150_project.Fs.Descriptors.Count.{count_open, IsCounted, count_open-le}
use ecs150_project.Fs.Descriptors.Lifecycle.{fs_open-IsCounted, fs_close-IsCounted}
use ecs150_project.Fs.Descriptors.Seek.{
  guarded_entry-IsOpenAt, IsOpenAt, IsOpenAt-cases, fs_lseek-IsOpenAt, guarded_entry-IsRefused,
}
use ecs150_project.Fs.Directory.{fs_create, fs_delete}
use ecs150_project.Fs.Directory.Create.{fs_create-CreateResult, CreateResult}
use ecs150_project.Fs.Directory.Delete.Keeps.{fs_delete-descriptors}
use ecs150_project.Fs.Layout.Steps.{
  on_create, on_delete, one_more, Call, on_close, on_lseek, on_open, on_read, Run, no_call,
  on_write,
}
use ecs150_project.Fs.Names.{CString}
use ecs150_project.Fs.State.{open_max_count, FileDescriptor, State, guarded_entry}
use ecs150_project.Fs.Transfer.{Portion, read_portions}
use ecs150_project.Prelude.{
  ℕ, zero, suc, ◌≤◌, ◌≡◌, refl, sym, ap, ◌∙◌, inl, inr, Option, none, some, arith, ltb, is_some,
  pos, ℤ, negsuc, Option-cases, failure, Bool-cases, u16, Bytes, update,
}

count_open-same :
    (n : ℕ) (f g : ℕ → Option FileDescriptor)
    → ((k : ℕ) → is_some (g k) ≡ is_some (f k))
    → count_open n g ≡ count_open n f
unfolding count_open
count_open-same zero f g same = refl
count_open-same (suc n) f g same = ground (arith, count_open-same n f g same, same n)

-- A call that opens and closes no file keeps the count.
IsCounted-same :
    {s s' : State}
    → IsCounted s
    → s'.num_open_files ≡ s.num_open_files
    → ((k : ℕ) → is_some (s'.open_files k) ≡ is_some (s.open_files k))
    → IsCounted s'
IsCounted-same {s} {s'} c num same = record {
  counted =
      num ∙ (c.counted ∙ sym (count_open-same open_max_count s.open_files s'.open_files same));
}

IsCounted-SameSlots : {s s' : State} → IsCounted s → SameSlots s s' → IsCounted s'
IsCounted-SameSlots c same = IsCounted-same c same.count same.taken

IsCounted-fs_create :
    (name : CString) {s : State} → IsCounted s → IsCounted (fs_create (some name) s).1
IsCounted-fs_create name {s} c = by_result _ (fs_create-CreateResult name s)
  where
    by_result : (r : ℤ × State) → CreateResult name s r → IsCounted r.1
    by_result (pos n, s') (z, (i, made)) = rw made.after (IsCounted-same c refl (λ k. refl))
    by_result (negsuc n, s') (z, same, e) = rw same c

IsCounted-fs_delete :
    (name : CString) {s s' : State} {r : ℤ}
    → IsCounted s
    → fs_delete (some name) s ≡ some (r, s')
    → IsCounted s'
IsCounted-fs_delete name {s} {s'} c e =
    let (files, num) = fs_delete-descriptors name s s' e in
    IsCounted-same c num (λ k. ap (λ f. is_some (f k)) files)

IsCounted-fs_lseek :
    (fd offset : ℕ) {s : State} → IsCounted s → IsCounted (fs_lseek (pos fd) offset s).1
unfolding fs_lseek guarded_entry
IsCounted-fs_lseek fd offset {s} c = elim (IsOpenAt-cases s fd) [
  | inl refused ↦
      let E : fs_lseek (pos fd) offset s ≡ (failure, s) =
        ground (arith, guarded_entry-IsRefused refused) in
      rw E c
  | inr (d, o) ↦ elim (Bool-cases (ltb (s.root d.file).file_size offset)) [
    | inl beyond ↦
        let E : fs_lseek (pos fd) offset s ≡ (failure, s) =
          fs_lseek-IsOpenAt offset o ∙ ground arith in
        rw E c
    | inr inside ↦
        let d' : FileDescriptor = record d { offset = u16 offset } in
        let E : fs_lseek (pos fd) offset s
            ≡ (pos 0, record s { open_files = update s.open_files fd (some d') }) =
          fs_lseek-IsOpenAt offset o ∙ ground arith in
        rw E (IsCounted-same c refl (λ k. moved_slot s fd k d d' o.entry))
  ]
]

IsCounted-finish_read :
    (host : Host) (bounce : Bytes) {s : State} {fd : ℕ} {d : FileDescriptor} (p : Portion Bytes)
    → IsCounted s
    → IsOpenAt s fd d
    → IsCounted (finish_read host bounce s fd d p).2
IsCounted-finish_read host bounce {s} {fd} {d} p c o =
    elim (finish_read-cases host bounce s fd d p) [
      | inl same ↦ rw same c
      | inr (offset, moved) ↦
          rw moved (
            IsCounted-same c refl (λ k. moved_slot s fd k d (record d { offset = offset }) o.entry))
    ]

IsCounted-fs_read :
    (host : Host) (bounce : Bytes) (fd : ℕ) (buf : Option Bytes) (count : ℕ) {s : State}
    → IsCounted s
    → IsCounted (fs_read host bounce (pos fd) buf count s).2
unfolding fs_read guarded_entry
IsCounted-fs_read host bounce fd buf count {s} c = elim (IsOpenAt-cases s fd) [
  | inl refused ↦
      let E : fs_read host bounce (pos fd) buf count s ≡ (failure, buf, s) =
        ground (arith, guarded_entry-IsRefused refused) in
      rw E c
  | inr (d, o) ↦ elim (Option-cases buf) [
    | inl no_buf ↦
        let E : fs_read host bounce (pos fd) buf count s ≡ (failure, none, s) =
          ground (arith, guarded_entry-IsOpenAt o, no_buf) in
        rw E c
    | inr (b, some_buf) ↦
        let p =
          read_portions host s.fat (s.root d.file).first_index s.sb.data_start_index bounce s.disk
            d.offset count b in
        let E : fs_read host bounce (pos fd) buf count s ≡ finish_read host bounce s fd d p =
          ground (arith, guarded_entry-IsOpenAt o, some_buf) in
        rw E (IsCounted-finish_read host bounce p c o)
  ]
]

IsCounted-Call :
    {host : Host} {bounce : Bytes} {s s' : State}
    → Call host bounce s s'
    → IsCounted s
    → IsCounted s'
IsCounted-Call (on_create name text) c = IsCounted-fs_create name c
IsCounted-Call (on_delete name i r s' h short e) c = IsCounted-fs_delete name c e
IsCounted-Call (on_open malloc_ok name text) c = fs_open-IsCounted malloc_ok name c
IsCounted-Call (on_close fd lt) c = fs_close-IsCounted fd c lt
IsCounted-Call (on_lseek fd offset lt) c = IsCounted-fs_lseek fd offset c
IsCounted-Call {host} {bounce} (on_write fd buf count r s' lt e) c =
    IsCounted-SameSlots c (fs_write-SameSlots host bounce fd buf count e)
IsCounted-Call {host} {bounce} (on_read fd buf count lt) c =
    IsCounted-fs_read host bounce fd buf count c

-- Along every sequence of calls on the 32 descriptors `num_open_files` stays the number of entries of
-- `open_files` that are not NULL, so it stays at most 32.
pub IsCounted-Run :
    {host : Host} {bounce : Bytes} {s s' : State}
    → Run host bounce s s'
    → IsCounted s
    → IsCounted s' × (s'.num_open_files ≤ open_max_count)
IsCounted-Run (no_call s) c = (c, rw c.counted (count_open-le open_max_count s.open_files))
IsCounted-Run (one_more s s' s'' run call) c =
    let c' = IsCounted-Call call (IsCounted-Run run c).0 in
    (c', rw c'.counted (count_open-le open_max_count s''.open_files))
