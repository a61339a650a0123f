-- ===== src/Fs/Calls/Slots.antt =====
-- `fs_write` opens, closes and renames no file.
use ecs150_project.Disk.State.{Host, Disk}
use ecs150_project.Fs.Calls.{write_open, fs_write, finish_write, allocate_blocks_in_fat}
use ecs150_project.Fs.Descriptors.Seek.{
  IsOpenAt-cases, guarded_entry-IsOpenAt, guarded_entry-IsRefused,
}
use ecs150_project.Fs.Fat.{allocate_blocks}
use ecs150_project.Fs.State.{guarded_entry, File, FileDescriptor, State, Table}
use ecs150_project.Fs.Transfer.{find_num_target_blocks, Portion, write_portions, goes_on, returns}
use ecs150_project.Prelude.{
  ℕ, ◌+◌, ◌≡◌, refl, sym, ap, ◌∙◌, inl, inr, Bool, true, Option, none, some, arith, Bool-cases,
  ==→eq, ◌==◌, is_some, ℤ, negsuc, Option-cases, pos, u32, Bytes, update,
}
use mathlib.Core.Path.{subst}

-- the entries in use and the names of the files are the same
pub record SameSlots (s s' : State) : Type 0 where
  pub count : s'.num_open_files ≡ s.num_open_files
  pub taken : (k : ℕ) → is_some (s'.open_files k) ≡ is_some (s.open_files k)
  pub names : (f : ℕ) → (s'.root f).filename ≡ (s.root f).filename

pub SameSlots-refl : (s : State) → SameSlots s s
SameSlots-refl s = record { count = refl; taken = λ k. refl; names = λ f. refl }

-- A descriptor that moves stays where it is in the array.
pub moved_slot :
    (s : State) (fd k : ℕ) (d d' : FileDescriptor)
    → s.open_files fd ≡ some d
    → is_some (update s.open_files fd (some d') k) ≡ is_some (s.open_files k)
moved_slot s fd k d d' entry = ground (arith, entry, same_place k)
  where
    same_place : (k : ℕ) → (k == fd) ≡ true → s.open_files k ≡ s.open_files fd
    same_place k e = ap s.open_files (==→eq k fd e)

SameSlots-finish_write :
    (host : Host) (bounce : Bytes) {s : State} (fd : ℕ) (d : FileDescriptor) (fat : Table)
    (root : ℕ → File) (p : Portion Disk)
    → ((f : ℕ) → (root f).filename ≡ (s.root f).filename)
    → s.open_files fd ≡ some d
    → SameSlots s (finish_write host bounce (record s { fat = fat; root = root }) fd d p).1
unfolding finish_write
SameSlots-finish_write host bounce fd d fat root (returns n e) same_names entry = record {
  count = refl;
  taken = λ k. refl;
  names = same_names;
}
SameSlots-finish_write host bounce {s} fd d fat root (goes_on e n) same_names entry = record {
  count = refl;
  taken = λ k. moved_slot s fd k d _ entry;
  names = finish_names;
}
  where
    here : (f : ℕ) → (f == d.file) ≡ true → (root f).filename ≡ (root d.file).filename
    here f q = ap (λ g. (root g).filename) (==→eq f d.file q)

    finish_names :
        (f : ℕ)
        → (update root d.file
            (record (root d.file) { file_size = u32 ((root d.file).file_size + n) })
            f).filename
          ≡ (s.root f).filename
    finish_names f = ground (arith, same_names f, here f)

SameSlots-write_open :
    (host : Host) (bounce : Bytes) {s s' : State} (fd : ℕ) (d : FileDescriptor) (buf : Bytes)
    (count : ℕ) {r : ℤ}
    → s.open_files fd ≡ some d
    → write_open host bounce s fd d buf count ≡ some (r, s')
    → SameSlots s s'
unfolding write_open allocate_blocks_in_fat
SameSlots-write_open host bounce {s} {s'} fd d buf count entry e =
    elim (Option-cases (
      allocate_blocks s.sb.num_data_blocks s.sb.num_data_blocks
        (find_num_target_blocks d.offset count) s.fat (s.root d.file).first_index)) [
          | inl endless ↦ absurd (ground arith)
          | inr (a, some_a) ↦
              let root' =
                update s.root d.file (record (s.root d.file) { first_index = a.first_index }) in
              let p =
                write_portions host a.fat (root' d.file).first_index s.sb.data_start_index bounce
                  buf d.offset count s.disk in
              let same : (finish_write host bounce (record s { fat = a.fat; root = root' }) fd d
                    p).1
                  ≡ s' =
                ground arith in
              subst (SameSlots s) same (
                SameSlots-finish_write host bounce fd d a.fat root' p (λ f. ground (arith, here f))
                  entry)
        ]
  where
    here : (f : ℕ) → (f == d.file) ≡ true → (s.root f).filename ≡ (s.root d.file).filename
    here f q = ap (λ g. (s.root g).filename) (==→eq f d.file q)

-- Whether it succeeds or not, `fs_write` leaves the same entries of `open_files` in use
-- and the files their names.
pub fs_write-SameSlots :
    (host : Host) (bounce : Bytes) (fd : ℕ) (buf : Option Bytes) (count : ℕ) {s s' : State} {r : ℤ}
    → fs_write host bounce (pos fd) buf count s ≡ some (r, s')
    → SameSlots s s'
unfolding fs_write guarded_entry
fs_write-SameSlots host bounce fd buf count {s} {s'} {r} e = elim (IsOpenAt-cases s fd) [
  | inl refused ↦
      let same : s ≡ s' = ground (arith, e, guarded_entry-IsRefused refused) in
      subst (SameSlots s) same (SameSlots-refl s)
  | inr (d, o) ↦ elim (Option-cases buf) [
    | inl no_buf ↦
        let same : s ≡ s' = ground (arith, e, guarded_entry-IsOpenAt o, no_buf) in
        subst (SameSlots s) same (SameSlots-refl s)
    | inr (b, some_buf) ↦ elim (Bool-cases (count == 0)) [
      | inl none_moves ↦
          let same : s ≡ s' = ground (arith, e, guarded_entry-IsOpenAt o) in
          subst (SameSlots s) same (SameSlots-refl s)
      | inr moves ↦
          SameSlots-write_open host bounce fd d b count {r = r} o.entry
            (ground (arith, e, guarded_entry-IsOpenAt o, some_buf))
    ]
  ]
]

-- No branch of `fs_write` changes whether a disk is mounted.
module _ (host : Host) (bounce : Bytes) where
  finish_write-mounted :
      (s : State) (fd : ℕ) (d : FileDescriptor) (p : Portion Disk)
      → (finish_write host bounce s fd d p).1.is_disk_mounted ≡ s.is_disk_mounted
  unfolding finish_write
  finish_write-mounted s fd d (returns r e) = refl
  finish_write-mounted s fd d (goes_on e n) = refl

  allocate_blocks_in_fat-mounted :
      (file target : ℕ) (s : State) {r : Bool × State}
      → allocate_blocks_in_fat file target s ≡ some r
      → r.1.is_disk_mounted ≡ s.is_disk_mounted
  unfolding allocate_blocks_in_fat
  allocate_blocks_in_fat-mounted file target s e = ground arith

  write_open-mounted :
      (s : State) (fd : ℕ) (d : FileDescriptor) (buf : Bytes) (count : ℕ) {r : ℤ × State}
      → write_open host bounce s fd d buf count ≡ some r
      → r.1.is_disk_mounted ≡ s.is_disk_mounted
  unfolding write_open
  write_open-mounted s fd d buf count {r} e =
      elim (Option-cases
        (allocate_blocks_in_fat d.file (find_num_target_blocks d.offset count) s)) [
          | inl endless ↦ absurd (ground arith)
          | inr (a, eq) ↦
              let p =
                write_portions host a.1.fat (a.1.root d.file).first_index a.1.sb.data_start_index
                  bounce buf d.offset count a.1.disk in
              let same : finish_write host bounce a.1 fd d p ≡ r = ground (arith, e, eq) in
              ap (λ q. q.1.is_disk_mounted) (sym same)
              ∙ (finish_write-mounted a.1 fd d p
                  ∙ allocate_blocks_in_fat-mounted d.file (find_num_target_blocks d.offset count) s
                      eq)
        ]

  pub fs_write-mounted :
      (fd : ℤ) (buf : Option Bytes) (count : ℕ) (s : State) {r : ℤ × State}
      → fs_write host bounce fd buf count s ≡ some r
      → r.1.is_disk_mounted ≡ s.is_disk_mounted
  unfolding fs_write guarded_entry
  fs_write-mounted (negsuc n) buf count s e = ground arith
  fs_write-mounted (pos fd) none count s e = elim (Option-cases (s.open_files fd)) [
    | inl closed_fd ↦ ground arith
    | inr (d, entry) ↦ ground arith
  ]
  fs_write-mounted (pos fd) (some buf) count s {r} e = elim (Option-cases (s.open_files fd)) [
    | inl closed_fd ↦ ground arith
    | inr (d, entry) ↦ elim (Option-cases (write_open host bounce s fd d buf count)) [
      | inl endless ↦ ground arith
      | inr (q, eq) ↦ ground (arith, write_open-mounted s fd d buf count eq)
    ]
  ]
