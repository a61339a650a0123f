-- ===== src/Fs/Descriptors/Seek.antt =====
-- `fs_lseek`: which offset a descriptor has afterwards.
use ecs150_project.Fs.Descriptors.{fs_lseek, fs_stat}
use ecs150_project.Fs.State.{file_max_count, FileDescriptor, State, guarded_entry}
use ecs150_project.Prelude.{
  ℕ, ◌^◌, ◌≤◌, ◌<◌, ◌≡◌, ◌≢◌, ◌⊎◌, inl, inr, true, false, none, some, arith, failure, if◌then◌else◌,
  pos, Bool-cases, Option-cases, ltb, update, u16,
}

-- the descriptor that `fs_lseek` moves, and the guards that it has passed
pub record IsOpenAt (s : State) (fd : ℕ) (d : FileDescriptor) : Type 0 where
  pub mounted : s.is_disk_mounted ≡ true
  pub in_range : fd < file_max_count
  pub entry : s.open_files fd ≡ some d

-- Which of the shared guards refuses a descriptor.
pub data IsRefused (s : State) (fd : ℕ) : Type 0 where
  unmounted : s.is_disk_mounted ≡ false → IsRefused s fd
  too_large : file_max_count ≤ fd → IsRefused s fd
  closed : s.open_files fd ≡ none → IsRefused s fd

pub IsOpenAt-cases :
    (s : State) (fd : ℕ) → IsRefused s fd ⊎ ((d : FileDescriptor) × IsOpenAt s fd d)
IsOpenAt-cases s fd = elim (Bool-cases s.is_disk_mounted) [
  | inr m ↦ inl (unmounted m)
  | inl m ↦ elim (Bool-cases (ltb fd file_max_count)) [
    | inr large ↦ inl (too_large (ground arith))
    | inl lt ↦ elim (Option-cases (s.open_files fd)) [
      | inl e ↦ inl (closed e)
      | inr (d, e) ↦ inr (d, record { mounted = m; in_range = ground arith; entry = e })
    ]
  ]
]

-- Behind the guards: no operation gets an entry that they refuse.
pub guarded_entry-IsRefused :
    {s : State} {fd : ℕ} → IsRefused s fd → guarded_entry s (pos fd) ≡ none
unfolding guarded_entry
guarded_entry-IsRefused (unmounted m) = ground arith
guarded_entry-IsRefused (too_large h) = ground arith
guarded_entry-IsRefused (closed e) = ground arith

pub guarded_entry-IsOpenAt :
    {s : State} {fd : ℕ} {d : FileDescriptor}
    → IsOpenAt s fd d
    → guarded_entry s (pos fd) ≡ some (fd, d)
unfolding guarded_entry
guarded_entry-IsOpenAt {s} {fd} {d} o = ground (arith, o.mounted, o.in_range, o.entry)

-- On an open descriptor `fs_lseek` refuses an offset beyond the file size and changes nothing. Any other
-- it stores in 16 bits, and returns 0; the other descriptors stay.
pub fs_lseek-IsOpenAt :
    {s : State} {fd : ℕ} {d : FileDescriptor} (offset : ℕ)
    → IsOpenAt s fd d
    → fs_lseek (pos fd) offset s ≡ (
        if ltb (s.root d.file).file_size offset then (failure, s) else (
          pos 0,
          record s {
            open_files = update s.open_files fd (some (record d { offset = u16 offset }));
          },
        ))
unfolding fs_lseek
fs_lseek-IsOpenAt {s} {fd} {d} offset o = ground arith

-- From 65536 on, an offset that `fs_lseek` accepts is not the one that the descriptor gets.
pub fs_lseek-truncates :
    {s : State} {fd : ℕ} {d : FileDescriptor} (offset : ℕ)
    → IsOpenAt s fd d
    → 2 ^ 16 ≤ offset
    → offset ≤ (s.root d.file).file_size
    → ((fs_lseek (pos fd) offset s).0 ≡ pos 0)
      × ((d' : FileDescriptor)
          → (fs_lseek (pos fd) offset s).1.open_files fd ≡ some d'
          → d'.offset ≢ offset)
unfolding fs_lseek
fs_lseek-truncates {s} {fd} {d} offset o big le = (ground arith, λ d' e q. ground arith)

-- Seeking to the end by `fs_lseek(fd, fs_stat(fd))` succeeds for a file below 64 KiB and puts the
-- descriptor at the size of the file.
fs_lseek-fs_stat :
    {s : State} {fd : ℕ} {d : FileDescriptor} (size : ℕ)
    → IsOpenAt s fd d
    → (s.root d.file).file_size < 2 ^ 16
    → fs_stat (pos fd) s ≡ pos size
    → fs_lseek (pos fd) size s ≡ (
      pos 0,
      record s {
        open_files =
            update s.open_files fd (some (record d { offset = (s.root d.file).file_size }));
      },
    )
unfolding fs_lseek fs_stat
fs_lseek-fs_stat {s} {fd} {d} size o small e = ground arith
