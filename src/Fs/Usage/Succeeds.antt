-- ===== src/Fs/Usage/Succeeds.antt =====
-- When `fs_create`, `fs_open` and `fs_close` succeed.
use ecs150_project.Fs.Descriptors.{fs_close, fs_open}
use ecs150_project.Fs.Descriptors.Open.{
  absent, OpenedAt, no_slot, fs_open-OpenResult, OpenResult, no_memory, too_many, OpenError,
}
use ecs150_project.Fs.Descriptors.Seek.{guarded_entry-IsOpenAt, IsOpenAt}
use ecs150_project.Fs.Directory.{fs_create}
use ecs150_project.Fs.Directory.Create.{
  exists, fs_create-CreateResult, CreatedAt, CreateResult, no_entry, CreateError,
}
use ecs150_project.Fs.Names.{strcmp_eq, CString, is_filename_invalid}
use ecs150_project.Fs.Names.Match.{is_filename_invalid-bounds}
use ecs150_project.Fs.Root.{IsAbsent, IsFirstNamed-find_matching_filename, IsFirstNamed}
use ecs150_project.Fs.State.{File, FileDescriptor, open_max_count, State, file_max_count}
use ecs150_project.Prelude.{
  ℕ, ◌+◌, ◌-◌, ◌^◌, ◌≤◌, ◌<◌, ◌≡◌, refl, sym, ap, ◌∙◌, inl, inr, true, false, none, some, arith,
  negsuc, pos, ℤ, u8, update,
}
use ecs150_project.Prelude.Lists.{length}
use mathlib.Core.Bool.{false≢true}

-- With the disk mounted, a valid name that no file has, and an empty root entry, `fs_create` returns 0.
pub fs_create-CreatedAt :
    {name : CString} {s : State} (e : ℕ)
    → s.is_disk_mounted ≡ true
    → is_filename_invalid (some name) ≡ false
    → IsAbsent name s.root
    → e < file_max_count
    → (s.root e).filename 0 ≡ 0
    → (i : ℕ) × (s' : State) × (fs_create (some name) s ≡ (pos 0, s')) × CreatedAt name s s' i
fs_create-CreatedAt {name} {s} e m valid fresh lt empty =
    by_result (fs_create (some name) s) refl (fs_create-CreateResult name s)
  where
    no_reason : CreateError name s → ⊥
    no_reason (CreateError.unmounted missing) = false≢true (sym missing ∙ m)
    no_reason (CreateError.invalid (inl no_name)) =
        omega (arith, (is_filename_invalid-bounds name valid).0, ap length no_name)
    no_reason (CreateError.invalid (inr long)) =
        omega (arith, (is_filename_invalid-bounds name valid).1, long)
    no_reason (exists i f) = false≢true (sym (fresh i f.in_range) ∙ f.named)
    no_reason (no_entry full) = full e lt empty

    by_result :
        (r : ℤ × State)
        → fs_create (some name) s ≡ r
        → CreateResult name s r
        → (i : ℕ) × (s' : State) × (fs_create (some name) s ≡ (pos 0, s')) × CreatedAt name s s' i
    by_result (pos n, s') eq (z, (i, c)) = (i, s', eq ∙ ap (λ k. (pos k, s')) z, c)
    by_result (negsuc k, s') eq (z, same, error) = absurd (no_reason error)

-- With the disk mounted, a file of the name, memory, and an entry of `open_files` that is NULL, `fs_open`
-- returns a descriptor.
pub fs_open-OpenedAt :
    {name : CString} {s : State} (f k : ℕ)
    → s.is_disk_mounted ≡ true
    → is_filename_invalid (some name) ≡ false
    → IsFirstNamed name s.root f
    → s.num_open_files ≤ open_max_count
    → k < open_max_count
    → s.open_files k ≡ none
    → (fd : ℕ) × (s' : State) × (fs_open true (some name) s ≡ (pos fd, s')) × OpenedAt name s s' fd
fs_open-OpenedAt {name} {s} f k m valid found few lt empty =
    by_result (fs_open true (some name) s) refl (fs_open-OpenResult true name s)
  where
    no_reason : OpenError true name s → ⊥
    no_reason (OpenError.unmounted missing) = false≢true (sym missing ∙ m)
    no_reason (OpenError.invalid bad) = false≢true (sym valid ∙ bad)
    no_reason (absent a) = false≢true (sym (a f found.in_range) ∙ found.named)
    no_reason (too_many many) = omega arith
    no_reason (no_memory missing) = false≢true (sym missing)
    no_reason (no_slot full) = ground (arith, full k lt)

    by_result :
        (r : ℤ × State)
        → fs_open true (some name) s ≡ r
        → OpenResult true name s r
        → (fd : ℕ) × (s' : State) × (fs_open true (some name) s ≡ (pos fd, s'))
          × OpenedAt name s s' fd
    by_result (pos fd, s') eq o = (fd, s', eq, o)
    by_result (negsuc j, s') eq (z, same, error) = absurd (no_reason error)

-- The file that a name stands for.
pub IsFirstNamed-unique :
    {name : CString} {root : ℕ → File} {f g : ℕ}
    → IsFirstNamed name root f
    → IsFirstNamed name root g
    → f ≡ g
IsFirstNamed-unique {name} {root} {f} {g} a b = ground (
  arith,
  IsFirstNamed-find_matching_filename name root a,
  IsFirstNamed-find_matching_filename name root b,
)

-- The name is found by the names alone.
pub IsFirstNamed-same :
    {name : CString} {root root' : ℕ → File} {f : ℕ}
    → ((g : ℕ) → (root' g).filename ≡ (root g).filename)
    → IsFirstNamed name root f
    → IsFirstNamed name root' f
IsFirstNamed-same {name} {f} same found = record {
  in_range = found.in_range;
  named = ap (λ b. strcmp_eq name b 0) (same f) ∙ found.named;
  first = λ k lt. ap (λ b. strcmp_eq name b 0) (same k) ∙ found.first k lt;
}

-- A new descriptor is at offset 0.
pub OpenedAt-IsOpenAt :
    {name : CString} {s s' : State} {fd f : ℕ}
    → IsFirstNamed name s.root f
    → OpenedAt name s s' fd
    → IsOpenAt s' fd (record { file = f; offset = 0 })
OpenedAt-IsOpenAt {name} {s} {s'} {fd} {f} found o =
    rw (o.after, IsFirstNamed-unique found o.found)
      (record { mounted = o.mounted; in_range = omega (arith, o.in_range); entry = ground arith })

-- The state behind the closing of a descriptor.
abbrev pub closed_state : State → ℕ → State
closed_state s fd = record s {
  open_files = update s.open_files fd none;
  num_open_files = u8 (s.num_open_files + 2 ^ 8 - 1);
}

pub fs_close-IsOpenAt :
    {s : State} {fd : ℕ} {d : FileDescriptor}
    → IsOpenAt s fd d
    → fs_close (pos fd) s ≡ (pos 0, closed_state s fd)
unfolding fs_close
fs_close-IsOpenAt o = ground (arith, guarded_entry-IsOpenAt o)
