-- ===== src/Fs/Descriptors/Open.antt =====
-- What `fs_open`, `fs_close` and `fs_lseek` do to the descriptor table.
use ecs150_project.Fs.Descriptors.{fd_result, free_slot, fs_open, add_file_to_fd_array}
use ecs150_project.Fs.Names.{is_filename_invalid, CString}
use ecs150_project.Fs.Root.{
  find_matching_filename-some, find_matching_filename, IsAbsent, IsFirstNamed,
  find_matching_filename-none,
}
use ecs150_project.Fs.State.{FileDescriptor, open_max_count, State}
use ecs150_project.Prelude.{
  ℕ, ◌+◌, ◌<◌, ◌≡◌, refl, inl, inr, Bool, true, false, not, Option, none, some, arith, ltb, failure,
  is_some, Option-cases, ltb→lt, ℤ, pos, Bool-cases, negsuc, update, u8,
}
use ecs150_project.Prelude.Search.{find_first-none, find_first-Found}

pub free_slot-some :
    (open_files : ℕ → Option FileDescriptor) {i : ℕ}
    → free_slot open_files ≡ some i
    → (i < open_max_count) × (open_files i ≡ none)
unfolding free_slot
free_slot-some open_files {i} h =
    let f = find_first-Found (λ i. not (is_some (open_files i))) 0 open_max_count h in
    (omega (arith, f.upper), ground (arith, f.passes))

pub free_slot-none :
    (open_files : ℕ → Option FileDescriptor) (k : ℕ)
    → free_slot open_files ≡ none
    → k < open_max_count
    → is_some (open_files k) ≡ true
unfolding free_slot
free_slot-none open_files k h lt = ground (
  arith,
  find_first-none (λ i. not (is_some (open_files i))) 0 open_max_count h k (omega arith)
      (omega arith),
)

-- The descriptor that `fs_open` puts into a free slot `fd`.
pub record OpenedAt (name : CString) (s s' : State) (fd : ℕ) : Type 0 where
  pub mounted : s.is_disk_mounted ≡ true
  pub valid : is_filename_invalid (some name) ≡ false
  pub file : ℕ
  pub found : IsFirstNamed name s.root file
  pub in_range : fd < open_max_count
  pub was_free : s.open_files fd ≡ none
  pub after : s' ≡ record s {
    open_files = update s.open_files fd (some (record { file = file; offset = 0 }));
    num_open_files = u8 (s.num_open_files + 1);
  }

-- Why `fs_open` returns -1.
pub data OpenError (malloc_ok : Bool) (name : CString) (s : State) : Type 0 where
  unmounted : s.is_disk_mounted ≡ false → OpenError malloc_ok name s
  invalid : is_filename_invalid (some name) ≡ true → OpenError malloc_ok name s
  absent : IsAbsent name s.root → OpenError malloc_ok name s
  too_many : open_max_count < s.num_open_files → OpenError malloc_ok name s
  no_memory : malloc_ok ≡ false → OpenError malloc_ok name s
  no_slot :
      ((k : ℕ) → k < open_max_count → is_some (s.open_files k) ≡ true) → OpenError malloc_ok name s

-- What `fs_open` returns: a descriptor, or -1 for a reason and the state as it was.
abbrev pub OpenResult : Bool → CString → State → ℤ × State → Type 0
OpenResult malloc_ok name s (pos fd, s') = OpenedAt name s s' fd
OpenResult malloc_ok name s (negsuc k, s') = (k ≡ 0) × (s' ≡ s) × OpenError malloc_ok name s

module _ (malloc_ok : Bool) (name : CString) (s : State) where
  add_file-OpenResult :
      (file : ℕ)
      → s.is_disk_mounted ≡ true
      → is_filename_invalid (some name) ≡ false
      → IsFirstNamed name s.root file
      → OpenResult malloc_ok name s (fd_result (add_file_to_fd_array malloc_ok file s))
  unfolding add_file_to_fd_array fd_result
  add_file-OpenResult file m v found = elim (Bool-cases (ltb open_max_count s.num_open_files)) [
    | inl many ↦
        let E : add_file_to_fd_array malloc_ok file s ≡ (none, s) = ground arith in
        rw E (refl, refl, too_many (ltb→lt _ _ many))
    | inr few ↦ elim (Bool-cases malloc_ok) [
      | inr no_mem ↦
          let E : add_file_to_fd_array malloc_ok file s ≡ (none, s) = ground arith in
          rw E (refl, refl, no_memory no_mem)
      | inl mem ↦ elim (Option-cases (free_slot s.open_files)) [
        | inl full ↦
            let E : add_file_to_fd_array malloc_ok file s ≡ (none, s) = ground arith in
            rw E (refl, refl, no_slot (λ k lt. free_slot-none s.open_files k full lt))
        | inr (fd, slot) ↦
            let (lt, free) = free_slot-some s.open_files slot in
            let s' : State = record s {
              open_files = update s.open_files fd (some (record { file = file; offset = 0 }));
              num_open_files = u8 (s.num_open_files + 1);
            } in
            let E : add_file_to_fd_array malloc_ok file s ≡ (some fd, s') = ground arith in
            rw E (record {
              mounted = m;
              valid = v;
              file = file;
              found = found;
              in_range = lt;
              was_free = free;
              after = refl;
            })
      ]
    ]
  ]

  -- `fs_open` returns the index of an entry of `open_files` that was NULL, now a descriptor at offset 0
  -- for the first root entry with the name, counts it and changes nothing else; or it returns -1
  -- for one of the reasons listed and changes nothing.
  pub fs_open-OpenResult : OpenResult malloc_ok name s (fs_open malloc_ok (some name) s)
  unfolding fs_open
  fs_open-OpenResult = elim (Bool-cases s.is_disk_mounted) [
    | inr m ↦
        let E : fs_open malloc_ok (some name) s ≡ (failure, s) = ground arith in
        rw E (refl, refl, unmounted m)
    | inl m ↦ elim (Bool-cases (is_filename_invalid (some name))) [
      | inl bad ↦
          let E : fs_open malloc_ok (some name) s ≡ (failure, s) = ground arith in
          rw E (refl, refl, invalid bad)
      | inr good ↦ elim (Option-cases (find_matching_filename name s.root)) [
        | inl e ↦
            let E : fs_open malloc_ok (some name) s ≡ (failure, s) = ground arith in
            rw E (refl, refl, absent (find_matching_filename-none name s.root e))
        | inr (file, e) ↦
            let E : fs_open malloc_ok (some name) s
                ≡ fd_result (add_file_to_fd_array malloc_ok file s) =
              ground arith in
            rw E (add_file-OpenResult file m good (find_matching_filename-some name s.root e))
      ]
    ]
  ]
