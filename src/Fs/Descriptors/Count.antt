-- ===== src/Fs/Descriptors/Count.antt =====
-- `num_open_files` counts the entries of `open_files` that are not NULL.
use ecs150_project.Fs.State.{open_max_count, State, FileDescriptor}
use ecs150_project.Prelude.{
  ℕ, zero, suc, ◌+◌, ◌≤◌, ◌<◌, ◌≡◌, refl, ap, inl, inr, true, Option, none, arith, Bool-cases,
  ==→eq, if◌then◌else◌, ◌==◌, is_some, update,
}

-- how many of the first `n` entries are not NULL
unfoldable pub count_open : ℕ → (ℕ → Option FileDescriptor) → ℕ
count_open zero open_files = 0
count_open (suc n) open_files = count_open n open_files + (if is_some (open_files n) then 1 else 0)

pub count_open-le : (n : ℕ) (open_files : ℕ → Option FileDescriptor) → count_open n open_files ≤ n
unfolding count_open
count_open-le zero open_files = omega arith
count_open-le (suc n) open_files = ground (arith, count_open-le n open_files)

-- An update beyond the entries counted changes nothing.
count_open-update_above :
    (n i : ℕ) (open_files : ℕ → Option FileDescriptor) (d : Option FileDescriptor)
    → n ≤ i
    → count_open n (update open_files i d) ≡ count_open n open_files
unfolding count_open
count_open-update_above zero i open_files d h = refl
count_open-update_above (suc n) i open_files d h =
    ground (arith, count_open-update_above n i open_files d)

-- An update of one entry changes the count by that entry.
pub count_open-update :
    (n i : ℕ) (open_files : ℕ → Option FileDescriptor) (d : Option FileDescriptor)
    → i < n
    → count_open n (update open_files i d) + (if is_some (open_files i) then 1 else 0)
      ≡ count_open n open_files + (if is_some d then 1 else 0)
unfolding count_open
count_open-update zero i open_files d h = absurd (omega arith)
count_open-update (suc n) i open_files d h = elim (Bool-cases (i == n)) [
  | inl e ↦
      let eq = ==→eq i n e in
      ground (arith, eq, count_open-update_above n i open_files d (omega arith), ap open_files eq)
  | inr ne ↦ ground (arith, count_open-update n i open_files d)
]

-- An array of NULL pointers.
pub count_open-empty :
    (n : ℕ) (open_files : ℕ → Option FileDescriptor)
    → ((k : ℕ) → k < n → open_files k ≡ none)
    → count_open n open_files ≡ 0
unfolding count_open
count_open-empty zero open_files empty = refl
count_open-empty (suc n) open_files empty =
    ground
      (arith, empty n (omega arith), count_open-empty n open_files (λ k lt. empty k (omega arith)))

-- A full array has no NULL entry.
pub count_open-full :
    (n : ℕ) (open_files : ℕ → Option FileDescriptor)
    → count_open n open_files ≡ n
    → (k : ℕ) → k < n
    → is_some (open_files k) ≡ true
unfolding count_open
count_open-full zero open_files h k lt = absurd (omega arith)
count_open-full (suc n) open_files h k lt = elim (Bool-cases (k == n)) [
  | inl e ↦ ground (arith, ap open_files (==→eq k n e), count_open-le n open_files)
  | inr ne ↦
      count_open-full n open_files (ground (arith, count_open-le n open_files)) k (ground arith)
]

-- The descriptor table of a state that the file system can be in.
pub record IsCounted (s : State) : Type 0 where
  pub counted : s.num_open_files ≡ count_open open_max_count s.open_files
