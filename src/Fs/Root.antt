-- ===== src/Fs/Root.antt =====
-- The searches of libfs/fs.c through the root directory.
use ecs150_project.Fs.Names.{strcmp_eq, CString}
use ecs150_project.Fs.State.{file_max_count, File}
use ecs150_project.Prelude.{ℕ, ◌<◌, ◌≡◌, ◌≢◌, true, false, Option, none, some, arith, ==→eq, ◌==◌}
use ecs150_project.Prelude.Search.{
  Found-find_first, find_first-Found, find_first, find_first-none, none-find_first,
}

-- `none` is the -1 of the source.
unfoldable pub find_empty_root_entry : (ℕ → File) → Option ℕ
find_empty_root_entry root = find_first (λ i. (root i).filename 0 == 0) 0 file_max_count

unfoldable pub find_matching_filename : CString → (ℕ → File) → Option ℕ
find_matching_filename filename root =
    find_first (λ i. strcmp_eq filename (root i).filename 0) 0 file_max_count

-- `root[i]` has the name, and no entry before it.
pub record IsFirstNamed (filename : CString) (root : ℕ → File) (i : ℕ) : Type 0 where
  pub in_range : i < file_max_count
  pub named : strcmp_eq filename (root i).filename 0 ≡ true
  pub first : (k : ℕ) → k < i → strcmp_eq filename (root k).filename 0 ≡ false

abbrev pub IsAbsent : CString → (ℕ → File) → Type 0
IsAbsent filename root =
    (k : ℕ) → k < file_max_count → strcmp_eq filename (root k).filename 0 ≡ false

pub find_matching_filename-some :
    (filename : CString) (root : ℕ → File) {i : ℕ}
    → find_matching_filename filename root ≡ some i
    → IsFirstNamed filename root i
unfolding find_matching_filename
find_matching_filename-some filename root {i} h =
    let f = find_first-Found (λ i. strcmp_eq filename (root i).filename 0) 0 file_max_count h in
    record {
      in_range = omega (arith, f.upper);
      named = f.passes;
      first = λ k lt. f.first k (omega arith) lt;
    }

pub find_matching_filename-none :
    (filename : CString) (root : ℕ → File)
    → find_matching_filename filename root ≡ none
    → IsAbsent filename root
unfolding find_matching_filename
find_matching_filename-none filename root h k lt =
    find_first-none (λ i. strcmp_eq filename (root i).filename 0) 0 file_max_count h k (omega arith)
      (omega arith)

pub find_empty_root_entry-some :
    (root : ℕ → File) {i : ℕ}
    → find_empty_root_entry root ≡ some i
    → (i < file_max_count) × ((root i).filename 0 ≡ 0)
unfolding find_empty_root_entry
find_empty_root_entry-some root {i} h =
    let f = find_first-Found (λ i. (root i).filename 0 == 0) 0 file_max_count h in
    (omega (arith, f.upper), ==→eq _ _ f.passes)

pub find_empty_root_entry-none :
    (root : ℕ → File) (k : ℕ)
    → find_empty_root_entry root ≡ none
    → k < file_max_count
    → (root k).filename 0 ≢ 0
unfolding find_empty_root_entry
find_empty_root_entry-none root k h lt e = ground (
  arith,
  find_first-none (λ i. (root i).filename 0 == 0) 0 file_max_count h k (omega arith) (omega arith),
)

pub IsFirstNamed-find_matching_filename :
    (filename : CString) (root : ℕ → File) {i : ℕ}
    → IsFirstNamed filename root i
    → find_matching_filename filename root ≡ some i
unfolding find_matching_filename
IsFirstNamed-find_matching_filename filename root {i} f =
    Found-find_first (λ i. strcmp_eq filename (root i).filename 0) 0 file_max_count i (omega arith)
      (omega (arith, f.in_range)) f.named f.first

pub IsAbsent-find_matching_filename :
    (filename : CString) (root : ℕ → File)
    → IsAbsent filename root
    → find_matching_filename filename root ≡ none
unfolding find_matching_filename
IsAbsent-find_matching_filename filename root a =
    none-find_first (λ i. strcmp_eq filename (root i).filename 0) 0 file_max_count
      (λ k lo hi. a k (omega arith))
