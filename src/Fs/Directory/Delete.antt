-- ===== src/Fs/Directory/Delete.antt =====
-- `fs_delete`: which files it refuses, and what it does to the FAT for the others.
pub mod Keeps
use ecs150_project.Fs.Directory.{
  delete_entry, fs_delete, release_blocks, empty_file, is_file_open, is_open_as,
}
use ecs150_project.Fs.Directory.Release.{
  release_blocks-short, release_blocks-leaks, release_blocks-diverges,
}
use ecs150_project.Fs.Fat.Blocks.{has-zero}
use ecs150_project.Fs.Fat.Chain.{IsChain}
use ecs150_project.Fs.Fat.Links.{Links-ne_zero}
use ecs150_project.Fs.Names.{CString, strcmp_eq, is_filename_invalid, IsCString}
use ecs150_project.Fs.Names.Match.{is_filename_invalid-bounds, streq-strcmp_eq}
use ecs150_project.Fs.Root.{IsFirstNamed, IsFirstNamed-find_matching_filename}
use ecs150_project.Fs.State.{open_max_count, State, FileDescriptor, eoc, Table}
use ecs150_project.Prelude.{
  ℕ, ◌+◌, ◌≤◌, ◌<◌, ◌≡◌, refl, sym, ap, ◌∙◌, ◌≢◌, inl, inr, true, false, none, some, List, ◌∷◌,
  arith, Bool-cases, failure, Option-cases, if◌then◌else◌, pos, update,
}
use ecs150_project.Prelude.Lists.{has, length}
use ecs150_project.Prelude.Search.{none-find_first, find_first, find_first-none}
use mathlib.Core.Bool.{false≢true}

-- No descriptor is open on a file of this name.
abbrev pub IsClosed : CString → State → Type 0
IsClosed name s =
    (k : ℕ) (d : FileDescriptor)
    → k < open_max_count
    → s.open_files k ≡ some d
    → strcmp_eq name (s.root d.file).filename 0 ≡ false

-- A file that `fs_delete` goes on to delete: entry `i` of the root directory.
pub record IsDeletable (name : CString) (s : State) (i : ℕ) : Type 0 where
  pub mounted : s.is_disk_mounted ≡ true
  pub valid : is_filename_invalid (some name) ≡ false
  pub text : IsCString name
  pub found : IsFirstNamed name s.root i
  pub closed : IsClosed name s

module _ (name : CString) (s : State) (text : IsCString name)
    (valid : is_filename_invalid (some name) ≡ false) where
  is_open_as-strcmp_eq :
      (k : ℕ) (d : FileDescriptor)
      → s.open_files k ≡ some d
      → is_open_as name s k ≡ strcmp_eq name (s.root d.file).filename 0
  unfolding is_open_as
  is_open_as-strcmp_eq k d e = ground (
    arith,
    e,
    streq-strcmp_eq (s.root d.file).filename name text (is_filename_invalid-bounds name valid).1,
  )

  is_open_as-none : (k : ℕ) → s.open_files k ≡ none → is_open_as name s k ≡ false
  unfolding is_open_as
  is_open_as-none k e = ground arith

  is_file_open-IsClosed : IsClosed name s → is_file_open name s ≡ false
  unfolding is_file_open
  is_file_open-IsClosed closed = rw (none-find_first (is_open_as name s) 0 open_max_count not_open)
    where
      not_open : (k : ℕ) → 0 ≤ k → k < 0 + open_max_count → is_open_as name s k ≡ false
      not_open k lo hi = elim (Option-cases (s.open_files k)) [
        | inl e ↦ is_open_as-none k e
        | inr (d, e) ↦ is_open_as-strcmp_eq k d e ∙ closed k d (omega arith) e
      ]

  is_file_open-true :
      (k : ℕ) (d : FileDescriptor)
      → k < open_max_count
      → s.open_files k ≡ some d
      → strcmp_eq name (s.root d.file).filename 0 ≡ true
      → is_file_open name s ≡ true
  unfolding is_file_open
  is_file_open-true k d lt e named =
      elim (Option-cases (find_first (is_open_as name s) 0 open_max_count)) [
        | inr (j, found) ↦ rw found
        | inl missing ↦ absurd (
            false≢true (
              sym (
                find_first-none (is_open_as name s) 0 open_max_count missing k (omega arith)
                  (omega arith))
              ∙ (is_open_as-strcmp_eq k d e ∙ named)))
      ]

-- `fs_delete` refuses a file that some descriptor has open: it returns -1 and changes nothing.
pub fs_delete-open :
    (name : CString) (s : State) (i k : ℕ) (d : FileDescriptor)
    → IsCString name
    → IsFirstNamed name s.root i
    → k < open_max_count
    → s.open_files k ≡ some d
    → d.file ≡ i
    → fs_delete (some name) s ≡ some (failure, s)
unfolding fs_delete
fs_delete-open name s i k d text found lt e at =
    let named : strcmp_eq name (s.root d.file).filename 0 ≡ true = rw at found.named in
    elim (Bool-cases (is_filename_invalid (some name))) [
      | inl bad ↦ ground arith
      | inr valid ↦ ground (arith, is_file_open-true name s text valid k d lt e named)
    ]

fs_delete-delete_entry :
    {name : CString} {s : State} {i : ℕ}
    → IsDeletable name s i
    → fs_delete (some name) s ≡ delete_entry i s
unfolding fs_delete
fs_delete-delete_entry {name} {s} {i} h = ground (
  arith,
  h.mounted,
  h.valid,
  IsFirstNamed-find_matching_filename name s.root h.found,
  is_file_open-IsClosed name s h.text h.valid h.closed,
)

-- the state that `fs_delete` leaves, with the FAT that it has made
abbrev deleted : ℕ → Table → State → State
deleted i fat' s = record s { fat = fat'; root = update s.root i (empty_file (s.root i)) }

delete_entry-some :
    (i : ℕ) (s : State) {fat' : Table}
    → release_blocks s.fat (s.root i).first_index ≡ some fat'
    → delete_entry i s ≡ some (pos 0, deleted i fat' s)
unfolding delete_entry
delete_entry-some i s e = ground arith

delete_entry-none :
    (i : ℕ) (s : State)
    → release_blocks s.fat (s.root i).first_index ≡ none
    → delete_entry i s ≡ none
unfolding delete_entry
delete_entry-none i s e = ground arith

module _ {name : CString} {s : State} {i n : ℕ} (h : IsDeletable name s i) where
  -- `fs_delete` of a file with one block or none returns 0. It makes exactly the file's block free, and
  -- clears its root entry: the name begins with NUL, the size is 0, and the first index is FAT_EOC. It
  -- changes nothing else.
  pub fs_delete-frees :
      {bs : List ℕ}
      → IsChain n s.fat (s.root i).first_index bs
      → length bs ≤ 1
      → (fat' : Table) × (fs_delete (some name) s
          ≡ some (
            pos 0,
            record s {
              fat = fat';
              root = update s.root i (record (s.root i) {
                filename = update (s.root i).filename 0 0;
                file_size = 0;
                first_index = 65535;
              });
            },
          ))
        × ((j : ℕ) → fat' j ≡ (if has j bs then 0 else s.fat j))
  fs_delete-frees {bs} c short =
      let (fat', e, at) = release_blocks-short n s.fat (s.root i).first_index bs c short in
      (fat', fs_delete-delete_entry h ∙ delete_entry-some i s e, at)

  -- `fs_delete` of a file with two or more blocks, in a FAT whose entry 0 is the end mark, returns 0. It
  -- makes the first block free and clears entry 0, on which `fs_mount` insists. All the other blocks
  -- of the file stay allocated.
  pub fs_delete-leaks :
      {b x : ℕ} {xs : List ℕ}
      → IsChain n s.fat (s.root i).first_index (b ∷ x ∷ xs)
      → s.fat 0 ≡ eoc
      → (s' : State) × (fs_delete (some name) s ≡ some (pos 0, s'))
        × (s'.fat b ≡ 0)
        × (s'.fat 0 ≡ 0)
        × ((j : ℕ) → has j (x ∷ xs) ≡ true → (s'.fat j ≡ s.fat j) × (s'.fat j ≢ 0))
  fs_delete-leaks {b} {x} {xs} c z =
      let first = (s.root i).first_index in
      let fat' : Table = update (update s.fat first 0) 0 0 in
      (
        deleted i fat' s,
        fs_delete-delete_entry h ∙ delete_entry-some i s (release_blocks-leaks c z),
        ground (arith, c.links),
        refl,
        λ j inside. leaked j inside,
      )
    where
      leaked :
          (j : ℕ)
          → has j (x ∷ xs) ≡ true
          → (update (update s.fat (s.root i).first_index 0) 0 0 j ≡ s.fat j)
            × (update (update s.fat (s.root i).first_index 0) 0 0 j ≢ 0)
      leaked j inside =
          let rest = x ∷ xs in
          let ne : j ≢ b =
            λ e. false≢true (sym c.distinct.0 ∙ (ap (λ k. has k rest) (sym e) ∙ inside)) in
          let ne0 : j ≢ 0 = λ e.
            false≢true
              (sym (has-zero n rest c.in_range.2) ∙ (ap (λ k. has k rest) (sym e) ∙ inside)) in
          let allocated = Links-ne_zero n s.fat (s.fat b) j rest c.links.2 c.in_range.2 inside in
          let same : update (update s.fat (s.root i).first_index 0) 0 0 j ≡ s.fat j =
            ground (arith, c.links.0) in
          (same, rw same allocated)

  -- With entry 0 of the FAT cleared, as after such a deletion, the deletion of a file with two or
  -- more blocks does not return.
  pub fs_delete-diverges :
      {b x : ℕ} {xs : List ℕ}
      → IsChain n s.fat (s.root i).first_index (b ∷ x ∷ xs)
      → s.fat 0 ≢ eoc
      → fs_delete (some name) s ≡ none
  fs_delete-diverges {b} {x} {xs} c z =
      fs_delete-delete_entry h ∙ delete_entry-none i s (release_blocks-diverges c z)
