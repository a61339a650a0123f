-- ===== src/Fs/Layout/Directory.antt =====
-- `fs_create`, and `fs_delete` of a file of at most one block, keep the layout of the files.
use ecs150_project.Fs.Calls.Effect.{open_file}
use ecs150_project.Fs.Calls.Read.{HasChain}
use ecs150_project.Fs.Directory.{fs_create, empty_file, fs_delete, new_file}
use ecs150_project.Fs.Directory.Create.{fs_create-CreateResult, CreateResult}
use ecs150_project.Fs.Directory.Delete.{IsDeletable, fs_delete-frees}
use ecs150_project.Fs.Fat.Blocks.{has-zero}
use ecs150_project.Fs.Layout.{IsWellFormed, IsNamed, Layout}
use ecs150_project.Fs.Layout.Chains.{IsChain-same, IsChain-nil}
use ecs150_project.Fs.Layout.Descriptors.{IsFirstNamed-IsNamed}
use ecs150_project.Fs.Names.{strcmp_eq, CString}
use ecs150_project.Fs.State.{file_max_count, File, open_max_count, State, eoc, Table}
use ecs150_project.Prelude.{
  ℕ, ◌≤◌, ◌<◌, ◌≡◌, refl, sym, ap, ◌∙◌, ◌≢◌, inl, inr, true, false, some, List, [], arith, pos,
  ==→eq, Bool-cases, if◌then◌else◌, ◌==◌, Option-cases, negsuc, ℤ, update,
}
use ecs150_project.Prelude.Lists.{length, has}
use mathlib.Core.Path.{subst}
use mathlib.Core.Bool.{false≢true}

-- Giving root entry `i`, which nothing had named, a file without blocks.
Layout-created :
    {s : State} {blocks : ℕ → List ℕ} (i : ℕ) (f : File)
    → Layout s blocks
    → (s.root i).filename 0 ≡ 0
    → f.first_index ≡ eoc
    → Layout (record s { root = update s.root i f }) (update blocks i [])
Layout-created {s} {blocks} i f l empty no_block = record {
  laid = record {
    opened = l.laid.opened;
    fat_small = l.laid.fat_small;
    fits = l.laid.fits;
    small = l.laid.small;
  };
  mark = l.mark;
  chains = λ g lt named. elim (Bool-cases (g == i)) [
    | inl e ↦ rw (e, no_block) (IsChain-nil s.sb.num_data_blocks s.fat)
    | inr ne ↦ rw ne (l.chains g lt (was-IsNamed g ne named))
  ];
  apart = λ g h j lg lh ng nh ne inside. elim (Bool-cases (g == i)) [
    | inl e ↦ absurd (ground arith)
    | inr ne_g ↦ elim (Bool-cases (h == i)) [
      | inl e ↦ ground arith
      | inr ne_h ↦
          rw ne_h
            (l.apart g h j lg lh (was-IsNamed g ne_g ng) (was-IsNamed h ne_h nh) ne (ground arith))
    ]
  ];
  open_named =
      λ k g lt e. let (lg, named) = l.open_named k g lt e in (lg, λ z. named (still_empty g z));
}
  where
    was-IsNamed :
        (g : ℕ) → (g == i) ≡ false → IsNamed (record s { root = update s.root i f }) g → IsNamed s g
    was-IsNamed g ne named z = named (ground arith)

    still_empty : (g : ℕ) → (update s.root i f g).filename 0 ≡ 0 → (s.root g).filename 0 ≡ 0
    still_empty g z = ground (arith, empty, same g)
      where
        same : (g : ℕ) → (g == i) ≡ true → (s.root g).filename ≡ (s.root i).filename
        same g e = ap (λ k. (s.root k).filename) (==→eq g i e)

Layout-CreateResult :
    (name : CString) {s : State} {blocks : ℕ → List ℕ} (r : ℤ × State)
    → Layout s blocks
    → CreateResult name s r
    → IsWellFormed r.1
Layout-CreateResult name {s} {blocks} (pos n, s') l (z, (i, c)) =
    rw c.after (update blocks i [], Layout-created i (new_file name (s.root i)) l c.was_empty refl)
Layout-CreateResult name {s} {blocks} (negsuc k, s') l (z, same, e) = rw same (blocks, l)

pub IsWellFormed-fs_create :
    (name : CString) {s : State} → IsWellFormed s → IsWellFormed (fs_create (some name) s).1
IsWellFormed-fs_create name (blocks, l) =
    Layout-CreateResult name _ l (fs_create-CreateResult name _)

module _ {s : State} {blocks : ℕ → List ℕ} (i : ℕ) (fat' : Table) (l : Layout s blocks)
    (lt_i : i < file_max_count) (named_i : IsNamed s i)
    (freed : (j : ℕ) → fat' j ≡ (if has j (blocks i) then 0 else s.fat j))
    (not_open : (k : ℕ) → k < open_max_count → open_file s k ≢ some i) where
  abbrev pub emptied : State
  emptied = record s { fat = fat'; root = update s.root i (empty_file (s.root i)) }

  was-IsNamed : (g : ℕ) → IsNamed emptied g → (g ≢ i) × (emptied.root g ≡ s.root g) × IsNamed s g
  was-IsNamed g named = (ground arith, ground arith, ground arith)

  chain-emptied : (g : ℕ) → g < file_max_count → IsNamed emptied g → HasChain emptied g (blocks g)
  chain-emptied g lt named =
      let (ne, same, old) = was-IsNamed g named in
      rw same (
        IsChain-same (l.chains g lt old)
          (λ j inside. freed j ∙ ground (arith, l.apart g i j lt lt_i old named_i ne inside)))

  -- Freeing the blocks of a closed file and emptying its entry.
  pub Layout-emptied : Layout emptied blocks
  Layout-emptied = record {
    laid = record {
      opened = l.laid.opened;
      fat_small = l.laid.fat_small;
      fits = l.laid.fits;
      small = l.laid.small;
    };
    mark =
        freed 0
        ∙ ground (
          arith,
          l.mark,
          has-zero s.sb.num_data_blocks (blocks i) (l.chains i lt_i named_i).in_range,
        );
    chains = chain-emptied;
    apart = λ g h j lg lh ng nh ne inside.
        l.apart g h j lg lh (was-IsNamed g ng).2 (was-IsNamed h nh).2 ne inside;
    open_named = λ k g lt e.
        let (lg, named) = l.open_named k g lt e in (lg, λ z. ground (arith, not_open k lt, named));
  }

-- No descriptor is open on a file that `fs_delete` goes on to delete.
pub IsDeletable-closed :
    {name : CString} {s : State} {i : ℕ}
    → IsDeletable name s i
    → (k : ℕ) → k < open_max_count
    → open_file s k ≢ some i
IsDeletable-closed {name} {s} {i} h k lt e = elim (Option-cases (s.open_files k)) [
  | inl none_k ↦ ground arith
  | inr (d, some_d) ↦
      let same : d.file ≡ i = ground arith in
      false≢true (
        sym (h.closed k d lt some_d)
        ∙ (ap (λ f. strcmp_eq name (s.root f).filename 0) same ∙ h.found.named))
]

-- The deletion of a closed file of at most one block keeps the layout.
pub IsWellFormed-fs_delete :
    {name : CString} {s : State} {i : ℕ} {blocks : ℕ → List ℕ} {s' : State} {r : ℤ}
    → Layout s blocks
    → IsDeletable name s i
    → length (blocks i) ≤ 1
    → fs_delete (some name) s ≡ some (r, s')
    → IsWellFormed s'
IsWellFormed-fs_delete {name} {s} {i} {blocks} {s'} l h short e =
    let (lt, named) = IsFirstNamed-IsNamed name s i h.text h.valid h.found in
    let (fat', e', freed) = fs_delete-frees h (l.chains i lt named) short in
    let same : emptied i fat' l lt named freed (IsDeletable-closed h) ≡ s' =
      ground (arith, e, e') in
    subst IsWellFormed same (blocks, Layout-emptied i fat' l lt named freed (IsDeletable-closed h))
