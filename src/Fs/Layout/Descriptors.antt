-- ===== src/Fs/Layout/Descriptors.antt =====
-- The operations on descriptors keep the layout of the files.
use ecs150_project.Fs.Calls.Effect.{open_file}
use ecs150_project.Fs.Descriptors.{fs_lseek, fs_close, fs_open}
use ecs150_project.Fs.Descriptors.Open.{fs_open-OpenResult, OpenResult}
use ecs150_project.Fs.Descriptors.Seek.{
  fs_lseek-IsOpenAt, guarded_entry-IsOpenAt, IsOpenAt-cases, guarded_entry-IsRefused,
}
use ecs150_project.Fs.Layout.{IsNamed, Layout}
use ecs150_project.Fs.Names.{IsCString, CString, strcmp_eq, is_filename_invalid}
use ecs150_project.Fs.Root.{IsFirstNamed}
use ecs150_project.Fs.State.{file_max_count, guarded_entry, FileDescriptor, State, open_max_count}
use ecs150_project.Prelude.{
  ℕ, ◌+◌, ◌-◌, ◌^◌, ◌<◌, ◌≡◌, refl, sym, ◌∙◌, inl, inr, Bool, false, Option, none, some, List, [],
  ◌∷◌, arith, ℤ, failure, ◌==◌, ltb, pos, negsuc, Option-cases, Bool-cases, u8, u16, update,
}
use mathlib.Core.Path.{subst}

-- What a state needs for the layout besides descriptors.

record SameFiles (s s' : State) : Type 0 where
  sb : s'.sb ≡ s.sb
  fat : s'.fat ≡ s.fat
  root : s'.root ≡ s.root
  disk : s'.disk ≡ s.disk

abbrev OpenNamed : State → Type 0
OpenNamed s =
    (k f : ℕ) → k < open_max_count → open_file s k ≡ some f → (f < file_max_count) × IsNamed s f

Layout-SameFiles :
    {s s' : State} {blocks : ℕ → List ℕ}
    → Layout s blocks
    → SameFiles s s'
    → OpenNamed s'
    → Layout s' blocks
Layout-SameFiles {s} {s'} l e named = record {
  laid = record {
    opened = rw e.disk l.laid.opened;
    fat_small = rw e.sb l.laid.fat_small;
    fits = rw (e.sb, e.disk) l.laid.fits;
    small = rw e.sb l.laid.small;
  };
  mark = rw e.fat l.mark;
  chains = rw (e.sb, e.fat, e.root) l.chains;
  apart = rw e.root l.apart;
  open_named = named;
}

-- Setting one entry of `open_files` to a descriptor of a file, or to NULL.
OpenNamed-update :
    (s : State) (i : ℕ) (e : Option FileDescriptor) (m : ℕ)
    → OpenNamed s
    → ((d : FileDescriptor) → e ≡ some d → (d.file < file_max_count) × IsNamed s d.file)
    → OpenNamed (record s { open_files = update s.open_files i e; num_open_files = m })
OpenNamed-update s i e m named new k f lt h = elim (Bool-cases (k == i)) [
  | inr ne ↦ named k f lt (ground arith)
  | inl eq ↦ elim (Option-cases e) [
    | inl none_e ↦ absurd (ground arith)
    | inr (d, some_e) ↦
        let same : d.file ≡ f = ground arith in
        subst (λ g. (g < file_max_count) × IsNamed s g) same (new d some_e)
  ]
]

-- A root entry that has a name is a file.
pub IsFirstNamed-IsNamed :
    (name : CString) (s : State) (i : ℕ)
    → IsCString name
    → is_filename_invalid (some name) ≡ false
    → IsFirstNamed name s.root i
    → (i < file_max_count) × IsNamed s i
unfolding is_filename_invalid strcmp_eq
IsFirstNamed-IsNamed [] s i text valid f = absurd (ground arith)
IsFirstNamed-IsNamed (c ∷ cs) s i text valid f = (f.in_range, λ z. ground (arith, f.named, text.0))

Layout-OpenResult :
    (malloc_ok : Bool) (name : CString) {s : State} {blocks : ℕ → List ℕ} (r : ℤ × State)
    → IsCString name
    → Layout s blocks
    → OpenResult malloc_ok name s r
    → Layout r.1 blocks
Layout-OpenResult malloc_ok name {s} (pos fd, s') text l o = rw o.after (
    Layout-SameFiles l (record { sb = refl; fat = refl; root = refl; disk = refl })
      (OpenNamed-update s fd _ (u8 (s.num_open_files + 1)) l.open_named (λ d e.
        let found = IsFirstNamed-IsNamed name s o.file text o.valid o.found in
        let same : o.file ≡ d.file = ground arith in
        subst (λ g. (g < file_max_count) × IsNamed s g) same found)))
Layout-OpenResult malloc_ok name (negsuc k, s') text l (z, same, e) = rw same l

pub Layout-fs_open :
    (malloc_ok : Bool) (name : CString) {s : State} {blocks : ℕ → List ℕ}
    → IsCString name
    → Layout s blocks
    → Layout (fs_open malloc_ok (some name) s).1 blocks
Layout-fs_open malloc_ok name text l =
    Layout-OpenResult malloc_ok name _ text l (fs_open-OpenResult malloc_ok name _)

-- An open descriptor of one of the 32 entries may move or be closed.
pub Layout-moved :
    {s : State} {blocks : ℕ → List ℕ} (fd : ℕ) (d : FileDescriptor) (e : Option FileDescriptor)
    (m : ℕ)
    → Layout s blocks
    → fd < open_max_count
    → s.open_files fd ≡ some d
    → ((d' : FileDescriptor) → e ≡ some d' → d'.file ≡ d.file)
    → Layout (record s { open_files = update s.open_files fd e; num_open_files = m }) blocks
Layout-moved {s} fd d e m l lt entry same =
    Layout-SameFiles l (record { sb = refl; fat = refl; root = refl; disk = refl })
      (OpenNamed-update s fd e m l.open_named (λ d' q.
        subst (λ g. (g < file_max_count) × IsNamed s g) (sym (same d' q))
          (l.open_named fd d.file lt (ground arith))))

pub Layout-fs_close :
    (fd : ℕ) {s : State} {blocks : ℕ → List ℕ}
    → fd < open_max_count
    → Layout s blocks
    → Layout (fs_close (pos fd) s).1 blocks
unfolding fs_close guarded_entry
Layout-fs_close fd {s} lt l = elim (IsOpenAt-cases s fd) [
  | inl refused ↦
      let E : fs_close (pos fd) s ≡ (failure, s) =
        ground (arith, guarded_entry-IsRefused refused) in
      rw E l
  | inr (d, o) ↦
      let m = u8 (s.num_open_files + 2 ^ 8 - 1) in
      let E : fs_close (pos fd) s
          ≡ (pos 0, record s { open_files = update s.open_files fd none; num_open_files = m }) =
        ground (arith, guarded_entry-IsOpenAt o) in
      rw E (Layout-moved fd d none m l lt o.entry (λ d' q. absurd (ground arith)))
]

pub Layout-fs_lseek :
    (fd offset : ℕ) {s : State} {blocks : ℕ → List ℕ}
    → fd < open_max_count
    → Layout s blocks
    → Layout (fs_lseek (pos fd) offset s).1 blocks
unfolding fs_lseek guarded_entry
Layout-fs_lseek fd offset {s} lt l = elim (IsOpenAt-cases s fd) [
  | inl refused ↦
      let E : fs_lseek (pos fd) offset s ≡ (failure, s) =
        ground (arith, guarded_entry-IsRefused refused) in
      rw E l
  | inr (d, o) ↦ elim (Bool-cases (ltb (s.root d.file).file_size offset)) [
    | inl beyond ↦
        let E : fs_lseek (pos fd) offset s ≡ (failure, s) =
          fs_lseek-IsOpenAt offset o ∙ ground arith in
        rw E l
    | inr inside ↦
        let d' : FileDescriptor = record d { offset = u16 offset } in
        let E : fs_lseek (pos fd) offset s
            ≡ (pos 0, record s { open_files = update s.open_files fd (some d') }) =
          fs_lseek-IsOpenAt offset o ∙ ground arith in
        rw E (Layout-moved fd d (some d') s.num_open_files l lt o.entry (λ e q. ground arith))
  ]
]
