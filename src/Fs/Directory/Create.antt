-- ===== src/Fs/Directory/Create.antt =====
-- `fs_create`: every branch, and that names stay unique.
use ecs150_project.Fs.Directory.{create_entry, new_file, fs_create}
use ecs150_project.Fs.Names.{write_name, strcmp_eq, CString, is_filename_invalid, IsCString}
use ecs150_project.Fs.Names.Match.{
  is_filename_invalid-bounds, invalid-bounds, IsStoredName, write_name-IsStoredName,
  strcmp_eq-write_name_self, strcmp_eq_unique,
}
use ecs150_project.Fs.Root.{
  find_empty_root_entry, find_matching_filename, find_matching_filename-some, IsFirstNamed,
  find_empty_root_entry-some, IsAbsent, find_empty_root_entry-none, find_matching_filename-none,
  IsFirstNamed-find_matching_filename,
}
use ecs150_project.Fs.State.{State, File, file_max_count, eoc}
use ecs150_project.Prelude.{
  ℕ, ◌≤◌, ◌<◌, ◌≡◌, refl, sym, ap, ◌∙◌, ◌≢◌, ◌⊎◌, inl, inr, true, false, some, [], arith,
  Bool-cases, ==→eq, pos, negsuc, ℤ, failure, Option-cases, ◌==◌, update,
}
use ecs150_project.Prelude.Lists.{length}
use mathlib.Core.Bool.{false≢true}

-- The root entry that `fs_create` fills.
pub record CreatedAt (name : CString) (s s' : State) (i : ℕ) : Type 0 where
  pub mounted : s.is_disk_mounted ≡ true
  pub valid : is_filename_invalid (some name) ≡ false
  pub fresh : IsAbsent name s.root
  pub in_range : i < file_max_count
  pub was_empty : (s.root i).filename 0 ≡ 0
  pub nonempty : 0 < length name
  pub short : length name < 16
  pub stored : IsStoredName name (s.root i).filename (s'.root i).filename
  pub entry :
      s'.root i
      ≡ record (s.root i) { filename = (s'.root i).filename; file_size = 0; first_index = 65535 }
  pub after : s' ≡ record s { root = update s.root i (new_file name (s.root i)) }

-- Why `fs_create` returns -1.
pub data CreateError (name : CString) (s : State) : Type 0 where
  unmounted : s.is_disk_mounted ≡ false → CreateError name s
  invalid : (name ≡ []) ⊎ (16 ≤ length name) → CreateError name s
  exists : (i : ℕ) → IsFirstNamed name s.root i → CreateError name s
  no_entry : ((k : ℕ) → k < file_max_count → (s.root k).filename 0 ≢ 0) → CreateError name s

abbrev pub CreateResult : CString → State → ℤ × State → Type 0
CreateResult name s (pos n, s') = (n ≡ 0) × ((i : ℕ) × CreatedAt name s s' i)
CreateResult name s (negsuc k, s') = (k ≡ 0) × (s' ≡ s) × CreateError name s

module _ (name : CString) (s : State) where
  create_entry-CreateResult :
      s.is_disk_mounted ≡ true
      → is_filename_invalid (some name) ≡ false
      → IsAbsent name s.root
      → CreateResult name s (create_entry name s)
  unfolding create_entry
  create_entry-CreateResult m v fresh = elim (Option-cases (find_empty_root_entry s.root)) [
    | inl e ↦
        let E : create_entry name s ≡ (failure, s) = ground arith in
        rw E (refl, refl, no_entry (λ k lt. find_empty_root_entry-none s.root k e lt))
    | inr (i, e) ↦
        let (lt, empty) = find_empty_root_entry-some s.root e in
        let s' : State = record s { root = update s.root i (new_file name (s.root i)) } in
        let E : create_entry name s ≡ (pos 0, s') = ground arith in
        let at : s'.root i ≡ new_file name (s.root i) = ground arith in
        rw E (
          refl,
          (
            i,
            record {
              mounted = m;
              valid = v;
              fresh = fresh;
              in_range = lt;
              was_empty = empty;
              nonempty = (is_filename_invalid-bounds name v).0;
              short = (is_filename_invalid-bounds name v).1;
              stored = rw at (write_name-IsStoredName name (s.root i).filename);
              entry = rw at refl;
              after = refl;
            },
          ),
        )
  ]

  pub fs_create-CreateResult : CreateResult name s (fs_create (some name) s)
  unfolding fs_create
  fs_create-CreateResult = elim (Bool-cases s.is_disk_mounted) [
    | inr m ↦
        let E : fs_create (some name) s ≡ (failure, s) = ground arith in
        rw E (refl, refl, unmounted m)
    | inl m ↦ elim (Bool-cases (is_filename_invalid (some name))) [
      | inl bad ↦
          let E : fs_create (some name) s ≡ (failure, s) = ground arith in
          rw E (refl, refl, invalid (invalid-bounds name bad))
      | inr good ↦ elim (Option-cases (find_matching_filename name s.root)) [
        | inr (i, e) ↦
            let E : fs_create (some name) s ≡ (failure, s) = ground arith in
            rw E (refl, refl, exists i (find_matching_filename-some name s.root e))
        | inl e ↦
            let E : fs_create (some name) s ≡ create_entry name s = ground arith in
            rw E (create_entry-CreateResult m good (find_matching_filename-none name s.root e))
      ]
    ]
  ]

-- No two entries carry this name.
abbrev pub UniqueAt : CString → (ℕ → File) → Type 0
UniqueAt name root =
    (i j : ℕ)
    → name ≢ []
    → i < file_max_count
    → j < file_max_count
    → strcmp_eq name (root i).filename 0 ≡ true
    → strcmp_eq name (root j).filename 0 ≡ true
    → i ≡ j

-- No two entries carry the same name.
abbrev pub UniqueNames : (ℕ → File) → Type 0
UniqueNames root = (name : CString) → IsCString name → UniqueAt name root

-- Which entries carry a name after `name` has been stored in entry `e`.
named-update :
    (root : ℕ → File) (name other : CString) (e k : ℕ)
    → IsCString name
    → IsCString other
    → strcmp_eq other (update root e (new_file name (root e)) k).filename 0 ≡ true
    → ((k ≡ e) × (other ≡ name)) ⊎ ((k ≢ e) × (strcmp_eq other (root k).filename 0 ≡ true))
named-update root name other e k cs cs' h = elim (Bool-cases (k == e)) [
  | inl same ↦
      let stored = write_name name 0 (root e).filename in
      let h' : strcmp_eq other stored 0 ≡ true = ground arith in
      inl (
        ==→eq k e same,
        strcmp_eq_unique other name stored 0 cs' cs h'
            (strcmp_eq-write_name_self name 0 (root e).filename),
      )
  | inr apart ↦ inr (ground arith, ground arith)
]

-- Storing a name that no entry has in one entry keeps the names unique.
UniqueAt-update :
    (root : ℕ → File) (name : CString) (e : ℕ) (other : CString)
    → IsCString name
    → IsAbsent name root
    → IsCString other
    → UniqueAt other root
    → UniqueAt other (update root e (new_file name (root e)))
UniqueAt-update root name e other cs fresh cs' u i j ne li lj hi hj =
    elim (named-update root name other e i cs cs' hi) [
      | inl (i_e, same) ↦ elim (named-update root name other e j cs cs' hj) [
        | inl (j_e, same') ↦ i_e ∙ sym j_e
        | inr (j_ne, old) ↦ absurd (absent_lem j lj same old)
      ]
      | inr (i_ne, old) ↦ elim (named-update root name other e j cs cs' hj) [
        | inl (j_e, same') ↦ absurd (absent_lem i li same' old)
        | inr (j_ne, old') ↦ u i j ne li lj old old'
      ]
    ]
  where
    absent_lem :
        (k : ℕ) → k < file_max_count → other ≡ name → strcmp_eq other (root k).filename 0 ≡ true → ⊥
    absent_lem k lt same old =
        false≢true (sym (fresh k lt) ∙ (ap (λ t. strcmp_eq t (root k).filename 0) (sym same) ∙ old))

CreateResult-UniqueAt :
    (name : CString) (s : State) (r : ℤ × State) (other : CString)
    → IsCString name
    → CreateResult name s r
    → IsCString other
    → UniqueAt other s.root
    → UniqueAt other r.1.root
CreateResult-UniqueAt name s (pos n, s') other cs (z, (i, c)) cs' u =
    rw c.after (UniqueAt-update s.root name i other cs c.fresh cs' u)
CreateResult-UniqueAt name s (negsuc k, s') other cs (z, same, e) cs' u = rw same u

-- `fs_create` keeps the names in the root directory unique.
pub fs_create-UniqueAt :
    (name : CString) (s : State) (other : CString)
    → IsCString name
    → IsCString other
    → UniqueAt other s.root
    → UniqueAt other (fs_create (some name) s).1.root
fs_create-UniqueAt name s other cs cs' u =
    CreateResult-UniqueAt name s _ other cs (fs_create-CreateResult name s) cs' u

fs_create-UniqueNames :
    (name : CString) (s : State)
    → IsCString name
    → UniqueNames s.root
    → UniqueNames (fs_create (some name) s).1.root
fs_create-UniqueNames name s cs u other cs' = fs_create-UniqueAt name s other cs cs' (u other cs')

-- The filled entry is the first one with the name.
pub CreatedAt-IsFirstNamed :
    (name : CString) (s s' : State) (i : ℕ) → CreatedAt name s s' i → IsFirstNamed name s'.root i
CreatedAt-IsFirstNamed name s s' i c = rw c.after (record {
  in_range = c.in_range;
  named = ground (arith, strcmp_eq-write_name_self name 0 (s.root i).filename);
  first = λ k lt. ground (arith, c.fresh k (omega (arith, c.in_range)));
})

-- After `fs_create` has returned 0, the search by which `fs_open` and `fs_delete` find a file finds
-- the entry that was filled: a file of size 0 without data blocks.
pub find_matching_filename-fs_create :
    (name : CString) (s s' : State)
    → fs_create (some name) s ≡ (pos 0, s')
    → (i : ℕ) × (find_matching_filename name s'.root ≡ some i)
      × ((s'.root i).file_size ≡ 0)
      × ((s'.root i).first_index ≡ eoc)
find_matching_filename-fs_create name s s' e =
    let (z, (i, c)) = rw e at (fs_create-CreateResult name s) in
    (
      i,
      IsFirstNamed-find_matching_filename name s'.root (CreatedAt-IsFirstNamed name s s' i c),
      rw c.after (ground arith),
      rw c.after (ground arith),
    )
