-- ===== src/Fs/View/Create.antt =====
-- `fs_create` in the view: a name appears, with an empty file.
use ecs150_project.Disk.State.{Disk, block_size}
use ecs150_project.Fs.Directory.{new_file, fs_create}
use ecs150_project.Fs.Directory.Create.{
  CreatedAt-IsFirstNamed, CreateResult, fs_create-CreateResult, CreatedAt,
}
use ecs150_project.Fs.Fat.{find_data_block}
use ecs150_project.Fs.Names.{strcmp_eq, IsCString, CString}
use ecs150_project.Fs.Names.Match.{strcmp_eq_unique}
use ecs150_project.Fs.Root.{IsFirstNamed}
use ecs150_project.Fs.State.{file_max_count, eoc, File, Table, State}
use ecs150_project.Fs.View.{Event, contents_of, IsValidName, view, creates, nothing, Effect}
use ecs150_project.Fs.View.Blocks.{contents-eq}
use ecs150_project.Fs.View.Names.{view-same, strcmp_eq-empty, view-none, view-some}
use ecs150_project.Prelude.{
  ℕ, zero, suc, ◌/◌, ◌<◌, ◌≡◌, refl, sym, ap, ◌∙◌, fun_ext, inl, inr, false, none, some, arith,
  ◌==◌, ==→eq, negsuc, Bool-cases, ℤ, pos, update,
}
use mathlib.Core.Bool.{false≢true}

find_data_block-none : (fat : Table) (k : ℕ) → find_data_block fat eoc k ≡ eoc
unfolding find_data_block
find_data_block-none fat zero = refl
find_data_block-none fat (suc k) = refl

-- a file without blocks
contents_of-empty :
    (fat : Table) (start : ℕ) (disk : Disk) (file : File)
    → file.file_size ≡ 0
    → file.first_index ≡ eoc
    → contents_of fat start disk file ≡ record { size = 0; bytes = λ p. none }
unfolding contents_of
contents_of-empty fat start disk file no_size no_block =
    contents-eq (record { size = 0; bytes = λ p. none }) (contents_of fat start disk file) no_size
      (fun_ext λ p. rw no_block (ground (arith, find_data_block-none fat (p / block_size))))

module _ {s s' : State} {name : CString} {i : ℕ} (c : CreatedAt name s s' i) where
  created-view : view s' name ≡ some (record { size = 0; bytes = λ p. none })
  created-view =
      view-some s' name (CreatedAt-IsFirstNamed name s s' i c)
      ∙ ap some (
          rw c.after (
            contents_of-empty s.fat s.sb.data_start_index s.disk
              (update s.root i (new_file name (s.root i)) i) (ground arith) (ground arith)))

  -- The entry that was filled is the one of no other name, and was empty before.
  names-kept :
      (name' : CString)
      → IsValidName name'
      → strcmp_eq name' (s'.root i).filename 0 ≡ false
      → (k : ℕ) → k < file_max_count
      → strcmp_eq name' (s'.root k).filename 0 ≡ strcmp_eq name' (s.root k).filename 0
  names-kept name' valid not_it k lt = elim (Bool-cases (k == i)) [
    | inl e ↦
        let at = ==→eq k i e in
        rw at (not_it ∙ sym (strcmp_eq-empty (s.root i).filename valid c.was_empty))
    | inr ne ↦ rw c.after (rw ne refl)
  ]

  other-view :
      (name' : CString)
      → IsValidName name'
      → strcmp_eq name' (s'.root i).filename 0 ≡ false
      → view s' name' ≡ view s name'
  other-view name' valid not_it = view-same s s' name' (names-kept name' valid not_it) (λ f found.
      rw c.after (ap (contents_of s.fat s.sb.data_start_index s.disk) (same_entry f found)))
    where
      same_entry :
          (f : ℕ)
          → IsFirstNamed name' s.root f
          → update s.root i (new_file name (s.root i)) f ≡ s.root f
      same_entry f found = elim (Bool-cases (f == i)) [
        | inl e ↦ absurd (
            false≢true (
              sym (strcmp_eq-empty (s.root i).filename valid c.was_empty)
              ∙ (ap (λ g. strcmp_eq name' (s.root g).filename 0) (sym (==→eq f i e))
                  ∙ found.named)))
        | inr ne ↦ ground arith
      ]

-- The event of a call of `fs_create` that returned `r`.
abbrev pub create_event : CString → ℤ → Event
create_event name (pos n) = creates name
create_event name (negsuc n) = nothing

Effect-CreateResult :
    (s : State) (name : CString) (r : ℤ × State)
    → IsCString name
    → CreateResult name s r
    → Effect (create_event name r.0) (view s) (view r.1)
Effect-CreateResult s name (pos n, s') text (z, (i, c)) = (
  view-none s name c.fresh,
  created-view c,
  λ other valid ne. elim (Bool-cases (strcmp_eq other (s'.root i).filename 0)) [
    | inr not_it ↦ other-view c other valid not_it
    | inl it ↦
        let found = CreatedAt-IsFirstNamed name s s' i c in
        absurd
          (ne (strcmp_eq_unique other name (s'.root i).filename 0 valid.text text it found.named))
  ],
)
Effect-CreateResult s name (negsuc n, s') text (z, same, e) =
    λ other valid. ap (λ t. view t other) same

pub Effect-fs_create :
    (name : CString) (s : State)
    → IsCString name
    → Effect
        (create_event name (fs_create (some name) s).0)
        (view s)
        (view (fs_create (some name) s).1)
Effect-fs_create name s text =
    Effect-CreateResult s name (fs_create (some name) s) text (fs_create-CreateResult name s)
