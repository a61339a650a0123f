-- ===== src/Fs/View/Delete.antt =====
-- `fs_delete` in the view: a name vanishes.
use ecs150_project.Disk.State.{block_size}
use ecs150_project.Fs.Calls.Read.{HasChain, file_content}
use ecs150_project.Fs.Directory.{fs_delete, empty_file}
use ecs150_project.Fs.Directory.Delete.{fs_delete-frees, IsDeletable}
use ecs150_project.Fs.Fat.{find_data_block}
use ecs150_project.Fs.Fat.Chain.{find_data_block-get_or}
use ecs150_project.Fs.Layout.{IsWellFormed, IsNamed, Layout}
use ecs150_project.Fs.Layout.Descriptors.{IsFirstNamed-IsNamed}
use ecs150_project.Fs.Layout.Directory.{Layout-emptied, IsDeletable-closed}
use ecs150_project.Fs.Layout.Steps.{IsShort, IsShort-length}
use ecs150_project.Fs.Names.{CString, strcmp_eq}
use ecs150_project.Fs.Names.Match.{is_filename_invalid-bounds, strcmp_eq_unique}
use ecs150_project.Fs.State.{file_max_count, State, Table}
use ecs150_project.Fs.View.{file_view, deletes, IsValidName, UniqueValid, view, Effect}
use ecs150_project.Fs.View.Blocks.{file_view-same}
use ecs150_project.Fs.View.Names.{view-none, view-some, valid-guard, view-same, strcmp_eq-empty}
use ecs150_project.Prelude.{
  ℕ, ◌/◌, ◌<◌, ◌≡◌, refl, sym, ap, ◌∙◌, inl, inr, true, false, none, some, List, arith, ==→eq, ℤ,
  Bool-cases, if◌then◌else◌, ◌==◌, update,
}
use ecs150_project.Prelude.Lists.{length, has}
use mathlib.Core.Path.{subst}
use mathlib.Core.Bool.{false≢true}

-- The bytes of a file whose chain has stayed, on the same disk.
chain-kept :
    (s s' : State) (f : ℕ) {bs : List ℕ}
    → HasChain s f bs
    → HasChain s' f bs
    → s'.sb ≡ s.sb
    → s'.disk ≡ s.disk
    → (p : ℕ) → file_content s' f p ≡ file_content s f p
chain-kept s s' f {bs} c c' sb disk p =
    let k = p / block_size in
    let same : find_data_block s'.fat (s'.root f).first_index k
        ≡ find_data_block s.fat (s.root f).first_index k =
      find_data_block-get_or k c' ∙ sym (find_data_block-get_or k c) in
    rw (same, sb, disk) refl

module _ {name : CString} {s : State} {i : ℕ} {blocks : ℕ → List ℕ} {fat' : Table}
    (l : Layout s blocks) (gone : IsDeletable name s i) (lt : i < file_max_count)
    (named : IsNamed s i)
    (freed : (j : ℕ) → fat' j ≡ (if has j (blocks i) then 0 else s.fat j)) where
  abbrev after : State
  after = record s { fat = fat'; root = update s.root i (empty_file (s.root i)) }

  after-Layout : Layout after blocks
  after-Layout = Layout-emptied i fat' l lt named freed (IsDeletable-closed gone)

  entry-other : (f : ℕ) → (f == i) ≡ false → after.root f ≡ s.root f
  entry-other f ne = ground arith

  entry-empty : (f : ℕ) → (f == i) ≡ true → (after.root f).filename 0 ≡ 0
  entry-empty f e = ground arith

  -- A name that is not the one of the entry stands for what it did.
  other-view :
      (name' : CString)
      → IsValidName name'
      → strcmp_eq name' (s.root i).filename 0 ≡ false
      → view after name' ≡ view s name'
  other-view name' valid not_it =
      view-same s after name'
        (λ k lk. elim (Bool-cases (k == i)) [
          | inr ne ↦ ap (λ file. strcmp_eq name' file.filename 0) (entry-other k ne)
          | inl e ↦
              strcmp_eq-empty (after.root k).filename valid (entry-empty k e)
              ∙ sym (ap (λ g. strcmp_eq name' (s.root g).filename 0) (==→eq k i e) ∙ not_it)
        ])
        (λ f found. elim (Bool-cases (f == i)) [
          | inl e ↦ absurd (
              false≢true (
                sym not_it
                ∙ (ap (λ g. strcmp_eq name' (s.root g).filename 0) (sym (==→eq f i e))
                    ∙ found.named)))
          | inr ne ↦
              let (lf, named_f) =
                IsFirstNamed-IsNamed name' s f valid.text (valid-guard valid) found in
              let named_f' : IsNamed after f = rw (entry-other f ne) named_f in
              let c = l.chains f lf named_f in
              let c' = after-Layout.chains f lf named_f' in
              file_view-same s after f l.laid.fat_small l.laid.fat_small c c'
                (ap (λ file. file.file_size) (entry-other f ne))
                (λ p inside. chain-kept s after f c c' refl refl p)
        ])

  -- If the names are unique, the name of the entry stands for nothing now.
  gone-view :
      UniqueValid s.root
      → (name' : CString) → IsValidName name'
      → strcmp_eq name' (s.root i).filename 0 ≡ true
      → view after name' ≡ none
  gone-view u name' valid it = view-none after name' (λ k lk. elim (Bool-cases (k == i)) [
    | inl e ↦ strcmp_eq-empty (after.root k).filename valid (entry-empty k e)
    | inr ne ↦ elim (Bool-cases (strcmp_eq name' (after.root k).filename 0)) [
      | inr no_match ↦ no_match
      | inl match' ↦
          let was : strcmp_eq name' (s.root k).filename 0 ≡ true =
            ap (λ file. strcmp_eq name' file.filename 0) (sym (entry-other k ne)) ∙ match' in
          let same : k ≡ i = u name' valid k i valid.nonempty lk lt was it in absurd (ground arith)
    ]
  ])

  gone-IsValidName : IsValidName name
  gone-IsValidName = record {
    text = gone.text;
    nonempty = λ e. omega (arith, (is_filename_invalid-bounds name gone.valid).0, ap length e);
    short = (is_filename_invalid-bounds name gone.valid).1;
  }

  Effect-after : UniqueValid s.root → Effect (deletes name) (view s) (view after)
  Effect-after u = (
    (file_view s i, view-some s name gone.found),
    gone-view u name gone-IsValidName gone.found.named,
    λ other valid ne. elim (Bool-cases (strcmp_eq other (s.root i).filename 0)) [
      | inr not_it ↦ other-view other valid not_it
      | inl it ↦ absurd (
          ne (
            strcmp_eq_unique other name (s.root i).filename 0 valid.text gone.text it
              gone.found.named))
    ],
  )

-- `fs_delete` of a file of at most one block: its name vanishes.
pub Effect-fs_delete :
    (name : CString) (s s' : State) (i : ℕ) (r : ℤ)
    → IsWellFormed s
    → UniqueValid s.root
    → IsDeletable name s i
    → IsShort s i
    → fs_delete (some name) s ≡ some (r, s')
    → Effect (deletes name) (view s) (view s')
Effect-fs_delete name s s' i r (blocks, l) u gone short e =
    let (lt, named) = IsFirstNamed-IsNamed name s i gone.text gone.valid gone.found in
    let c = l.chains i lt named in
    let (fat', e', freed) =
      fs_delete-frees gone c
        (IsShort-length s.sb.num_data_blocks s.fat (s.root i).first_index (blocks i) c short) in
    let same : after {i = i} {fat' = fat'} l gone lt named freed ≡ s' = ground (arith, e, e') in
    subst (λ t. Effect (deletes name) (view s) (view t)) same (Effect-after l gone lt named freed u)
