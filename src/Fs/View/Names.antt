-- ===== src/Fs/View/Names.antt =====
-- Which file a name stands for in the view.
use ecs150_project.Fs.Names.{strcmp_eq, IsCString, is_filename_invalid, CString}
use ecs150_project.Fs.Root.{
  IsFirstNamed-find_matching_filename, find_matching_filename, find_matching_filename-none,
  find_matching_filename-some, IsAbsent, IsAbsent-find_matching_filename, IsFirstNamed,
}
use ecs150_project.Fs.State.{file_max_count, State, File}
use ecs150_project.Fs.View.{file_view, view, IsValidName}
use ecs150_project.Prelude.{
  ℕ, ◌<◌, ◌≡◌, refl, sym, ap, ◌∙◌, ◌≢◌, ◌⊎◌, inl, inr, false, none, some, [], ◌∷◌, arith,
  Option-cases, Bytes,
}

pub view-none : (s : State) (name : CString) → IsAbsent name s.root → view s name ≡ none
unfolding view
view-none s name a = ground (arith, IsAbsent-find_matching_filename name s.root a)

pub view-some :
    (s : State) (name : CString) {f : ℕ}
    → IsFirstNamed name s.root f
    → view s name ≡ some (file_view s f)
unfolding view
view-some s name found = ground (arith, IsFirstNamed-find_matching_filename name s.root found)

-- A name stands for a file, or for none.
pub name-cases :
    (name : CString) (root : ℕ → File) → IsAbsent name root ⊎ ((f : ℕ) × IsFirstNamed name root f)
name-cases name root = elim (Option-cases (find_matching_filename name root)) [
  | inl e ↦ inl (find_matching_filename-none name root e)
  | inr (f, e) ↦ inr (f, find_matching_filename-some name root e)
]

-- Nothing that a name stands for has changed.
pub view-same :
    (s s' : State) (name : CString)
    → ((k : ℕ)
        → k < file_max_count
        → strcmp_eq name (s'.root k).filename 0 ≡ strcmp_eq name (s.root k).filename 0)
    → ((f : ℕ) → IsFirstNamed name s.root f → file_view s' f ≡ file_view s f)
    → view s' name ≡ view s name
view-same s s' name names files = elim (name-cases name s.root) [
  | inl a ↦ view-none s' name (λ k lt. names k lt ∙ a k lt) ∙ sym (view-none s name a)
  | inr (f, found) ↦
      view-some s' name (record {
        in_range = found.in_range;
        named = names f found.in_range ∙ found.named;
        first = λ k lt. names k (omega (arith, found.in_range)) ∙ found.first k lt;
      })
      ∙ (ap some (files f found) ∙ sym (view-some s name found))
]

-- A valid name is not the one of an empty entry,
pub strcmp_eq-empty :
    {name : CString} (buf : Bytes) → IsValidName name → buf 0 ≡ 0 → strcmp_eq name buf 0 ≡ false
unfolding strcmp_eq
strcmp_eq-empty {name} buf valid empty = by_name name valid.text valid.nonempty
  where
    by_name : (t : CString) → IsCString t → t ≢ [] → strcmp_eq t buf 0 ≡ false
    by_name [] text ne = absurd (ne refl)
    by_name (c ∷ cs) text ne = ground (arith, text.0)

-- and passes the guards of the calls.
pub valid-guard : {name : CString} → IsValidName name → is_filename_invalid (some name) ≡ false
unfolding is_filename_invalid
valid-guard {name = []} valid = absurd (valid.nonempty refl)
valid-guard {name = c ∷ cs} valid = ground (arith, valid.short)
