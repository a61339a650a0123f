-- ===== src/Fs/Layout/Unique.antt =====
-- The names of the files, along sequences of calls.
-- A change that leaves every name, or makes it empty, keeps the names unique.
use ecs150_project.Disk.State.{Host}
use ecs150_project.Fs.Calls.Slots.{fs_write-SameSlots}
use ecs150_project.Fs.Directory.Create.{UniqueNames, UniqueAt, fs_create-UniqueAt}
use ecs150_project.Fs.Directory.Delete.Keeps.{fs_delete-names}
use ecs150_project.Fs.Layout.Steps.{
  on_delete, on_create, no_call, on_open, Run, one_more, Call, on_read, on_close, on_write,
  on_lseek,
}
use ecs150_project.Fs.Names.{strcmp_eq, IsCString, CString}
use ecs150_project.Fs.Persist.Savable.{
  Unmoved-fs_lseek, Unmoved-fs_open, Unmoved-fs_close, Unmoved-fs_read,
}
use ecs150_project.Fs.State.{State, File}
use ecs150_project.Prelude.{
  ℕ, ◌≡◌, refl, sym, ap, ◌∙◌, ◌≢◌, ◌⊎◌, inl, inr, true, [], ◌∷◌, arith, Bytes,
}

UniqueAt-fewer :
    (root root' : ℕ → File) (name : CString)
    → IsCString name
    → ((f : ℕ) → ((root' f).filename ≡ (root f).filename) ⊎ ((root' f).filename 0 ≡ 0))
    → UniqueAt name root
    → UniqueAt name root'
unfolding strcmp_eq
UniqueAt-fewer root root' name text kept u i j ne li lj hi hj = u i j ne li lj (was i hi) (was j hj)
  where
    not_empty :
        (t : CString) (buf : Bytes) → IsCString t → t ≢ [] → strcmp_eq t buf 0 ≡ true → buf 0 ≢ 0
    not_empty [] buf text' ne' h z = ne' refl
    not_empty (c ∷ cs) buf text' ne' h z = ground (arith, text'.0)

    was :
        (f : ℕ)
        → strcmp_eq name (root' f).filename 0 ≡ true
        → strcmp_eq name (root f).filename 0 ≡ true
    was f h = elim (kept f) [
      | inl same ↦ ap (λ b. strcmp_eq name b 0) (sym same) ∙ h
      | inr empty ↦ absurd (not_empty name (root' f).filename text ne h empty)
    ]

pub UniqueAt-Call :
    {host : Host} {bounce : Bytes} {s s' : State} (other : CString)
    → IsCString other
    → Call host bounce s s'
    → UniqueAt other s.root
    → UniqueAt other s'.root
UniqueAt-Call {s} other cs (on_create name text) u = fs_create-UniqueAt name s other text cs u
UniqueAt-Call {s} {s'} other cs (on_delete name i r s2 h short e) u =
    UniqueAt-fewer s.root s2.root other cs (fs_delete-names h e) u
UniqueAt-Call {s} other cs (on_open malloc_ok name text) u =
    rw (Unmoved-fs_open malloc_ok name s).root u
UniqueAt-Call {s} other cs (on_close fd lt) u = rw (Unmoved-fs_close fd s).root u
UniqueAt-Call {s} other cs (on_lseek fd offset lt) u = rw (Unmoved-fs_lseek fd offset s).root u
UniqueAt-Call {host} {bounce} {s} other cs (on_write fd buf count r s2 lt e) u =
    UniqueAt-fewer s.root s2.root other cs
      (λ f. inl ((fs_write-SameSlots host bounce fd buf count e).names f)) u
UniqueAt-Call {host} {bounce} {s} other cs (on_read fd buf count lt) u =
    rw (Unmoved-fs_read host bounce fd buf count s).root u

UniqueNames-Call :
    {host : Host} {bounce : Bytes} {s s' : State}
    → Call host bounce s s'
    → UniqueNames s.root
    → UniqueNames s'.root
UniqueNames-Call call u name text = UniqueAt-Call name text call (u name text)

-- Along every sequence of calls the names in the root directory stay unique, so that a name stands
-- for one file.
pub UniqueNames-Run :
    {host : Host} {bounce : Bytes} {s s' : State}
    → Run host bounce s s'
    → UniqueNames s.root
    → UniqueNames s'.root
UniqueNames-Run (no_call s) u = u
UniqueNames-Run (one_more s s' s'' run call) u = UniqueNames-Call call (UniqueNames-Run run u)
