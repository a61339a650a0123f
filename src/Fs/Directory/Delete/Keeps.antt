-- ===== src/Fs/Directory/Delete/Keeps.antt =====
-- What `fs_delete` leaves as it was: descriptors, names, and whether a disk is mounted.
use ecs150_project.Fs.Directory.{delete_entry, fs_delete, release_blocks}
use ecs150_project.Fs.Directory.Delete.{fs_delete-delete_entry, deleted, IsDeletable}
use ecs150_project.Fs.Names.{CString}
use ecs150_project.Fs.State.{State}
use ecs150_project.Prelude.{
  ℕ, ◌≡◌, ◌⊎◌, inl, inr, Option, none, some, arith, ℤ, Option-cases, ◌==◌, Bool-cases,
}

-- A deletion touches no descriptor.
pub fs_delete-descriptors :
    (name : CString) (s s' : State) {r : ℤ}
    → fs_delete (some name) s ≡ some (r, s')
    → (s'.open_files ≡ s.open_files) × (s'.num_open_files ≡ s.num_open_files)
unfolding fs_delete delete_entry
fs_delete-descriptors name s s' e = (ground arith, ground arith)

-- A deletion leaves every name, or makes it empty.
pub fs_delete-names :
    {name : CString} {s s' : State} {i : ℕ} {r : ℤ}
    → IsDeletable name s i
    → fs_delete (some name) s ≡ some (r, s')
    → (f : ℕ) → ((s'.root f).filename ≡ (s.root f).filename) ⊎ ((s'.root f).filename 0 ≡ 0)
unfolding delete_entry
fs_delete-names {name} {s} {s'} {i} h e f =
    elim (Option-cases (release_blocks s.fat (s.root i).first_index)) [
      | inl endless ↦ absurd (ground (arith, e, fs_delete-delete_entry h))
      | inr (fat', freed) ↦
          let same : deleted i fat' s ≡ s' = ground (arith, e, fs_delete-delete_entry h) in
          rw (← same) (elim (Bool-cases (f == i)) [
            | inl q ↦ inr (ground arith)
            | inr ne ↦ inl (ground arith)
          ])
    ]

-- No branch of `fs_delete` changes whether a disk is mounted.
pub fs_delete-mounted :
    (name : Option CString) (s : State) {r : ℤ × State}
    → fs_delete name s ≡ some r
    → r.1.is_disk_mounted ≡ s.is_disk_mounted
unfolding fs_delete delete_entry
fs_delete-mounted none s e = ground arith
fs_delete-mounted (some name) s e = ground arith
