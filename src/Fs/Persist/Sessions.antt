-- ===== src/Fs/Persist/Sessions.antt =====
-- Processes one after the other on the same disk: each mounts it, makes calls, and unmounts it.
use ecs150_project.Disk.State.{Host, IsReliable}
use ecs150_project.Fs.Descriptors.Count.{count_open-empty, IsCounted}
use ecs150_project.Fs.Layout.{IsWellFormed, Layout}
use ecs150_project.Fs.Layout.Counted.{IsCounted-Run}
use ecs150_project.Fs.Layout.Steps.{Call, Run, one_more, no_call, IsWellFormed-Run}
use ecs150_project.Fs.Mount.{fs_umount, fs_mount, Memory}
use ecs150_project.Fs.Mount.Remount.{fs_mount-saved}
use ecs150_project.Fs.Mount.Save.{fs_umount-saved_disk}
use ecs150_project.Fs.Names.{CString}
use ecs150_project.Fs.Persist.{booted, IsAmple, IsSavable, next_process, IsImage}
use ecs150_project.Fs.Persist.Files.{
  FilesKept, FilesKept-remounted, Layout-remounted, IsSavable-remounted,
}
use ecs150_project.Fs.Persist.Steps.{IsSavable-Run}
use ecs150_project.Fs.State.{open_max_count, State}
use ecs150_project.Prelude.{
  ℕ, ◌<◌, ◌≡◌, refl, sym, ap, ◌∙◌, inl, inr, none, some, List, arith, pos, ℤ, Option-cases, Bytes,
}
use mathlib.Core.Path.{subst}

-- What the next process finds of a disk that was saved.
pub record Reopened (file count : ℕ) (s s' : State) (blocks : ℕ → List ℕ) : Type 0 where
  pub savable : IsSavable file count s'
  pub layout : Layout s' blocks
  pub kept : FilesKept s s' blocks
  pub none_open : (k : ℕ) → k < open_max_count → s'.open_files k ≡ none
  pub none_counted : s'.num_open_files ≡ 0

module _ (host : Host) (good : IsReliable host) {file count : ℕ} where
  -- On a reliable host and with enough memory, `fs_umount` of a well-formed disk that can be saved and
  -- `fs_mount` in another process both return 0. The other process finds every file of the root
  -- directory under its name, with its size, its blocks and the bytes in them, and none of them open.
  pub next_process-Reopened :
      (mem : Memory) (name : CString) (t : State) {s : State} {blocks : ℕ → List ℕ}
      → IsAmple mem
      → IsImage host file count name
      → IsSavable file count s
      → Layout s blocks
      → (s' : State) × (next_process host mem name t s ≡ (pos 0, pos 0, s'))
        × Reopened file count s s' blocks
  unfolding next_process
  next_process-Reopened mem name t {s} {blocks} ample image h l = elim (Option-cases mem.new_sb) [
    | inl e ↦ absurd (ground (arith, ample.new_sb))
    | inr (sb0, has_sb) ↦ elim (Option-cases mem.new_fat) [
      | inl e ↦ absurd (ground (arith, ample.new_fat))
      | inr (fat0, has_fat) ↦
          let saved = fs_umount-saved_disk host good h.formatted h.opened in
          let (s', e, r, same) =
            fs_mount-saved host good h.formatted h.opened mem
              (booted t (fs_umount host s).1.disk.files) has_sb has_fat ample.new_file name
              image.opens (rw h.bcount image.size) refl refl refl l.mark in
          (
            s',
            ground (arith, e, saved),
            record {
              savable = IsSavable-remounted h l r;
              layout = Layout-remounted h l r;
              kept = FilesKept-remounted h l r;
              none_open = r.closed_files;
              none_counted = same;
            },
          )
    ]
  ]

-- the mount in it
pub next_process-fs_mount :
    (host : Host) (mem : Memory) (name : CString) (t s : State) {s' : State} {r r' : ℤ}
    → next_process host mem name t s ≡ (r, r', s')
    → fs_mount host mem (some name) (booted t (fs_umount host s).1.disk.files) ≡ (r', s')
unfolding next_process
next_process-fs_mount host mem name t s e = ap (λ w. (w.1, w.2)) e

-- States of the file system that processes reach one after the other. The last process has mounted the
-- disk and may have made calls.
pub data History (host : Host) (bounce : Bytes) (file count : ℕ) : State → State → Type 0 where
  no_step : (s : State) → History host bounce file count s s
  one_call :
      (s s' s'' : State)
      → History host bounce file count s s'
      → Call host bounce s' s''
      → History host bounce file count s s''
  one_process :
      (mem : Memory) (name : CString) (t s s' s'' : State) (r r' : ℤ)
      → History host bounce file count s s'
      → IsAmple mem
      → IsImage host file count name
      → next_process host mem name t s' ≡ (r, r', s'')
      → History host bounce file count s s''

-- What the states have in common.
pub record IsIntact (file count : ℕ) (s : State) : Type 0 where
  pub well_formed : IsWellFormed s
  pub savable : IsSavable file count s
  pub counted : IsCounted s

IsCounted-Reopened :
    {file count : ℕ} {s s' : State} {blocks : ℕ → List ℕ}
    → Reopened file count s s' blocks
    → IsCounted s'
IsCounted-Reopened {s'} r = record {
  counted = r.none_counted ∙ sym (count_open-empty open_max_count s'.open_files r.none_open);
}

-- Over any number of processes on a reliable host, each with calls of any kind (of the deletions that
-- succeed, those of files of at most one block), `fs_umount` and `fs_mount` with enough memory, the
-- state stays well-formed and fit to be saved, and the count of open files is right.
pub IsIntact-History :
    {host : Host} {bounce : Bytes} {file count : ℕ} {s s' : State}
    → IsReliable host
    → History host bounce file count s s'
    → IsIntact file count s
    → IsIntact file count s'
IsIntact-History good (no_step s) i = i
IsIntact-History good (one_call s s' s'' before call) i =
    let j = IsIntact-History good before i in
    let run : Run _ _ s' s'' = one_more s' s' s'' (no_call s') call in
    record {
      well_formed = IsWellFormed-Run run j.well_formed;
      savable = IsSavable-Run run j.well_formed j.savable;
      counted = (IsCounted-Run run j.counted).0;
    }
IsIntact-History {host} {file} {count} good
      (one_process mem name t s s' s'' r r' before ample image e) i =
    let j = IsIntact-History good before i in
    let (blocks, l) = j.well_formed in
    let (u, e', o) = next_process-Reopened host good mem name t ample image j.savable l in
    let same : u ≡ s'' = ap (λ q. q.2) (sym e' ∙ e) in
    subst (IsIntact file count) same (record {
      well_formed = (blocks, o.layout);
      savable = o.savable;
      counted = IsCounted-Reopened o;
    })
