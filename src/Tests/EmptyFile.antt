-- ===== src/Tests/EmptyFile.antt =====
-- apps/test_fs.c on the formatted disk of `Mounts` with an empty file "d" on it.
use ecs150_project.Apps.{finished}
use ecs150_project.Apps.Text.{literal}
use ecs150_project.Apps.Tool.{empty_report, test_fs}
use ecs150_project.Apps.Tool.Main.{test_fs-LeftMounted}
use ecs150_project.Fs.Descriptors.{fs_open, fs_stat}
use ecs150_project.Fs.Directory.{fs_create}
use ecs150_project.Fs.Mount.{fs_umount}
use ecs150_project.Fs.Names.{strcmp_eq, write_name, is_filename_invalid, CString}
use ecs150_project.Fs.Persist.{next_process, booted}
use ecs150_project.Fs.Persist.Sessions.{
  next_process-fs_mount, IsIntact-History, next_process-Reopened,
}
use ecs150_project.Fs.Root.{IsFirstNamed, find_matching_filename, find_empty_root_entry}
use ecs150_project.Fs.State.{file_max_count, State, filename_len}
use ecs150_project.Fs.Usage.Content.{fs_stat-IsOpenAt}
use ecs150_project.Fs.Usage.Succeeds.{fs_open-OpenedAt, OpenedAt-IsOpenAt}
use ecs150_project.Prelude.{
  ℕ, ◌<◌, ◌≡◌, refl, ap, ◌∙◌, true, false, none, some, [], ◌∷◌, arith, pos,
}
use ecs150_project.Prelude.Lists.{length}
use ecs150_project.Prelude.Search.{find_first}
use ecs150_project.Tests.Demo.{host-IsReliable, name_c, zeros, host, name_d}
use ecs150_project.Tests.Mounts.{memory, unmounted_state}
use ecs150_project.Tests.Processes.{
  memory-IsAmple, image, created-History, created, formatted-IsIntact,
}
use ecs150_project.Tests.Programs.{desk, extras}

-- the process that has mounted that disk
mounted :
    (s1 : State) × (next_process host memory name_d unmounted_state created ≡ (pos 0, pos 0, s1))
    × ((name : CString) (f : ℕ)
        → length name < filename_len
        → IsFirstNamed name created.root f
        → IsFirstNamed name s1.root f)
    × ((f : ℕ) → f < file_max_count → (s1.root f).file_size ≡ (created.root f).file_size)
    × (s1.is_disk_mounted ≡ true)
    × (s1.num_open_files ≡ 0)
    × (s1.open_files 0 ≡ none)
mounted =
    let i = IsIntact-History {bounce = zeros} host-IsReliable created-History formatted-IsIntact in
    let (blocks, l) = i.well_formed in
    let (s1, e, o) =
      next_process-Reopened host host-IsReliable memory name_d unmounted_state memory-IsAmple image
        i.savable l in
    (
      s1,
      e,
      o.kept.found,
      o.kept.size,
      o.savable.formatted.mounted,
      o.none_counted,
      o.none_open 0 (omega arith),
    )

created-named : IsFirstNamed name_d created.root 2
unfolding fs_create is_filename_invalid find_matching_filename find_empty_root_entry find_first
    strcmp_eq write_name
created-named = record { in_range = omega arith; named = refl; first = λ k lt. ground arith }

created-empty : (created.root 2).file_size ≡ 0
unfolding fs_create is_filename_invalid find_matching_filename find_empty_root_entry find_first
    strcmp_eq
created-empty = refl

name_d-valid : is_filename_invalid (some name_d) ≡ false
unfolding is_filename_invalid
name_d-valid = refl

-- the file opened in it
opened_empty :
    (fd : ℕ) × (s2 : State) × (fs_open true (some name_d) mounted.0 ≡ (pos fd, s2))
    × (fs_stat (pos fd) s2 ≡ pos 0)
opened_empty =
    let (s1, e, found, size, m, count, slot) = mounted in
    let first = found name_d 2 (omega arith) created-named in
    let (fd, s2, opens, o) =
      fs_open-OpenedAt {s = s1} 2 0 m name_d-valid first (omega (arith, count)) (omega arith)
        slot in
    let is_empty : (s2.root 2).file_size ≡ 0 =
      ap (λ s. (s.root 2).file_size) o.after ∙ (size 2 (omega arith) ∙ created-empty) in
    (
      fd,
      s2,
      opens,
      fs_stat-IsOpenAt (OpenedAt-IsOpenAt first o) (omega (arith, is_empty)) ∙ ap pos is_empty,
    )

-- `test_fs.x cat d d`
test_fs-LeftMounted_example :
    let r =
      test_fs desk extras
        (name_c ∷ literal "cat" ∷ name_d ∷ name_d ∷ [])
        (booted unmounted_state (fs_umount host created).1.disk.files) in
    (r ≡ (finished opened_empty.1, empty_report ∷ []))
    × (opened_empty.1.is_disk_mounted ≡ true)
    × (opened_empty.1.disk.files ≡ mounted.0.disk.files)
test_fs-LeftMounted_example =
    test_fs-LeftMounted desk extras name_c name_d name_d []
      (booted unmounted_state (fs_umount host created).1.disk.files) mounted.0 opened_empty.1
      opened_empty.0 (next_process-fs_mount host memory name_d unmounted_state created mounted.1)
      opened_empty.2 opened_empty.3
