-- ===== src/Apps/Tool/Main.antt =====
-- `cat`, and `main` of apps/test_fs.c: when the disk has been unmounted at the end.
use ecs150_project.Apps.{crashed, finished}
use ecs150_project.Apps.Desks.{Desk, unmount_and_die}
use ecs150_project.Apps.Text.{same_text, literal}
use ecs150_project.Apps.Tool.{
  cat_end, commands, run_func, mount_then, thread_fs_cat, content_report, empty_report, open_then,
  quietly, close_then, Extras, CommandResult, test_fs,
}
use ecs150_project.Apps.Tool.Commands.{
  thread_fs_add-EndsClean, thread_fs_stat-EndsClean, thread_fs_info-EndsClean,
  script_command-ScriptEnd, thread_fs_ls-EndsClean, thread_fs_rm-EndsClean,
}
use ecs150_project.Apps.Tool.Unmounts.{
  close_then-EndsClean, LeftMounted, mount_then-ends, EndsClean, open_then-ends,
}
use ecs150_project.Fs.Calls.{fs_read}
use ecs150_project.Fs.Descriptors.{fs_stat, fs_open}
use ecs150_project.Fs.Mount.{fs_mount}
use ecs150_project.Fs.Mount.Errors.{fs_mount-mounted}
use ecs150_project.Fs.Names.{CString}
use ecs150_project.Fs.Persist.Savable.{Unmoved-fs_open}
use ecs150_project.Fs.State.{State}
use ecs150_project.Fs.Usage.Mounted.{SameMounted-fs_open, SameMounted-fs_read, fs_umount-unmounted}
use ecs150_project.Prelude.{
  ℕ, zero, suc, ◌≡◌, refl, sym, ap, ◌∙◌, ◌⊎◌, inl, inr, true, false, Option, none, some, List, [],
  ◌∷◌, arith, Bool-cases, pos, ℤ, negsuc, Bytes,
}

module _ (desk : Desk) (extras : Extras) where
  -- A clean end, or `cat` of an empty file.
  abbrev CatEnd : CommandResult → Type 0
  CatEnd r = EndsClean r ⊎ LeftMounted r

  cat_end-CatEnd :
      (stat fd : ℤ) (s : State) → s.is_disk_mounted ≡ true → CatEnd (cat_end desk extras stat fd s)
  unfolding cat_end
  cat_end-CatEnd (negsuc n) fd s m = inl (inr (fs_umount-unmounted desk.host s))
  cat_end-CatEnd (pos zero) fd s m = inr (s, refl, m)
  cat_end-CatEnd (pos (suc n)) fd s m = inl (by_buffer extras.new_buffer)
    where
      by_buffer :
          (b : Option Bytes)
          → EndsClean (elim b [
            | none ↦ quietly (unmount_and_die desk.host "Cannot malloc" s)
            | some buf ↦
                let (read, buf', s1) =
                  fs_read desk.host desk.process.bounce fd (some buf) (suc n) s in
                close_then desk extras "cannot unmount diskname" fd s1
                  (content_report read (pos (suc n)) buf' ∷ [])
          ])
      by_buffer none = inr (fs_umount-unmounted desk.host s)
      by_buffer (some buf) =
          close_then-EndsClean desk extras "cannot unmount diskname" fd
            (fs_read desk.host desk.process.bounce fd (some buf) (suc n) s).2 _
            (SameMounted-fs_read desk.host desk.process.bounce fd (some buf) (suc n) s ∙ m)

  thread_fs_cat-CatEnd :
      (args : List CString) (s : State)
      → s.is_disk_mounted ≡ false
      → CatEnd (thread_fs_cat desk extras args s)
  unfolding thread_fs_cat
  thread_fs_cat-CatEnd [] s idle = inl (inr idle)
  thread_fs_cat-CatEnd (_ ∷ []) s idle = inl (inr idle)
  thread_fs_cat-CatEnd (diskname ∷ filename ∷ args) s idle =
      let after_open : ℤ → State → CommandResult =
        λ fd s2. cat_end desk extras (fs_stat fd s2) fd s2 in
      mount_then-ends desk extras CatEnd (λ r c. inl c) diskname s
        (λ s1. open_then desk extras filename s1 after_open)
        (λ s1 m.
          open_then-ends desk extras CatEnd (λ r c. inl c) filename s1 after_open m
            (λ fd s2 m2. cat_end-CatEnd (fs_stat fd s2) fd s2 m2))

  -- Started with no disk mounted, apps/test_fs.c ends with no disk mounted, or because `fs_mount` failed,
  -- or a call of the library does not return; whatever the host, the disk and the command line are. There
  -- are two exceptions: `cat` of an empty file can return with the disk mounted, and a script can follow
  -- a NULL pointer.
  pub test_fs-EndsClean :
      (program cmd : CString) (args : List CString) (s : State)
      → s.is_disk_mounted ≡ false
      → let r = test_fs desk extras (program ∷ cmd ∷ args) s in
        EndsClean r
        ⊎ (((same_text cmd (literal "cat") ≡ true) × LeftMounted r)
            ⊎ ((same_text cmd (literal "script") ≡ true) × (r.0 ≡ crashed)))
  unfolding test_fs commands run_func
  test_fs-EndsClean program cmd args s idle = (elim (Bool-cases (same_text cmd (literal "info"))) [
    | inl e ↦ rw e (inl (thread_fs_info-EndsClean desk extras args s idle))
    | inr n ↦ rw n (
        (elim (Bool-cases (same_text cmd (literal "ls"))) [
          | inl e ↦ rw e (inl (thread_fs_ls-EndsClean desk extras args s idle))
          | inr n ↦ rw n (
              (elim (Bool-cases (same_text cmd (literal "add"))) [
                | inl e ↦ rw e (inl (thread_fs_add-EndsClean desk extras args s idle))
                | inr n ↦ rw n (
                    (elim (Bool-cases (same_text cmd (literal "rm"))) [
                      | inl e ↦ rw e (inl (thread_fs_rm-EndsClean desk extras args s idle))
                      | inr n ↦ rw n (
                          (elim (Bool-cases (same_text cmd (literal "cat"))) [
                            | inl e ↦ rw e (elim (thread_fs_cat-CatEnd args s idle) [
                              | inl c ↦ inl c
                              | inr l ↦ inr (inl (refl, l))
                            ])
                            | inr n ↦ rw n (
                                (elim (Bool-cases (same_text cmd (literal "stat"))) [
                                  | inl e ↦
                                      rw e (inl (thread_fs_stat-EndsClean desk extras args s idle))
                                  | inr n ↦ rw n (
                                      (elim (Bool-cases (same_text cmd (literal "script"))) [
                                        | inl e ↦
                                            rw e
                                              (elim (script_command-ScriptEnd desk extras args s
                                                idle) [
                                                  | inl c ↦ inl c
                                                  | inr k ↦ inr (inr (refl, k))
                                                ])
                                        | inr n ↦ rw n (inl (inr idle))
                                      ]))
                                ]))
                          ]))
                    ]))
              ]))
        ]))
  ])

-- `cat` of an empty file: where `fs_mount` and `fs_open` succeed and `fs_stat` returns 0, the process returns
-- with the disk mounted and the file open, and nothing is saved.
pub test_fs-LeftMounted :
    (desk : Desk) (extras : Extras) (program diskname filename : CString) (args : List CString)
    (s s1 s2 : State) (fd : ℕ)
    → fs_mount desk.host desk.process.memory (some diskname) s ≡ (pos 0, s1)
    → fs_open desk.process.malloc_ok (some filename) s1 ≡ (pos fd, s2)
    → fs_stat (pos fd) s2 ≡ pos 0
    → let r = test_fs desk extras (program ∷ literal "cat" ∷ diskname ∷ filename ∷ args) s in
      (r ≡ (finished s2, empty_report ∷ []))
      × (s2.is_disk_mounted ≡ true)
      × (s2.disk.files ≡ s1.disk.files)
unfolding test_fs thread_fs_cat cat_end mount_then open_then
test_fs-LeftMounted desk extras program diskname filename args s s1 s2 fd mounts opens empty =
    let is_mounted : s1.is_disk_mounted ≡ true =
      ap (λ r. r.1.is_disk_mounted) (sym mounts)
      ∙ fs_mount-mounted desk.host desk.process.memory (some diskname) s (ap (λ r. r.0) mounts) in
    (
      ground (arith, mounts, opens, empty),
      ap (λ r. r.1.is_disk_mounted) (sym opens)
          ∙ (SameMounted-fs_open desk.process.malloc_ok (some filename) s1 ∙ is_mounted),
      ap (λ r. r.1.disk.files) (sym opens)
          ∙ ap (λ d. d.files) (Unmoved-fs_open desk.process.malloc_ok filename s1).disk,
    )
