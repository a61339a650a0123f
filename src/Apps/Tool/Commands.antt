-- ===== src/Apps/Tool/Commands.antt =====
-- However a command of apps/test_fs.c other than `cat` ends, the disk has been unmounted.
use ecs150_project.Apps.{exited, never_ends}
use ecs150_project.Apps.Desks.{
  Desk, regular, unmount_and_die, HostFile, no_stat, not_regular, no_file,
}
use ecs150_project.Apps.Script.{thread_fs_script}
use ecs150_project.Apps.Script.Lines.{thread_fs_script-IsClean}
use ecs150_project.Apps.Text.{fgets_lines}
use ecs150_project.Apps.Tool.{
  stat_end, rm_end, add_write, add_file, listed_report, script_report, thread_fs_stat,
  removed_report, added_report, script_command, quietly, thread_fs_add, unmount_then, info_report,
  CommandResult, thread_fs_rm, Extras, thread_fs_info, open_then, thread_fs_ls, close_then,
}
use ecs150_project.Apps.Tool.Unmounts.{
  mount_then-ends, close_then-EndsClean, ScriptEnd, open_then-ends, unmount_then-EndsClean,
  EndsClean, clean_or_crashed,
}
use ecs150_project.Fs.Calls.{fs_write}
use ecs150_project.Fs.Calls.Slots.{fs_write-mounted}
use ecs150_project.Fs.Descriptors.{fs_close, fs_stat}
use ecs150_project.Fs.Directory.{fs_info, fs_ls, fs_delete, fs_create}
use ecs150_project.Fs.Directory.Delete.Keeps.{fs_delete-mounted}
use ecs150_project.Fs.Names.{c_str, CString}
use ecs150_project.Fs.State.{State}
use ecs150_project.Fs.Transfer.Read.{content}
use ecs150_project.Fs.Usage.Mounted.{SameMounted-fs_create, fs_umount-unmounted, SameMounted}
use ecs150_project.Prelude.{
  ℕ, ◌≡◌, refl, ◌∙◌, inl, inr, true, false, Option, none, some, List, [], ◌∷◌, Bool-cases,
  if◌then◌else◌, is_zero, ℤ, pos, ◌==◌, negsuc,
}
use ecs150_project.Prelude.Lists.{length}

module _ (desk : Desk) (extras : Extras) where
  stat_end-EndsClean :
      (stat fd : ℤ) (s : State)
      → s.is_disk_mounted ≡ true
      → EndsClean (stat_end desk extras stat fd s)
  unfolding stat_end
  stat_end-EndsClean (negsuc n) fd s m = inr (fs_umount-unmounted desk.host (fs_close fd s).1)
  stat_end-EndsClean (pos n) fd s m = elim (Bool-cases (n == 0)) [
    | inl e ↦ rw e (fs_umount-unmounted desk.host (fs_close fd s).1)
    | inr ne ↦ rw ne (close_then-EndsClean desk extras "cannot unmount diskname" fd s _ m)
  ]

  pub thread_fs_stat-EndsClean :
      (args : List CString) (s : State)
      → s.is_disk_mounted ≡ false
      → EndsClean (thread_fs_stat desk extras args s)
  unfolding thread_fs_stat
  thread_fs_stat-EndsClean [] s idle = inr idle
  thread_fs_stat-EndsClean (_ ∷ []) s idle = inr idle
  thread_fs_stat-EndsClean (diskname ∷ filename ∷ args) s idle =
      let after_open : ℤ → State → CommandResult =
        λ fd s2. stat_end desk extras (fs_stat fd s2) fd s2 in
      mount_then-ends desk extras EndsClean (λ r c. c) diskname s
        (λ s1. open_then desk extras filename s1 after_open)
        (λ s1 m.
          open_then-ends desk extras EndsClean (λ r c. c) filename s1 after_open m
            (λ fd s2 m2. stat_end-EndsClean (fs_stat fd s2) fd s2 m2))

  rm_end-EndsClean :
      (filename : CString) (s : State)
      → s.is_disk_mounted ≡ true
      → EndsClean (rm_end desk extras filename s)
  unfolding rm_end
  rm_end-EndsClean filename s m =
      by_result (fs_delete (some filename) s) (λ r e. fs_delete-mounted (some filename) s e)
    where
      by_result :
          (result : Option (ℤ × State))
          → ((r : ℤ × State) → result ≡ some r → SameMounted s r.1)
          → EndsClean (elim result [
            | none ↦ quietly never_ends
            | some (r, s1) ↦
                if is_zero r
                then unmount_then desk extras "Cannot unmount diskname" s1 (removed_report ∷ [])
                else quietly (unmount_and_die desk.host "Cannot delete file" s1)
          ])
      by_result none same = tt
      by_result (some (r, s1)) same = elim (Bool-cases (is_zero r)) [
        | inl ok ↦ rw ok (
            unmount_then-EndsClean desk extras "Cannot unmount diskname" s1 (removed_report ∷ [])
              (same (r, s1) refl ∙ m))
        | inr bad ↦ rw bad (inr (fs_umount-unmounted desk.host s1))
      ]

  pub thread_fs_rm-EndsClean :
      (args : List CString) (s : State)
      → s.is_disk_mounted ≡ false
      → EndsClean (thread_fs_rm desk extras args s)
  unfolding thread_fs_rm
  thread_fs_rm-EndsClean [] s idle = inr idle
  thread_fs_rm-EndsClean (_ ∷ []) s idle = inr idle
  thread_fs_rm-EndsClean (diskname ∷ filename ∷ args) s idle =
      mount_then-ends desk extras EndsClean (λ r c. c) diskname s
        (λ s1. rm_end desk extras filename s1) (λ s1 m. rm_end-EndsClean filename s1 m)

  add_write-EndsClean :
      (bytes : List ℕ) (fd : ℤ) (s : State)
      → s.is_disk_mounted ≡ true
      → EndsClean (add_write desk extras bytes fd s)
  unfolding add_write
  add_write-EndsClean bytes fd s m =
      by_result (fs_write desk.host desk.process.bounce fd (some (c_str bytes)) (length bytes) s)
        (λ r e.
          fs_write-mounted desk.host desk.process.bounce fd (some (c_str bytes)) (length bytes) s e)
    where
      by_result :
          (result : Option (ℤ × State))
          → ((r : ℤ × State) → result ≡ some r → SameMounted s r.1)
          → EndsClean (elim result [
            | none ↦ quietly never_ends
            | some (written, s1) ↦
                close_then desk extras "Cannot unmount diskname" fd s1
                  (added_report written (length bytes) ∷ [])
          ])
      by_result none same = tt
      by_result (some (written, s1)) same =
          close_then-EndsClean desk extras "Cannot unmount diskname" fd s1 _
            (same (written, s1) refl ∙ m)

  -- `thread_fs_add` behind its mount
  added : CString → List ℕ → State → CommandResult
  added filename bytes s1 =
      let (r, s2) = fs_create (some filename) s1 in
      if is_zero r
      then open_then desk extras filename s2 (λ fd s3. add_write desk extras bytes fd s3)
      else quietly (unmount_and_die desk.host "Cannot create file" s2)

  added-EndsClean :
      (filename : CString) (bytes : List ℕ) (s : State)
      → s.is_disk_mounted ≡ true
      → EndsClean (added filename bytes s)
  unfolding added
  added-EndsClean filename bytes s m =
      let r = fs_create (some filename) s in
      elim (Bool-cases (is_zero r.0)) [
        | inl ok ↦ rw ok (
            open_then-ends desk extras EndsClean (λ r c. c) filename r.1
              (λ fd s3. add_write desk extras bytes fd s3)
              (SameMounted-fs_create (some filename) s ∙ m)
              (λ fd s3 m3. add_write-EndsClean bytes fd s3 m3))
        | inr bad ↦ rw bad (inr (fs_umount-unmounted desk.host r.1))
      ]

  pub thread_fs_add-EndsClean :
      (args : List CString) (s : State)
      → s.is_disk_mounted ≡ false
      → EndsClean (thread_fs_add desk extras args s)
  unfolding thread_fs_add add_file added
  thread_fs_add-EndsClean [] s idle = inr idle
  thread_fs_add-EndsClean (_ ∷ []) s idle = inr idle
  thread_fs_add-EndsClean (diskname ∷ filename ∷ args) s idle = by_file (desk.file_at filename)
    where
      by_file :
          (f : HostFile)
          → EndsClean (elim f [
            | no_file ↦ quietly (exited "open" s)
            | no_stat ↦ quietly (exited "fstat" s)
            | not_regular ↦ quietly (exited "Not a regular file" s)
            | regular bytes ↦ add_file desk extras diskname filename bytes s
          ])
      by_file no_file = inr idle
      by_file no_stat = inr idle
      by_file not_regular = inr idle
      by_file (regular bytes) =
          mount_then-ends desk extras EndsClean (λ r c. c) diskname s (added filename bytes)
            (λ s1 m. added-EndsClean filename bytes s1 m)

  pub thread_fs_ls-EndsClean :
      (args : List CString) (s : State)
      → s.is_disk_mounted ≡ false
      → EndsClean (thread_fs_ls desk extras args s)
  unfolding thread_fs_ls
  thread_fs_ls-EndsClean [] s idle = inr idle
  thread_fs_ls-EndsClean (diskname ∷ args) s idle =
      mount_then-ends desk extras EndsClean (λ r c. c) diskname s
        (λ s1.
          unmount_then desk extras "Cannot unmount diskname" s1 (listed_report (fs_ls s1).1 ∷ []))
        (λ s1 m. unmount_then-EndsClean desk extras "Cannot unmount diskname" s1 _ m)

  pub thread_fs_info-EndsClean :
      (args : List CString) (s : State)
      → s.is_disk_mounted ≡ false
      → EndsClean (thread_fs_info desk extras args s)
  unfolding thread_fs_info
  thread_fs_info-EndsClean [] s idle = inr idle
  thread_fs_info-EndsClean (diskname ∷ args) s idle =
      mount_then-ends desk extras EndsClean (λ r c. c) diskname s
        (λ s1.
          unmount_then desk extras "Cannot unmount diskname" s1 (info_report (fs_info s1) ∷ []))
        (λ s1 m. unmount_then-EndsClean desk extras "Cannot unmount diskname" s1 _ m)

  pub script_command-ScriptEnd :
      (args : List CString) (s : State)
      → s.is_disk_mounted ≡ false
      → ScriptEnd (script_command desk extras args s)
  unfolding script_command
  script_command-ScriptEnd [] s idle = inl (inr idle)
  script_command-ScriptEnd (_ ∷ []) s idle = inl (inr idle)
  script_command-ScriptEnd (diskname ∷ script ∷ args) s idle = by_lines (extras.script_at script)
    where
      desk' : Desk
      desk' = record desk { diskname = diskname }

      by_lines :
          (found : Option CString)
          → ScriptEnd (elim found [
            | none ↦ quietly (exited "fopen" s)
            | some content ↦
                let (e, out) = thread_fs_script desk' (fgets_lines content) s in
                (e, script_report out ∷ [])
          ])
      by_lines none = inl (inr idle)
      by_lines (some content) =
          clean_or_crashed _ (thread_fs_script desk' (fgets_lines content) s).0
            (thread_fs_script-IsClean desk' (fgets_lines content) s idle)
