-- ===== src/Apps/Script/Lines.antt =====
-- However a script ends, the disk has been unmounted.
use ecs150_project.Apps.{argument, Ending, never_ends}
use ecs150_project.Apps.Desks.{
  command_of, do_seek, Step, ends, successful, do_umount, Line, do_read, do_open, size_of_int, Desk,
  do_close, goes, do_nothing, Session, do_delete, Command, do_create, do_write, do_mount,
}
use ecs150_project.Apps.Script.{
  run_line, on_status, end_script, thread_fs_script, run_read, run_command, run_write, run_lines,
}
use ecs150_project.Apps.Script.Unmounts.{
  IsClean, run_umount-IsClean, on_status-IsClean, with_data-IsClean, run_write-IsClean,
  run_mount-IsClean, IsCleanStep, run_open-IsClean, IsTracked, run_read-IsClean,
}
use ecs150_project.Apps.Text.{cut_newline, atoi, command_parts}
use ecs150_project.Fs.Descriptors.{fs_close, fs_lseek}
use ecs150_project.Fs.Directory.{fs_delete, fs_create}
use ecs150_project.Fs.Directory.Delete.Keeps.{fs_delete-mounted}
use ecs150_project.Fs.Names.{CString}
use ecs150_project.Fs.State.{State}
use ecs150_project.Fs.Usage.Mounted.{
  SameMounted-fs_create, fs_umount-unmounted, SameMounted-fs_lseek, fs_umount-zero,
  SameMounted-fs_close, SameMounted,
}
use ecs150_project.Prelude.{
  ◌≡◌, refl, sym, ◌∙◌, inl, inr, false, Option, none, some, List, [], ◌∷◌, ℤ, Bool-cases,
}

module _ (desk : Desk) where
  run_delete-IsClean :
      (args : List CString) (t : Session)
      → IsTracked t
      → IsCleanStep (run_command desk do_delete args t)
  unfolding run_command
  run_delete-IsClean args t h =
      by_result (fs_delete (argument args 0) t.fs)
        (λ r e. fs_delete-mounted (argument args 0) t.fs e)
    where
      by_result :
          (result : Option (ℤ × State))
          → ((r : ℤ × State) → result ≡ some r → SameMounted t.fs r.1)
          → IsCleanStep (elim result [
            | none ↦ ends never_ends
            | some r ↦ on_status desk "DELETE" "Cannot delete file" t r
          ])
      by_result none same = tt
      by_result (some r) same =
          on_status-IsClean desk "DELETE" "Cannot delete file" t r h (same r refl)

  -- every branch of the loop
  run_command-IsClean :
      (command : Command) (args : List CString) (t : Session)
      → IsTracked t
      → IsCleanStep (run_command desk command args t)
  unfolding run_command
  run_command-IsClean do_mount args t h = run_mount-IsClean desk t
  run_command-IsClean do_umount args t h =
      run_umount-IsClean desk "Cannot unmount" t
        (λ s. goes (record t { fs = s; mounted = false; out = successful "UMOUNT" ∷ t.out })) h
        (λ s idle. sym idle)
  run_command-IsClean do_create args t h =
      on_status-IsClean desk "CREATE" "Cannot create file" t (fs_create (argument args 0) t.fs) h
        (SameMounted-fs_create (argument args 0) t.fs)
  run_command-IsClean do_delete args t h = run_delete-IsClean args t h
  run_command-IsClean do_open args t h = run_open-IsClean desk (argument args 0) t h
  run_command-IsClean do_close args t h =
      on_status-IsClean desk "CLOSE" "Cannot close file" t (fs_close t.fs_fd t.fs) h
        (SameMounted-fs_close t.fs_fd t.fs)
  run_command-IsClean do_seek [] t h = tt
  run_command-IsClean do_seek (text ∷ args) t h =
      on_status-IsClean desk "SEEK" "Cannot seek to position" t
        (fs_lseek t.fs_fd (size_of_int (atoi text)) t.fs) h
        (SameMounted-fs_lseek t.fs_fd (size_of_int (atoi text)) t.fs)
  run_command-IsClean do_write args t h =
      with_data-IsClean desk "Could not find data to write" args t (λ bytes. run_write desk bytes t)
        (λ bytes. run_write-IsClean desk bytes t h)
  run_command-IsClean do_read [] t h = tt
  run_command-IsClean do_read (len ∷ args) t h =
      with_data-IsClean desk "Invalid data description" args t
        (λ bytes. run_read desk (atoi len) bytes t)
        (λ bytes. run_read-IsClean desk (atoi len) bytes t h)
  run_command-IsClean do_nothing args t h = h

  end_script-IsClean : (t : Session) → IsTracked t → IsClean (end_script desk t)
  unfolding end_script
  end_script-IsClean t h = elim (Bool-cases t.mounted) [
    | inl m ↦ rw (m, fs_umount-zero desk.host t.fs (sym h ∙ m)) (fs_umount-unmounted desk.host t.fs)
    | inr idle ↦ rw idle (sym h ∙ idle)
  ]

  run_line-IsClean :
      (parts : List CString) (rest : Session → Ending × List Line) (t : Session)
      → IsTracked t
      → ((t' : Session) → IsTracked t' → IsClean (rest t').0)
      → IsClean (run_line desk parts rest t).0
  unfolding run_line
  run_line-IsClean [] rest t h clean = end_script-IsClean t h
  run_line-IsClean (command ∷ args) rest t h clean =
      by_step (run_command desk (command_of command) args t)
        (run_command-IsClean (command_of command) args t h)
    where
      by_step :
          (step : Step)
          → IsCleanStep step
          → IsClean
              (elim step as (λ x. Ending × List Line) [ goes t' ↦ rest t' | ends e ↦ (e, t.out) ]).0
      by_step (goes t') tracked = clean t' tracked
      by_step (ends e) clean_end = clean_end

  run_lines-IsClean :
      (lines : List CString) (t : Session) → IsTracked t → IsClean (run_lines desk lines t).0
  unfolding run_lines
  run_lines-IsClean [] t h = end_script-IsClean t h
  run_lines-IsClean (line ∷ lines) t h =
      run_line-IsClean (command_parts (cut_newline line)) (λ t'. run_lines desk lines t') t h
        (λ t' tracked. run_lines-IsClean lines t' tracked)

  -- However a script ends that comes to an end, on any host, no disk is mounted then, unless the program
  -- has ended because `fs_mount` failed.
  pub thread_fs_script-IsClean :
      (lines : List CString) (s : State)
      → s.is_disk_mounted ≡ false
      → IsClean (thread_fs_script desk lines s).0
  unfolding thread_fs_script
  thread_fs_script-IsClean lines s idle = run_lines-IsClean lines _ (sym idle)
