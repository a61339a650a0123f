-- ===== src/Apps/Script.antt =====
-- `thread_fs_script` of apps/test_fs.c: a script of commands on one disk, in one process.
-- A line is what one `fgets` has read. A line with four parts makes the loop over `strtok` write one pointer behind the end of `command_args`,
-- which is not represented. A part that is missing is NULL; the pointers that lines before have left are
-- not looked at before a NULL is followed. `calloc` and `mmap` succeed.
pub mod Unmounts
pub mod Lines
pub mod Answers
pub mod Whole
use ecs150_project.Apps.{exited, is_nonneg, argument, crashed, Ending, finished, never_ends}
use ecs150_project.Apps.Desks.{
  successful, not_regular, Line, zeroed, unmount_and_die, no_file, memcmp_eq, unexpected,
  do_nothing, Session, do_mount, do_delete, regular, do_open, Command, do_create, do_close, Desk,
  do_seek, no_stat, do_read, Step, ends, command_of, compared, goes, size_of_int, do_write, wrote,
  do_umount,
}
use ecs150_project.Apps.Text.{command_parts, same_text, cut_newline, atoi, literal}
use ecs150_project.Fs.Calls.{fs_read, fs_write}
use ecs150_project.Fs.Descriptors.{fs_lseek, fs_open, fs_close}
use ecs150_project.Fs.Directory.{fs_create, fs_delete}
use ecs150_project.Fs.Directory.Create.{invalid}
use ecs150_project.Fs.Mount.{fs_umount, fs_mount}
use ecs150_project.Fs.Names.{c_str, CString}
use ecs150_project.Fs.State.{State}
use ecs150_project.Prelude.{
  ℕ, ◌+◌, true, false, not, Option, none, some, List, [], ◌∷◌, failure, if◌then◌else◌, ℤ, is_zero,
  negsuc, pos, Bytes,
}
use ecs150_project.Prelude.Lists.{length}
use Prim.Native.String.{String}

module _ (desk : Desk) where
  pub fail : String → Session → Step
  fail message t = ends (unmount_and_die desk.host message t.fs)

  -- The data that a WRITE or READ names, with its size: a part of the line, or a file of the host.
  pub with_file : CString → Session → (List ℕ → Step) → Step
  unfolding fail
  with_file path t use_data = elim (desk.file_at path) [
    | no_file ↦ fail "open" t
    | no_stat ↦ fail "fstat" t
    | not_regular ↦ fail "Not a regular file" t
    | regular bytes ↦ use_data bytes
  ]

  pub with_data : String → List CString → Session → (List ℕ → Step) → Step
  unfolding with_file fail
  with_data message args t use_data = elim (argument args 0) [
    | none ↦ ends crashed
    | some data_source ↦
        if same_text data_source (literal "DATA")
        then elim (argument args 1) [ none ↦ ends crashed | some text ↦ use_data text ]
        else if same_text data_source (literal "FILE")
        then elim (argument args 1) [ none ↦ fail "open" t | some path ↦ with_file path t use_data ]
        else fail message t
  ]

  pub run_write : List ℕ → Session → Step
  unfolding fail
  run_write bytes t =
      elim (fs_write desk.host desk.process.bounce t.fs_fd (some (c_str bytes)) (length bytes)
        t.fs) [
          | none ↦ ends never_ends
          | some (count, s) ↦
              if is_nonneg count
              then goes (record t { fs = s; out = wrote count ∷ t.out })
              else fail "write error" (record t { fs = s })
        ]

  -- what a READ prints: whether the buffer has the data, and the NUL behind it
  comparison : ℤ → Option Bytes → List ℕ → Line
  comparison count none bytes = unexpected
  comparison count (some buf) bytes =
      if memcmp_eq (length bytes + 1) (c_str bytes) buf
      then compared count (length bytes)
      else unexpected

  pub run_read : ℤ → List ℕ → Session → Step
  unfolding fail comparison
  run_read (negsuc n) bytes t = fail "invalid data read length" t
  run_read (pos n) bytes t =
      let (count, buf, s) =
        fs_read desk.host desk.process.bounce t.fs_fd (some (zeroed (n + 1) desk.process.stack)) n
          t.fs in
      if is_nonneg count
      then goes (record t { fs = s; out = comparison count buf bytes ∷ t.out })
      else fail "read error" (record t { fs = s })

  -- A command whose call returns a status, with what it prints.
  pub on_status : String → String → Session → ℤ × State → Step
  unfolding fail
  on_status name message t (r, s) =
      if is_zero r
      then goes (record t { fs = s; out = successful name ∷ t.out })
      else fail message (record t { fs = s })

  pub run_open : Option CString → Session → Step
  unfolding fail
  run_open name t =
      let (fd, s) = fs_open desk.process.malloc_ok name t.fs in
      if is_nonneg fd
      then goes (record t { fs = s; fs_fd = fd; out = successful "OPEN" ∷ t.out })
      else fail "Cannot open file" (record t { fs = s; fs_fd = fd })

  pub run_mount : Session → Step
  run_mount t =
      let (r, s) = fs_mount desk.host desk.process.memory (some desk.diskname) t.fs in
      if is_zero r
      then goes (record t { fs = s; mounted = true; out = successful "MOUNT" ∷ t.out })
      else ends (exited "Cannot mount disk" s)

  -- `if (mounted && fs_umount()) die(message)`
  pub unmounted_then : String → Session → (State → Step) → Step
  unmounted_then message t next =
      if t.mounted
      then (let (r, s) = fs_umount desk.host t.fs in
          if is_zero r then next s else ends (exited message s))
      else next t.fs

  -- The branch of the loop for one command. `args` are the parts behind it.
  unfoldable pub run_command : Command → List CString → Session → Step
  unfolding with_data with_file run_write run_read on_status run_open run_mount unmounted_then fail
      comparison
  run_command do_mount args t = run_mount t
  run_command do_umount args t =
      unmounted_then "Cannot unmount" t
        (λ s. goes (record t { fs = s; mounted = false; out = successful "UMOUNT" ∷ t.out }))
  run_command do_create args t =
      on_status "CREATE" "Cannot create file" t (fs_create (argument args 0) t.fs)
  run_command do_delete args t = elim (fs_delete (argument args 0) t.fs) [
    | none ↦ ends never_ends
    | some r ↦ on_status "DELETE" "Cannot delete file" t r
  ]
  run_command do_open args t = run_open (argument args 0) t
  run_command do_close args t = on_status "CLOSE" "Cannot close file" t (fs_close t.fs_fd t.fs)
  run_command do_seek args t = elim (argument args 0) [
    | none ↦ ends crashed
    | some text ↦
        on_status "SEEK" "Cannot seek to position" t
          (fs_lseek t.fs_fd (size_of_int (atoi text)) t.fs)
  ]
  run_command do_write args t =
      with_data "Could not find data to write" args t (λ bytes. run_write bytes t)
  run_command do_read [] t = ends crashed
  run_command do_read (len ∷ args) t =
      with_data "Invalid data description" args t (λ bytes. run_read (atoi len) bytes t)
  run_command do_nothing args t = goes t

  -- The end of the script.
  unfoldable pub end_script : Session → Ending
  end_script t =
      if t.mounted
      then (let (r, s) = fs_umount desk.host t.fs in
          if is_zero r then finished s else exited "Cannot unmount diskname" s)
      else finished t.fs

  -- One line of the script, with the rest of the loop. A line without a command ends it.
  run_line : List CString → (Session → Ending × List Line) → Session → Ending × List Line
  unfolding run_command end_script
  run_line [] rest t = (end_script t, t.out)
  run_line (command ∷ args) rest t = elim (run_command (command_of command) args t) [
    | goes t' ↦ rest t'
    | ends e ↦ (e, t.out)
  ]

  -- The loop over what `fgets` returns.
  unfoldable pub run_lines : List CString → Session → Ending × List Line
  unfolding run_line
  run_lines [] t = (end_script t, t.out)
  run_lines (line ∷ lines) t =
      run_line (command_parts (cut_newline line)) (λ t'. run_lines lines t') t

  -- `fopen` gave a script whose lines are what `fgets` returns.
  unfoldable pub thread_fs_script : List CString → State → Ending × List Line
  unfolding run_lines
  thread_fs_script lines s =
      run_lines lines (record { fs = s; mounted = false; fs_fd = failure; out = [] })
