-- ===== src/Apps/Tool.antt =====
-- apps/test_fs.c: the commands `info`, `ls`, `add`, `rm`, `cat`, `stat` and `script` of the command line.
pub mod Unmounts
pub mod Commands
pub mod Main
pub mod AddCat
use ecs150_project.Apps.{never_ends, crashed, Ending, finished, exited, is_nonneg}
use ecs150_project.Apps.Desks.{no_file, Desk, unmount_and_die, regular, no_stat, Line, not_regular}
use ecs150_project.Apps.Script.{thread_fs_script}
use ecs150_project.Apps.Text.{same_text, fgets_lines, literal}
use ecs150_project.Fs.Calls.{fs_read, fs_write}
use ecs150_project.Fs.Descriptors.{fs_close, fs_open, fs_stat}
use ecs150_project.Fs.Directory.{Listing, fs_create, Info, fs_delete, fs_ls, fs_info}
use ecs150_project.Fs.Mount.{fs_umount, fs_mount}
use ecs150_project.Fs.Names.{CString, c_str}
use ecs150_project.Fs.State.{State}
use ecs150_project.Fs.Transfer.Read.{content}
use ecs150_project.Prelude.{
  ℕ, zero, suc, not, Option, none, some, List, [], ◌∷◌, negsuc, pos, is_zero, if◌then◌else◌, ℤ,
  Bytes,
}
use ecs150_project.Prelude.Lists.{length}
use Prim.Native.String.{String}

-- What a command prints.
pub data Report : Type 0 where
  empty_report : Report
  size_report : ℤ → Report
  content_report : ℤ → ℤ → Option Bytes → Report
  removed_report : Report
  added_report : ℤ → ℕ → Report
  listed_report : List Listing → Report
  info_report : Option Info → Report
  script_report : List Line → Report

-- How a command ends, and what it prints.
abbrev pub CommandResult : Type 0
CommandResult = Ending × List Report

-- The bytes of a script that `fopen` opens, and the buffer that `malloc` gives `thread_fs_cat`.
pub record Extras : Type 0 where
  pub script_at : CString → Option CString
  pub new_buffer : Option Bytes

abbrev pub quietly : Ending → CommandResult
quietly e = (e, [])

module _ (desk : Desk) (extras : Extras) where
  -- `fs_mount(diskname)`, or the message
  pub mount_then : CString → State → (State → CommandResult) → CommandResult
  mount_then diskname s rest =
      let (r, s1) = fs_mount desk.host desk.process.memory (some diskname) s in
      if is_zero r then rest s1 else quietly (exited "Cannot mount diskname" s1)

  pub open_then : CString → State → (ℤ → State → CommandResult) → CommandResult
  open_then filename s rest =
      let (fd, s1) = fs_open desk.process.malloc_ok (some filename) s in
      if is_nonneg fd then rest fd s1 else quietly (unmount_and_die desk.host "Cannot open file" s1)

  -- `fs_umount()` at the end, with what is printed behind it
  pub unmount_then : String → State → List Report → CommandResult
  unmount_then message s out =
      let (r, s1) = fs_umount desk.host s in
      if is_zero r then (finished s1, out) else quietly (exited message s1)

  pub close_then : String → ℤ → State → List Report → CommandResult
  unfolding unmount_then
  close_then message fd s out =
      let (r, s1) = fs_close fd s in
      if is_zero r
      then unmount_then message s1 out
      else quietly (unmount_and_die desk.host "Cannot close file" s1)

  -- behind the `fs_stat` of `thread_fs_stat`
  stat_end : ℤ → ℤ → State → CommandResult
  unfolding close_then
  stat_end stat fd s =
      if not (is_nonneg stat)
      then quietly (unmount_and_die desk.host "Cannot stat file" (fs_close fd s).1)
      else if is_zero stat
      then (finished (fs_umount desk.host (fs_close fd s).1).1, empty_report ∷ [])
      else close_then "cannot unmount diskname" fd s (size_report stat ∷ [])

  unfoldable pub thread_fs_stat : List CString → State → CommandResult
  unfolding mount_then open_then stat_end
  thread_fs_stat [] s = quietly (exited "need <diskname> <filename>" s)
  thread_fs_stat (_ ∷ []) s = quietly (exited "need <diskname> <filename>" s)
  thread_fs_stat (diskname ∷ filename ∷ _) s =
      mount_then diskname s (λ s1. open_then filename s1 (λ fd s2. stat_end (fs_stat fd s2) fd s2))

  -- behind the `fs_stat` of `thread_fs_cat`
  cat_end : ℤ → ℤ → State → CommandResult
  unfolding close_then
  cat_end (negsuc n) fd s = quietly (unmount_and_die desk.host "Cannot stat file" s)
  cat_end (pos zero) fd s = (finished s, empty_report ∷ [])
  cat_end (pos (suc n)) fd s = elim extras.new_buffer [
    | none ↦ quietly (unmount_and_die desk.host "Cannot malloc" s)
    | some buf ↦
        let (read, buf', s1) = fs_read desk.host desk.process.bounce fd (some buf) (suc n) s in
        close_then "cannot unmount diskname" fd s1 (content_report read (pos (suc n)) buf' ∷ [])
  ]

  unfoldable pub thread_fs_cat : List CString → State → CommandResult
  unfolding mount_then open_then cat_end
  thread_fs_cat [] s = quietly (exited "need <diskname> <filename>" s)
  thread_fs_cat (_ ∷ []) s = quietly (exited "need <diskname> <filename>" s)
  thread_fs_cat (diskname ∷ filename ∷ _) s =
      mount_then diskname s (λ s1. open_then filename s1 (λ fd s2. cat_end (fs_stat fd s2) fd s2))

  rm_end : CString → State → CommandResult
  unfolding unmount_then
  rm_end filename s = elim (fs_delete (some filename) s) [
    | none ↦ quietly never_ends
    | some (r, s1) ↦
        if is_zero r
        then unmount_then "Cannot unmount diskname" s1 (removed_report ∷ [])
        else quietly (unmount_and_die desk.host "Cannot delete file" s1)
  ]

  unfoldable pub thread_fs_rm : List CString → State → CommandResult
  unfolding mount_then rm_end
  thread_fs_rm [] s = quietly (exited "need <diskname> <filename>" s)
  thread_fs_rm (_ ∷ []) s = quietly (exited "need <diskname> <filename>" s)
  thread_fs_rm (diskname ∷ filename ∷ _) s = mount_then diskname s (λ s1. rm_end filename s1)

  -- `fs_write` of the host file's bytes, and the end; what it returns is only printed
  add_write : List ℕ → ℤ → State → CommandResult
  unfolding close_then
  add_write bytes fd s =
      elim (fs_write desk.host desk.process.bounce fd (some (c_str bytes)) (length bytes) s) [
        | none ↦ quietly never_ends
        | some (written, s1) ↦
            close_then "Cannot unmount diskname" fd s1 (added_report written (length bytes) ∷ [])
      ]

  add_file : CString → CString → List ℕ → State → CommandResult
  unfolding mount_then open_then add_write
  add_file diskname filename bytes s = mount_then diskname s (λ s1.
      let (r, s2) = fs_create (some filename) s1 in
      if is_zero r
      then open_then filename s2 (λ fd s3. add_write bytes fd s3)
      else quietly (unmount_and_die desk.host "Cannot create file" s2))

  unfoldable pub thread_fs_add : List CString → State → CommandResult
  unfolding add_file
  thread_fs_add [] s = quietly (exited "Usage: <diskname> <host filename>" s)
  thread_fs_add (_ ∷ []) s = quietly (exited "Usage: <diskname> <host filename>" s)
  thread_fs_add (diskname ∷ filename ∷ _) s = elim (desk.file_at filename) [
    | no_file ↦ quietly (exited "open" s)
    | no_stat ↦ quietly (exited "fstat" s)
    | not_regular ↦ quietly (exited "Not a regular file" s)
    | regular bytes ↦ add_file diskname filename bytes s
  ]

  unfoldable pub thread_fs_ls : List CString → State → CommandResult
  unfolding mount_then unmount_then
  thread_fs_ls [] s = quietly (exited "Usage: <diskname>" s)
  thread_fs_ls (diskname ∷ _) s =
      mount_then diskname s
        (λ s1. unmount_then "Cannot unmount diskname" s1 (listed_report (fs_ls s1).1 ∷ []))

  unfoldable pub thread_fs_info : List CString → State → CommandResult
  unfolding mount_then unmount_then
  thread_fs_info [] s = quietly (exited "Usage: <diskname>" s)
  thread_fs_info (diskname ∷ _) s =
      mount_then diskname s
        (λ s1. unmount_then "Cannot unmount diskname" s1 (info_report (fs_info s1) ∷ []))

  -- the arguments of `thread_fs_script`, and the `fopen` of the script
  pub script_command : List CString → State → CommandResult
  script_command [] s = quietly (exited "Usage: <diskname> <script filename>" s)
  script_command (_ ∷ []) s = quietly (exited "Usage: <diskname> <script filename>" s)
  script_command (diskname ∷ script ∷ _) s = elim (extras.script_at script) [
    | none ↦ quietly (exited "fopen" s)
    | some content ↦
        let (e, out) =
          thread_fs_script (record desk { diskname = diskname }) (fgets_lines content) s in
        (e, script_report out ∷ [])
  ]

  -- the table `commands`
  commands : CString → Option (List CString → State → CommandResult)
  unfolding script_command
  commands cmd =
      if same_text cmd (literal "info")
      then some thread_fs_info
      else if same_text cmd (literal "ls")
      then some thread_fs_ls
      else if same_text cmd (literal "add")
      then some thread_fs_add
      else if same_text cmd (literal "rm")
      then some thread_fs_rm
      else if same_text cmd (literal "cat")
      then some thread_fs_cat
      else if same_text cmd (literal "stat")
      then some thread_fs_stat
      else if same_text cmd (literal "script")
      then some script_command
      else none

  -- the function that is found in the table, or `usage`
  run_func : Option (List CString → State → CommandResult) → List CString → State → CommandResult
  run_func none args s = quietly (exited "Usage" s)
  run_func (some func) args s = func args s

  -- `main`
  unfoldable pub test_fs : List CString → State → CommandResult
  unfolding commands run_func
  test_fs [] s = quietly crashed
  test_fs (program ∷ []) s = quietly (exited "Usage" s)
  test_fs (program ∷ cmd ∷ args) s = run_func (commands cmd) args s
