-- ===== src/Apps/Desks.antt =====
-- What the commands of apps/test_fs.c work with: the files of the host, and the variables and the output
-- of a script.
use ecs150_project.Apps.{Ending, Process, exited}
use ecs150_project.Apps.Text.{same_text, literal}
use ecs150_project.Disk.State.{Host}
use ecs150_project.Fs.Mount.{fs_umount}
use ecs150_project.Fs.Names.{CString}
use ecs150_project.Fs.State.{State}
use ecs150_project.Prelude.{
  ℕ, zero, suc, ◌-◌, ◌^◌, Bool, true, ◌&&◌, List, negsuc, ltb, ℤ, ◌==◌, pos, if◌then◌else◌, Bytes,
}
use Prim.Native.String.{String}

-- What `open`, `fstat` and `fread` find at a path of the host.
pub data HostFile : Type 0 where
  no_file : HostFile
  no_stat : HostFile
  not_regular : HostFile
  regular : List ℕ → HostFile

-- Where a command of apps/test_fs.c runs: the file system's host and the process, the path of the disk,
-- and the other files of the host.
pub record Desk : Type 0 where
  pub host : Host
  pub process : Process
  pub diskname : CString
  pub file_at : CString → HostFile

-- A line on stdout.
pub data Line : Type 0 where
  successful : String → Line
  wrote : ℤ → Line
  compared : ℤ → ℕ → Line
  unexpected : Line

-- The variables of the loop: the globals of the library, `mounted`, `fs_fd`, and what has been printed.
pub record Session : Type 0 where
  pub fs : State
  pub mounted : Bool
  pub fs_fd : ℤ
  pub out : List Line

-- What a line of the script leads to.
pub data Step : Type 0 where
  goes : Session → Step
  ends : Ending → Step

-- the names of the commands
pub data Command : Type 0 where
  do_mount : Command
  do_umount : Command
  do_create : Command
  do_delete : Command
  do_open : Command
  do_close : Command
  do_seek : Command
  do_write : Command
  do_read : Command
  do_nothing : Command

unfoldable pub command_of : CString → Command
command_of c =
    if same_text c (literal "MOUNT")
    then do_mount
    else if same_text c (literal "UMOUNT")
    then do_umount
    else if same_text c (literal "CREATE")
    then do_create
    else if same_text c (literal "DELETE")
    then do_delete
    else if same_text c (literal "OPEN")
    then do_open
    else if same_text c (literal "CLOSE")
    then do_close
    else if same_text c (literal "SEEK")
    then do_seek
    else if same_text c (literal "WRITE")
    then do_write
    else if same_text c (literal "READ")
    then do_read
    else do_nothing

-- `fs_umount(); die(message);`
abbrev pub unmount_and_die : Host → String → State → Ending
unmount_and_die host message s = exited message (fs_umount host s).1

-- an `int` that becomes a `size_t`
abbrev pub size_of_int : ℤ → ℕ
size_of_int (pos n) = n
size_of_int (negsuc n) = 2 ^ 64 - 1 - n

-- new memory of `n` zeros, in front of whatever lies there
abbrev pub zeroed : ℕ → Bytes → Bytes
zeroed n behind i = if ltb i n then 0 else behind i

-- `memcmp(a, b, n) == 0`
abbrev pub memcmp_eq : ℕ → Bytes → Bytes → Bool
memcmp_eq zero a b = true
memcmp_eq (suc n) a b = memcmp_eq n a b && a n == b n
