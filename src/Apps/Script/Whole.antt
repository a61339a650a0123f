-- ===== src/Apps/Script/Whole.antt =====
-- A whole script: a file is created, written, read back and closed.
use ecs150_project.Apps.{finished}
use ecs150_project.Apps.Desks.{
  wrote, zeroed, do_mount, goes, Command, Session, do_seek, Desk, do_close, command_of, successful,
  Line, do_read, do_umount, do_create, do_write, do_open, compared,
}
use ecs150_project.Apps.Script.{
  run_lines, run_mount, unmounted_then, with_data, run_command, end_script, thread_fs_script,
  run_write, run_open, on_status,
}
use ecs150_project.Apps.Script.Answers.{read_step, inline_data, seek_step}
use ecs150_project.Apps.Text.{cut_newline, atoi, command_parts, literal}
use ecs150_project.Disk.State.{IsReliable}
use ecs150_project.Fs.Calls.Geometry.{IsLaidOut}
use ecs150_project.Fs.Calls.RoundTrip.{fs_read-fs_write, ReadsBack}
use ecs150_project.Fs.Descriptors.{fs_lseek}
use ecs150_project.Fs.Mount.{fs_mount, fs_umount}
use ecs150_project.Fs.Mount.Errors.{fs_mount-mounted}
use ecs150_project.Fs.Names.{c_str, CString}
use ecs150_project.Fs.State.{State}
use ecs150_project.Fs.Usage.Mounted.{fs_umount-zero}
use ecs150_project.Fs.Usage.Store.{HasRoom, StoredFile, StoredFile_lem}
use ecs150_project.Fs.Usage.Succeeds.{fs_close-IsOpenAt, closed_state}
use ecs150_project.Prelude.{
  ℕ, ◌+◌, ◌^◌, ◌≤◌, ◌<◌, ◌≡◌, refl, sym, ap, ◌∙◌, true, false, some, List, [], ◌∷◌, arith, pos, ℤ,
  failure,
}
use ecs150_project.Prelude.Lists.{length}
use Prim.Native.String.{String}

-- The parts that the loop over `strtok` takes from a line.
abbrev pub parts_of : CString → List CString
parts_of line = command_parts (cut_newline line)

-- Eight lines that store a text in a new file and compare it.
pub record StoreScript (name text : CString) : Type 0 where
  pub mount : CString
  pub create : CString
  pub open_line : CString
  pub write : CString
  pub seek : CString
  pub read : CString
  pub close : CString
  pub umount : CString
  pub len : CString
  pub len_is : atoi len ≡ pos (length text)
  pub mount_parts : parts_of mount ≡ literal "MOUNT" ∷ []
  pub create_parts : parts_of create ≡ literal "CREATE" ∷ name ∷ []
  pub open_parts : parts_of open_line ≡ literal "OPEN" ∷ name ∷ []
  pub write_parts : parts_of write ≡ literal "WRITE" ∷ inline_data text
  pub seek_parts : parts_of seek ≡ literal "SEEK" ∷ literal "0" ∷ []
  pub read_parts : parts_of read ≡ literal "READ" ∷ len ∷ inline_data text
  pub close_parts : parts_of close ≡ literal "CLOSE" ∷ []
  pub umount_parts : parts_of umount ≡ literal "UMOUNT" ∷ []

abbrev pub script_lines : {name text : CString} → StoreScript name text → List CString
script_lines c =
    c.mount ∷ c.create ∷ c.open_line ∷ c.write ∷ c.seek ∷ c.read ∷ c.close ∷ c.umount ∷ []

-- What it prints, the last line first.
abbrev pub all_correct : ℕ → List Line
all_correct n =
    successful "UMOUNT"
    ∷ successful "CLOSE"
    ∷ compared (pos n) n
    ∷ successful "SEEK"
    ∷ wrote (pos n)
    ∷ successful "OPEN"
    ∷ successful "CREATE"
    ∷ successful "MOUNT"
    ∷ []

module _ (desk : Desk) where
  -- A line whose command goes on.
  next_line :
      (line : CString) (lines : List CString) (t : Session) {command : CString}
      {args : List CString} {t' : Session} (c : Command)
      → parts_of line ≡ command ∷ args
      → command_of command ≡ c
      → run_command desk c args t ≡ goes t'
      → run_lines desk (line ∷ lines) t ≡ run_lines desk lines t'
  unfolding run_lines
  next_line line lines t c parts which step = ground (arith, parts, which, step)

  status_step :
      (name message : String) (t : Session) (r : ℤ × State) {s : State}
      → r ≡ (pos 0, s)
      → on_status desk name message t r ≡ goes (record t { fs = s; out = successful name ∷ t.out })
  unfolding on_status
  status_step name message t r e = ground arith

  last_line : (t : Session) → t.mounted ≡ false → run_lines desk [] t ≡ (finished t.fs, t.out)
  unfolding run_lines end_script
  last_line t m = ground arith

module _ (desk : Desk) (good : IsReliable desk.host) {name text : CString}
    (c : StoreScript name text) (memory : desk.process.malloc_ok ≡ true) (start : State) {s : State}
    (mounts : fs_mount desk.host desk.process.memory (some desk.diskname) start ≡ (pos 0, s))
    (st : StoredFile desk.host desk.process.bounce name s (length text) (c_str text))
    (moves : 0 < length text) (small : length text < 2 ^ 32) where
  abbrev fresh : Session
  fresh = record { fs = start; mounted = false; fs_fd = failure; out = [] }

  abbrev mounted : Session
  mounted = record fresh { fs = s; mounted = true; out = successful "MOUNT" ∷ [] }

  mount_step : run_command desk do_mount [] fresh ≡ goes mounted
  unfolding run_command run_mount
  mount_step = ground (arith, mounts)

  abbrev created : Session
  created = record mounted { fs = st.created; out = successful "CREATE" ∷ mounted.out }

  create_step : run_command desk do_create (name ∷ []) mounted ≡ goes created
  unfolding run_command
  create_step = status_step desk "CREATE" _ mounted _ st.creates

  abbrev opened : Session
  opened = record created {
    fs = st.opened;
    fs_fd = pos st.fd;
    out = successful "OPEN" ∷ created.out;
  }

  open_step : run_command desk do_open (name ∷ []) created ≡ goes opened
  unfolding run_command run_open
  open_step = ground (arith, st.opens, memory)

  abbrev written : Session
  written = record opened { fs = st.written; out = wrote (pos (length text)) ∷ opened.out }

  write_step : run_command desk do_write (inline_data text) opened ≡ goes written
  unfolding run_command run_write with_data
  write_step = ground (arith, st.writes)

  back :
      ((fs_lseek (pos st.fd) 0 st.written).0 ≡ pos 0)
      × ReadsBack desk.host desk.process.bounce
          (fs_lseek (pos st.fd) 0 st.written).1
          st.fd
          (length text)
          (c_str text)
          (zeroed (length text + 1) desk.process.stack)
  back =
      fs_read-fs_write desk.host good desk.process.bounce st.laid st.descriptor st.empty_chain
        (c_str text) (zeroed (length text + 1) desk.process.stack) (length text) moves (omega arith)
        (omega arith) (omega (arith, st.empty_size)) st.written st.writes

  abbrev sought_back : Session
  sought_back = record written {
    fs = (fs_lseek (pos st.fd) 0 st.written).1;
    out = successful "SEEK" ∷ written.out;
  }

  abbrev read_back : Session
  read_back = record sought_back {
    fs = back.1.after;
    out = compared (pos (length text)) (length text) ∷ sought_back.out;
  }

  abbrev closed : Session
  closed = record read_back {
    fs = closed_state back.1.after st.fd;
    out = successful "CLOSE" ∷ read_back.out;
  }

  close_step : run_command desk do_close [] read_back ≡ goes closed
  unfolding run_command
  close_step = status_step desk "CLOSE" _ read_back _ (fs_close-IsOpenAt back.1.opened)

  abbrev unmounted : Session
  unmounted = record closed {
    fs = (fs_umount desk.host closed.fs).1;
    mounted = false;
    out = all_correct (length text);
  }

  umount_step : run_command desk do_umount [] closed ≡ goes unmounted
  unfolding run_command unmounted_then
  umount_step = ground (arith, fs_umount-zero desk.host closed.fs back.1.opened.mounted)

  whole_script :
      run_lines desk (script_lines c) fresh ≡ (finished unmounted.fs, all_correct (length text))
  unfolding command_of atoi
  whole_script =
      next_line desk c.mount _ fresh do_mount c.mount_parts refl mount_step
      ∙ next_line desk c.create _ mounted do_create c.create_parts refl create_step
      ∙ next_line desk c.open_line _ created do_open c.open_parts refl open_step
      ∙ next_line desk c.write _ opened do_write c.write_parts refl write_step
      ∙ next_line desk c.seek _ written do_seek c.seek_parts refl
          (seek_step desk text written (literal "0") 0 refl refl back.0)
      ∙ next_line desk c.read _ sought_back do_read c.read_parts refl
          (read_step desk text sought_back c.len refl c.len_is back.1)
      ∙ next_line desk c.close _ read_back do_close c.close_parts refl close_step
      ∙ next_line desk c.umount _ closed do_umount c.umount_parts refl umount_step
      ∙ last_line desk unmounted refl

-- On a reliable host with memory, where the disk mounts, is well laid out and has room for a new file of
-- that name, a script that mounts it, creates and opens the file, writes 1 to 4096 bytes of text, seeks
-- back to 0, reads them, closes and unmounts, runs to its end: it prints a success for every line, all
-- bytes written, and that all of them compare equal.
pub thread_fs_script-all_correct :
    (desk : Desk) {name text : CString} (c : StoreScript name text) (start : State) {s : State}
    → IsReliable desk.host
    → desk.process.malloc_ok ≡ true
    → fs_mount desk.host desk.process.memory (some desk.diskname) start ≡ (pos 0, s)
    → IsLaidOut s
    → HasRoom name s
    → 0 < length text
    → length text ≤ 4096
    → (s' : State) × (thread_fs_script desk (script_lines c) start
        ≡ (finished s', all_correct (length text)))
unfolding thread_fs_script
thread_fs_script-all_correct desk {name} {text} c start {s} good memory mounts laid room moves one =
    let is_mounted : s.is_disk_mounted ≡ true =
      ap (λ r. r.1.is_disk_mounted) (sym mounts)
      ∙ fs_mount-mounted desk.host desk.process.memory (some desk.diskname) start
          (ap (λ r. r.0) mounts) in
    let st =
      StoredFile_lem desk.host good desk.process.bounce room (c_str text) (length text) moves one
        laid is_mounted in
    (_, whole_script desk good c memory start mounts st moves (omega arith))
