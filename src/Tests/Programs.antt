-- ===== src/Tests/Programs.antt =====
-- apps/test_fs.c on the demo host: command lines, scripts, and their parts.
use ecs150_project.Apps.{finished, crashed}
use ecs150_project.Apps.Desks.{
  command_of, Session, do_write, Desk, wrote, do_read, do_seek, goes, successful, regular, compared,
}
use ecs150_project.Apps.Script.{thread_fs_script, run_command}
use ecs150_project.Apps.Script.Answers.{run_command-compared, inline_data}
use ecs150_project.Apps.Script.Whole.{
  StoreScript, all_correct, thread_fs_script-all_correct, script_lines,
}
use ecs150_project.Apps.Simple.{my_file}
use ecs150_project.Apps.Simple.WriteRead.{my_file-short}
use ecs150_project.Apps.Text.{
  cut_newline, same_text, strtok_all, literal, atoi, command_parts, fgets_lines, fgets_from,
}
use ecs150_project.Apps.Tool.{Extras, test_fs, content_report, added_report}
use ecs150_project.Apps.Tool.AddCat.{thread_fs_cat-thread_fs_add}
use ecs150_project.Apps.Tool.Main.{test_fs-EndsClean}
use ecs150_project.Apps.Tool.Unmounts.{EndsClean, LeftMounted}
use ecs150_project.Disk.Access.{block_write, block_read}
use ecs150_project.Fs.Calls.{fs_write, allocate_blocks_in_fat}
use ecs150_project.Fs.Fat.{allocate_blocks, find_data_block, extend_chain, walk_to_end}
use ecs150_project.Fs.Names.{c_str}
use ecs150_project.Fs.Persist.{booted}
use ecs150_project.Fs.Persist.Sessions.{next_process-fs_mount}
use ecs150_project.Fs.State.{State}
use ecs150_project.Fs.Transfer.{num_full_blocks, write_portions, find_num_target_blocks}
use ecs150_project.Fs.Usage.Store.{HasRoom-Reopened}
use ecs150_project.Prelude.{
  ℕ, ◌<◌, ◌≡◌, refl, ◌⊎◌, true, none, some, [], ◌∷◌, arith, pos, negsuc, Bytes,
}
use ecs150_project.Tests.Demo.{
  host, host-IsReliable, state, name_d, chain_ab, name_c, zeros, state-IsLaidOut, state-IsOpenAt,
}
use ecs150_project.Tests.Layouts.{demo_blocks}
use ecs150_project.Tests.Mounts.{formatted, unmounted_state, memory}
use ecs150_project.Tests.Processes.{
  first_files, formatted-HasRoom, memory-IsAmple, process, reopened, image,
}

abbrev pub desk : Desk
desk = record {
  host = host;
  process = process;
  diskname = name_d;
  file_at = λ path. regular (b'x' ∷ []);
}

abbrev pub extras : Extras
extras = record { script_at = λ path. some (literal "NOTHING\n"); new_buffer = some zeros }

-- `test_fs.x rm d c`
test_fs-EndsClean_example :
    let r =
      test_fs desk extras
        (literal "test_fs.x" ∷ literal "rm" ∷ name_d ∷ name_c ∷ [])
        unmounted_state in
    EndsClean r
    ⊎ (((same_text (literal "rm") (literal "cat") ≡ true) × LeftMounted r)
        ⊎ ((same_text (literal "rm") (literal "script") ≡ true) × (r.0 ≡ crashed)))
test_fs-EndsClean_example =
    test_fs-EndsClean desk extras (literal "test_fs.x") (literal "rm") (name_d ∷ name_c ∷ [])
      unmounted_state refl

-- a line that begins with tabs, and has two in a row
tokens : strtok_all (cut_newline (literal "\t\tREAD\t\t10\n")) ≡ literal "READ" ∷ literal "10" ∷ []
unfolding strtok_all
tokens = refl

numbers :
    (atoi (literal " -12x") ≡ negsuc 11)
    × (atoi (literal "40") ≡ pos 40)
    × (atoi (literal "x") ≡ pos 0)
unfolding atoi
numbers = (refl, refl, refl)

-- A fifth part is not stored.
four_parts :
    command_parts (literal "a\tb\tc\td\te")
    ≡ literal "a" ∷ literal "b" ∷ literal "c" ∷ literal "d" ∷ []
unfolding strtok_all
four_parts = refl

-- The last line of a script need not end in a newline.
script_text : fgets_lines (literal "UMOUNT\nX") ≡ literal "UMOUNT\n" ∷ literal "X" ∷ []
unfolding fgets_lines fgets_from
script_text = refl

-- A command that is not known does nothing, and an empty line ends the script.
two_lines :
    thread_fs_script desk
      (literal "NOTHING\tX\n" ∷ literal "\n" ∷ literal "SEEK\n" ∷ [])
      unmounted_state
    ≡ (finished unmounted_state, [])
unfolding thread_fs_script strtok_all command_of
two_lines = refl

-- `SEEK` without a number follows a NULL pointer.
no_number : (thread_fs_script desk (literal "SEEK\n" ∷ []) unmounted_state).0 ≡ crashed
unfolding thread_fs_script strtok_all command_of
no_number = refl

-- "ab" is open at offset 100.
abbrev session : Session
session = record { fs = state; mounted = true; fs_fd = pos 0; out = [] }

-- the state behind a write of the two bytes "xy"
written : State
unfolding fs_write
written = elim (fs_write host zeros (pos 0) (some (c_str (literal "xy"))) 2 state) [
  | none ↦ state
  | some (count, s) ↦ s
]

abbrev wrote_xy : Session
wrote_xy = record session { fs = written; out = wrote (pos 2) ∷ [] }

wrote_xy-eq : run_command desk do_write (inline_data (literal "xy")) session ≡ goes wrote_xy
unfolding written run_command fs_write allocate_blocks_in_fat allocate_blocks walk_to_end
    extend_chain find_num_target_blocks write_portions num_full_blocks find_data_block block_read
    block_write
wrote_xy-eq = refl

run_command-compared_example :
    (t2 t3 : Session) × (run_command desk do_seek (literal "100" ∷ []) wrote_xy ≡ goes t2)
    × (run_command desk do_read (literal "2" ∷ inline_data (literal "xy")) t2 ≡ goes t3)
    × (t3.out ≡ compared (pos 2) 2 ∷ successful "SEEK" ∷ wrote (pos 2) ∷ [])
unfolding atoi
run_command-compared_example =
    run_command-compared desk (literal "xy") (literal "100") (literal "2") session wrote_xy
      host-IsReliable refl state-IsLaidOut state-IsOpenAt chain_ab (omega arith) (omega arith)
      (omega arith) (omega arith) refl refl wrote_xy-eq refl

abbrev store_script : StoreScript my_file (literal "xy")
unfolding strtok_all atoi
store_script = record {
  mount = literal "MOUNT\n";
  create = literal "CREATE\tmyfile\n";
  open_line = literal "OPEN\tmyfile\n";
  write = literal "WRITE\tDATA\txy\n";
  seek = literal "SEEK\t0\n";
  read = literal "READ\t2\tDATA\txy\n";
  close = literal "CLOSE\n";
  umount = literal "UMOUNT\n";
  len = literal "2";
  len_is = refl;
  mount_parts = refl;
  create_parts = refl;
  open_parts = refl;
  write_parts = refl;
  seek_parts = refl;
  read_parts = refl;
  close_parts = refl;
  umount_parts = refl;
}

thread_fs_script-all_correct_example :
    (s' : State) × (thread_fs_script desk
        (script_lines store_script)
        (booted unmounted_state first_files)
      ≡ (finished s', all_correct 2))
thread_fs_script-all_correct_example =
    thread_fs_script-all_correct desk store_script (booted unmounted_state first_files)
      host-IsReliable refl
      (next_process-fs_mount host memory name_d unmounted_state formatted reopened.1)
      reopened.2.layout.laid (HasRoom-Reopened my_file-short formatted-HasRoom reopened.2)
      (omega arith) (omega arith)

-- `test_fs.x add d myfile`, then `test_fs.x cat d myfile`, with "x" in the host's file
thread_fs_cat-thread_fs_add_example :
    (s1 s2 : State) × (out : Bytes) × (test_fs desk extras
        (name_c ∷ literal "add" ∷ name_d ∷ my_file ∷ [])
        (booted unmounted_state first_files)
      ≡ (finished s1, added_report (pos 1) 1 ∷ []))
    × (test_fs desk extras
          (name_c ∷ literal "cat" ∷ name_d ∷ my_file ∷ [])
          (booted unmounted_state s1.disk.files)
        ≡ (finished s2, content_report (pos 1) (pos 1) (some out) ∷ []))
    × ((k : ℕ) → k < 1 → out k ≡ c_str (b'x' ∷ []) k)
thread_fs_cat-thread_fs_add_example =
    thread_fs_cat-thread_fs_add desk process extras name_c name_d my_file (b'x' ∷ [])
      (booted unmounted_state first_files) unmounted_state zeros host-IsReliable refl refl
      memory-IsAmple refl refl image
      (next_process-fs_mount host memory name_d unmounted_state formatted reopened.1)
      reopened.2.savable (demo_blocks, reopened.2.layout)
      (HasRoom-Reopened my_file-short formatted-HasRoom reopened.2) my_file-short (omega arith)
      (omega arith)
