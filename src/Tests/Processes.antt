-- ===== src/Tests/Processes.antt =====
-- Processes one after the other on the formatted disk of `Mounts`, and the programs under apps/ on it.
use ecs150_project.Apps.{finished, Process}
use ecs150_project.Apps.Simple.{simple_writer, simple_reader, my_file}
use ecs150_project.Apps.Simple.WriteRead.{simple_reader-simple_writer, my_file-short}
use ecs150_project.Fs.Directory.{fs_create}
use ecs150_project.Fs.Layout.{Layout}
use ecs150_project.Fs.Layout.Steps.{on_create}
use ecs150_project.Fs.Mount.{fs_umount}
use ecs150_project.Fs.Names.{is_filename_invalid, strcmp_eq, CString}
use ecs150_project.Fs.Persist.{next_process, IsImage, booted, IsSavable, IsAmple}
use ecs150_project.Fs.Persist.Sessions.{
  Reopened, no_step, IsIntact, next_process-fs_mount, IsIntact-History, History, one_process,
  one_call, next_process-Reopened,
}
use ecs150_project.Fs.Root.{find_matching_filename, find_empty_root_entry}
use ecs150_project.Fs.State.{State}
use ecs150_project.Fs.Usage.Store.{HasRoom, HasRoom-Reopened}
use ecs150_project.Fs.View.{remounts, UniqueValid, creates, view, AbstractRun}
use ecs150_project.Fs.View.Reopen.{AbstractRun-History, events_of}
use ecs150_project.Prelude.{ℕ, ◌≡◌, refl, true, some, List, [], ◌∷◌, arith, pos, ℤ, Bytes}
use ecs150_project.Prelude.Search.{find_first}
use ecs150_project.Tests.Demo.{
  host-IsReliable, host, name_d-IsCString, zeros, table, name_c, name_d,
}
use ecs150_project.Tests.Layouts.{demo_blocks, demo-IsCounted, state-Layout}
use ecs150_project.Tests.Mounts.{
  unmounted_state, memory, table-small, formatted, formatted-IsFormatted,
}

formatted-IsSavable : IsSavable 0 11 formatted
formatted-IsSavable = record {
  formatted = formatted-IsFormatted table table-small;
  data_behind = omega arith;
  few = omega arith;
  opened = refl;
  bcount = refl;
}

formatted-Layout : Layout formatted demo_blocks
formatted-Layout = record {
  laid = record {
    opened = λ e. ground arith;
    fat_small = omega arith;
    fits = omega arith;
    small = omega arith;
  };
  mark = refl;
  chains = state-Layout.chains;
  apart = state-Layout.apart;
  open_named = state-Layout.open_named;
}

pub formatted-IsIntact : IsIntact 0 11 formatted
formatted-IsIntact = record {
  well_formed = (demo_blocks, formatted-Layout);
  savable = formatted-IsSavable;
  counted = record { counted = demo-IsCounted.counted };
}

pub memory-IsAmple : IsAmple memory
memory-IsAmple = record { new_sb = refl; new_fat = refl; new_file = λ f. refl }

-- The demo host opens its one file by any name.
pub image : IsImage host 0 11 name_d
image = record { opens = refl; size = refl }

next_process-Reopened_example :
    (s' : State) × (next_process host memory name_d unmounted_state formatted ≡ (pos 0, pos 0, s'))
    × Reopened 0 11 formatted s' demo_blocks
next_process-Reopened_example =
    next_process-Reopened host host-IsReliable memory name_d unmounted_state memory-IsAmple image
      formatted-IsSavable formatted-Layout

-- the process that mounts the disk first
pub reopened :
    (s' : State) × (next_process host memory name_d unmounted_state formatted ≡ (pos 0, pos 0, s'))
    × Reopened 0 11 formatted s' demo_blocks
reopened =
    next_process-Reopened host host-IsReliable memory name_d unmounted_state memory-IsAmple image
      formatted-IsSavable formatted-Layout

-- a file is created, and the disk is unmounted and mounted in another process
abbrev pub created : State
created = (fs_create (some name_d) formatted).1

pub created-History : History host zeros 0 11 formatted created
created-History =
    one_call formatted formatted created (no_step formatted) (on_create name_d name_d-IsCString)

abbrev second_process : ℤ × ℤ × State
second_process = next_process host memory name_d unmounted_state created

IsIntact-History_example : IsIntact 0 11 second_process.2
IsIntact-History_example =
    IsIntact-History {bounce = zeros} host-IsReliable
      (one_process memory name_d unmounted_state formatted created second_process.2 second_process.0
        second_process.1 created-History memory-IsAmple image refl)
      formatted-IsIntact

formatted-UniqueValid : UniqueValid formatted.root
unfolding strcmp_eq
formatted-UniqueValid [] valid i j ne li lj hi hj = absurd (ne refl)
formatted-UniqueValid (c ∷ cs) valid i j ne li lj hi hj = ground (arith, valid.text.0)

-- the creation, the unmount and the mount
demo-History : History host zeros 0 11 formatted second_process.2
demo-History =
    one_process memory name_d unmounted_state formatted created second_process.2 second_process.0
      second_process.1 created-History memory-IsAmple image refl

AbstractRun-History_example :
    AbstractRun (view formatted) (events_of demo-History) (view second_process.2)
    × UniqueValid second_process.2.root
AbstractRun-History_example =
    AbstractRun-History {bounce = zeros} host-IsReliable demo-History formatted-IsIntact
      formatted-UniqueValid

-- Its events are those two.
demo-events : events_of demo-History ≡ remounts ∷ creates name_d ∷ []
unfolding fs_create is_filename_invalid find_matching_filename find_empty_root_entry demo-History
    created-History find_first strcmp_eq
demo-events = refl

abbrev pub process : Process
process = record { memory = memory; malloc_ok = true; bounce = zeros; stack = zeros }

-- the program's name and the path of the disk
abbrev arguments : List CString
arguments = name_c ∷ name_d ∷ []

pub formatted-HasRoom : HasRoom my_file formatted
unfolding strcmp_eq is_filename_invalid
formatted-HasRoom = record {
  text = (
    omega arith,
    omega arith,
    (
      omega arith,
      omega arith,
      (
        omega arith,
        omega arith,
        (omega arith, omega arith, (omega arith, omega arith, (omega arith, omega arith, tt))),
      ),
    ),
  );
  valid = refl;
  fresh = λ k lt. ground arith;
  entry = 2;
  entry_in_range = omega arith;
  entry_empty = refl;
  block = 4;
  block_positive = omega arith;
  block_in_range = omega arith;
  block_free = refl;
  few_open = omega arith;
  slot = 1;
  slot_in_range = omega arith;
  slot_free = refl;
}

-- the disk that it mounts
abbrev pub first_files : ℕ → Bytes
first_files = (fs_umount host formatted).1.disk.files

simple_reader-simple_writer_example :
    (s1 s2 : State) × (simple_writer host process arguments (booted unmounted_state first_files)
      ≡ finished s1)
    × (simple_reader host process arguments (booted unmounted_state s1.disk.files) ≡ finished s2)
simple_reader-simple_writer_example =
    simple_reader-simple_writer host process process arguments arguments name_d name_d
      (booted unmounted_state first_files) unmounted_state host-IsReliable refl refl memory-IsAmple
      refl refl image
      (next_process-fs_mount host memory name_d unmounted_state formatted reopened.1)
      reopened.2.savable (demo_blocks, reopened.2.layout)
      (HasRoom-Reopened my_file-short formatted-HasRoom reopened.2)
