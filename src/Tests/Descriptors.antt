-- ===== src/Tests/Descriptors.antt =====
-- The descriptors on the disk of `Demo`.
use ecs150_project.Fs.Descriptors.{free_slot, fs_close, fs_lseek, fs_open, add_file_to_fd_array}
use ecs150_project.Fs.Descriptors.Count.{count_open, IsCounted}
use ecs150_project.Fs.Descriptors.Lifecycle.{fs_close-fs_open, fs_open-distinct}
use ecs150_project.Fs.Descriptors.Open.{OpenResult, fs_open-OpenResult}
use ecs150_project.Fs.Descriptors.Seek.{fs_lseek-truncates}
use ecs150_project.Fs.Names.{strcmp_eq, is_filename_invalid}
use ecs150_project.Fs.Root.{find_matching_filename}
use ecs150_project.Fs.State.{State, FileDescriptor}
use ecs150_project.Prelude.{ℕ, ◌≡◌, refl, ◌≢◌, true, some, arith, pos, update}
use ecs150_project.Prelude.Search.{find_first}
use ecs150_project.Tests.Demo.{file_ab, descriptor, name_ab, name_c, state}

fs_open-OpenResult_example : OpenResult true name_c state (fs_open true (some name_c) state)
fs_open-OpenResult_example = fs_open-OpenResult true name_c state

state-IsCounted : IsCounted state
unfolding count_open
state-IsCounted = record { counted = refl }

opened_c : State
unfolding fs_open
opened_c = (fs_open true (some name_c) state).1

opened_c-eq : fs_open true (some name_c) state ≡ (pos 1, opened_c)
unfolding opened_c fs_open is_filename_invalid find_matching_filename find_first strcmp_eq
    add_file_to_fd_array free_slot
opened_c-eq = refl

opened_ab : State
unfolding fs_open
opened_ab = (fs_open true (some name_ab) opened_c).1

opened_ab-eq : fs_open true (some name_ab) opened_c ≡ (pos 2, opened_ab)
unfolding opened_ab opened_c fs_open is_filename_invalid find_matching_filename find_first strcmp_eq
    add_file_to_fd_array free_slot
opened_ab-eq = refl

fs_close-fs_open_example : fs_close (pos 1) opened_c ≡ (pos 0, state)
fs_close-fs_open_example = fs_close-fs_open true name_c state (omega arith) opened_c-eq

fs_open-distinct_example : ◌≢◌ {A = ℕ} 1 2
fs_open-distinct_example =
    fs_open-distinct true true name_c name_ab state opened_c opened_ab 1 2 opened_c-eq opened_ab-eq

-- the file "ab" with a size of 70000
abbrev big_state : State
big_state = record state { root = update state.root 0 (record file_ab { file_size = 70000 }) }

fs_lseek-truncates_example :
    ((fs_lseek (pos 0) 66000 big_state).0 ≡ pos 0)
    × ((d' : FileDescriptor)
        → (fs_lseek (pos 0) 66000 big_state).1.open_files 0 ≡ some d'
        → d'.offset ≢ 66000)
fs_lseek-truncates_example =
    fs_lseek-truncates {s = big_state} {fd = 0} {d = descriptor} 66000
      (record { mounted = refl; in_range = omega arith; entry = refl }) (omega arith) (omega arith)
