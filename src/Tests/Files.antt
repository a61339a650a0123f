-- ===== src/Tests/Files.antt =====
-- The root directory, the descriptors and the FAT on the disk of `Demo`.
use ecs150_project.Disk.Lifecycle.{block_disk_count}
use ecs150_project.Fs.Directory.{count_if, Info, fs_delete, fs_info, fs_ls, fs_create}
use ecs150_project.Fs.Directory.Create.{UniqueNames}
use ecs150_project.Fs.Directory.Delete.{
  fs_delete-open, IsDeletable, fs_delete-diverges, fs_delete-leaks, fs_delete-frees,
}
use ecs150_project.Fs.Directory.Report.{fs_ls-fs_info, fs_info-fs_create}
use ecs150_project.Fs.Fat.{Allocated, find_data_block, allocate_blocks, free_chain}
use ecs150_project.Fs.Fat.Allocate.{Allocation, allocate_blocks-Allocation}
use ecs150_project.Fs.Fat.Chain.{find_data_block-get_or, IsChain}
use ecs150_project.Fs.Fat.Release.{free_chain-fuel}
use ecs150_project.Fs.Layout.Steps.{on_create, one_more, no_call}
use ecs150_project.Fs.Layout.Unique.{UniqueNames-Run}
use ecs150_project.Fs.Names.{streq, is_filename_invalid, c_str, strcmp_eq}
use ecs150_project.Fs.Names.Match.{streq-strcmp_eq}
use ecs150_project.Fs.Root.{find_empty_root_entry, IsFirstNamed, find_matching_filename}
use ecs150_project.Fs.State.{State, Table}
use ecs150_project.Prelude.{
  ℕ, ◌+◌, ◌≡◌, refl, ◌≢◌, true, false, none, some, List, [], ◌∷◌, arith, if◌then◌else◌, pos,
  failure, update,
}
use ecs150_project.Prelude.Lists.{has, length}
use ecs150_project.Prelude.Search.{find_first}
use ecs150_project.Tests.Demo.{
  blank, name_ab, name_ab-IsCString, state, chain_ab, name_d-IsCString, name_d, file_c,
  name_c-IsCString, chain_c, descriptor, name_c, host, table, zeros,
}

allocate_blocks-Allocation_example :
    (r : Allocated) × (new : List ℕ) × (allocate_blocks 8 8 4 table 1 ≡ some r)
    × Allocation 8 4 table (1 ∷ 2 ∷ []) r new
allocate_blocks-Allocation_example =
    allocate_blocks-Allocation 8 4 table 1 (1 ∷ 2 ∷ []) (omega arith) chain_ab

-- the state with every file closed
abbrev closed_state : State
closed_state = record state { open_files = λ i. none; num_open_files = 0 }

named_ab : IsFirstNamed name_ab state.root 0
unfolding strcmp_eq
named_ab = record { in_range = omega arith; named = refl; first = λ k lt. absurd (omega arith) }

named_c : IsFirstNamed name_c state.root 1
unfolding strcmp_eq
named_c = record { in_range = omega arith; named = refl; first = λ k lt. ground arith }

valid_ab : is_filename_invalid (some name_ab) ≡ false
unfolding is_filename_invalid
valid_ab = refl

valid_c : is_filename_invalid (some name_c) ≡ false
unfolding is_filename_invalid
valid_c = refl

IsDeletable-ab : IsDeletable name_ab closed_state 0
IsDeletable-ab = record {
  mounted = refl;
  valid = valid_ab;
  text = name_ab-IsCString;
  found = named_ab;
  closed = λ k d lt e. ground arith;
}

-- "c" can be deleted while "ab" is open.
IsDeletable-c : IsDeletable name_c state 1
unfolding strcmp_eq
IsDeletable-c = record {
  mounted = refl;
  valid = valid_c;
  text = name_c-IsCString;
  found = named_c;
  closed = λ k d lt e. ground arith;
}

fs_delete-leaks_example :
    (s' : State) × (fs_delete (some name_ab) closed_state ≡ some (pos 0, s'))
    × (s'.fat 1 ≡ 0)
    × (s'.fat 0 ≡ 0)
    × ((j : ℕ) → has j (2 ∷ []) ≡ true → (s'.fat j ≡ table j) × (s'.fat j ≢ 0))
fs_delete-leaks_example = fs_delete-leaks IsDeletable-ab chain_ab refl

-- the FAT with entry 0 cleared
abbrev damaged : State
damaged = record closed_state { fat = update table 0 0 }

fs_delete-diverges_example : fs_delete (some name_ab) damaged ≡ none
fs_delete-diverges_example =
    fs_delete-diverges {s = damaged} {n = 8} deletable_damaged chain_damaged (omega arith)
  where
    deletable_damaged : IsDeletable name_ab damaged 0
    deletable_damaged = record {
      mounted = refl;
      valid = valid_ab;
      text = name_ab-IsCString;
      found = named_ab;
      closed = λ k d lt e. ground arith;
    }

    chain_damaged : IsChain 8 (update table 0 0) 1 (1 ∷ 2 ∷ [])
    chain_damaged = record {
      links = (refl, omega arith, (refl, omega arith, refl));
      distinct = (refl, (refl, tt));
      in_range = (omega arith, omega arith, (omega arith, omega arith, tt));
    }

fs_delete-frees_example :
    (fat' : Table) × (fs_delete (some name_c) state
      ≡ some (
        pos 0,
        record state {
          fat = fat';
          root = update state.root 1 (record file_c {
            filename = update file_c.filename 0 0;
            file_size = 0;
            first_index = 65535;
          });
        },
      ))
    × ((j : ℕ) → fat' j ≡ (if has j (3 ∷ []) then 0 else table j))
fs_delete-frees_example = fs_delete-frees IsDeletable-c chain_c (omega arith)

fs_delete-open_example : fs_delete (some name_ab) state ≡ some (failure, state)
fs_delete-open_example =
    fs_delete-open name_ab state 0 0 descriptor name_ab-IsCString named_ab (omega arith) refl refl

-- a root directory with no file
abbrev no_files : State
no_files = record closed_state { root = λ i. blank }

no_files-UniqueNames : UniqueNames no_files.root
unfolding strcmp_eq
no_files-UniqueNames [] cs i j ne li lj hi hj = absurd (ne refl)
no_files-UniqueNames (c ∷ name) cs i j ne li lj hi hj = ground (arith, cs)

-- two new files
UniqueNames-Run_example :
    UniqueNames (fs_create (some name_c) (fs_create (some name_d) no_files).1).1.root
UniqueNames-Run_example =
    UniqueNames-Run {host = host} {bounce = zeros}
      (one_more _ _ _ (one_more _ _ _ (no_call no_files) (on_create name_d name_d-IsCString))
        (on_create name_c name_c-IsCString))
      no_files-UniqueNames

created : State
unfolding fs_create
created = (fs_create (some name_d) no_files).1

created-eq : fs_create (some name_d) no_files ≡ (pos 0, created)
unfolding created fs_create is_filename_invalid find_matching_filename find_empty_root_entry
    find_first strcmp_eq
created-eq = refl

abbrev demo_info : Info
demo_info = record {
  total_blk_count = pos 11;
  fat_blk_count = 1;
  rdir_blk = 2;
  data_blk = 3;
  data_blk_count = 8;
  free_fat_entries = 4;
  free_root_entries = 126;
}

demo_info-eq : fs_info state ≡ some demo_info
unfolding fs_info count_if block_disk_count
demo_info-eq = refl

fs_info-fs_create_example :
    (info : Info) × (info' : Info) × (fs_info no_files ≡ some info)
    × (fs_info created ≡ some info')
    × (info.free_root_entries ≡ info'.free_root_entries + 1)
    × (info.free_fat_entries ≡ info'.free_fat_entries)
fs_info-fs_create_example = fs_info-fs_create name_d no_files created name_d-IsCString created-eq

fs_ls-fs_info_example : length (fs_ls state).1 + demo_info.free_root_entries ≡ 128
fs_ls-fs_info_example = fs_ls-fs_info state demo_info demo_info-eq

streq-strcmp_eq_example :
    streq file_c.filename (c_str name_c)
    ≡ (if strcmp_eq name_c file_c.filename 0 then pos 0 else failure)
streq-strcmp_eq_example = streq-strcmp_eq file_c.filename name_c name_c-IsCString (omega arith)

find_data_block-get_or_example : find_data_block table 1 1 ≡ 2
find_data_block-get_or_example = find_data_block-get_or 1 chain_ab

free_chain-fuel_example : free_chain 7 table 1 ≡ free_chain 2 table 1
free_chain-fuel_example = free_chain-fuel 5 table 1
