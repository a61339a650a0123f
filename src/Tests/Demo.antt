-- ===== src/Tests/Demo.antt =====
-- A disk of 11 blocks: the superblock, a FAT block, the root directory and 8 data blocks. The file "ab" has
-- the data blocks 1 and 2 and is open at offset 100, the file "c" has block 3 and is closed.
use ecs150_project.Disk.State.{Host, IsReliable, Disk}
use ecs150_project.Fs.Calls.Geometry.{IsLaidOut}
use ecs150_project.Fs.Descriptors.Seek.{IsOpenAt}
use ecs150_project.Fs.Fat.Chain.{IsChain}
use ecs150_project.Fs.Names.{IsCString, CString}
use ecs150_project.Fs.State.{State, File, eoc, SuperBlock, Table, FileDescriptor}
use ecs150_project.Prelude.{
  ◌%◌, refl, true, false, none, some, [], ◌∷◌, arith, if◌then◌else◌, ◌==◌, Bytes,
}
use ecs150_project.Prelude.Lists.{get_or}

abbrev pub host : Host
host = record {
  open_file = λ name. some 0;
  fstat = λ f. some 45056;
  lseek_fails = λ n. false;
  read_fails = λ n. false;
  write_fails = λ n. false;
}

pub host-IsReliable : IsReliable host
host-IsReliable = record { seeks = λ n. refl; reads = λ n. refl; writes = λ n. refl }

abbrev pub zeros : Bytes
zeros i = 0

abbrev pub disk : Disk
disk = record { fd = some 0; bcount = 11; files = λ f i. i % 251 }

abbrev pub table : Table
table i =
    if i == 0 then eoc else if i == 1 then 2 else if i == 2 then eoc else if i == 3 then eoc else 0

abbrev pub blank : File
blank = record { filename = zeros; file_size = 0; first_index = eoc; padding = zeros }

abbrev pub name_ab : CString
name_ab = b'a' ∷ b'b' ∷ []

abbrev pub name_c : CString
name_c = b'c' ∷ []

abbrev pub name_d : CString
name_d = b'd' ∷ []

abbrev pub file_ab : File
file_ab = record {
  filename = λ i. get_or name_ab i 0;
  file_size = 5000;
  first_index = 1;
  padding = zeros;
}

abbrev pub file_c : File
file_c = record {
  filename = λ i. get_or name_c i 0;
  file_size = 10;
  first_index = 3;
  padding = zeros;
}

abbrev pub superblock : SuperBlock
superblock = record {
  signature = zeros;
  num_blocks = 11;
  root_index = 2;
  data_start_index = 3;
  num_data_blocks = 8;
  num_fat_blocks = 1;
  padding = zeros;
}

abbrev pub descriptor : FileDescriptor
descriptor = record { file = 0; offset = 100 }

abbrev pub state : State
state = record {
  sb = superblock;
  fat = table;
  root = λ i. if i == 0 then file_ab else if i == 1 then file_c else blank;
  open_files = λ i. if i == 0 then some descriptor else none;
  num_open_files = 1;
  is_disk_mounted = true;
  disk = disk;
}

pub state-IsLaidOut : IsLaidOut state
state-IsLaidOut = record {
  opened = λ e. ground arith;
  fat_small = omega arith;
  fits = omega arith;
  small = omega arith;
}

pub state-IsOpenAt : IsOpenAt state 0 descriptor
state-IsOpenAt = record { mounted = refl; in_range = omega arith; entry = refl }

pub chain_ab : IsChain 8 table 1 (1 ∷ 2 ∷ [])
chain_ab = record {
  links = (refl, omega arith, (refl, omega arith, refl));
  distinct = (refl, (refl, tt));
  in_range = (omega arith, omega arith, (omega arith, omega arith, tt));
}

pub chain_c : IsChain 8 table 3 (3 ∷ [])
chain_c = record {
  links = (refl, omega arith, refl);
  distinct = (refl, tt);
  in_range = (omega arith, omega arith, tt);
}

pub name_c-IsCString : IsCString name_c
name_c-IsCString = (omega arith, omega arith, tt)

pub name_ab-IsCString : IsCString name_ab
name_ab-IsCString = (omega arith, omega arith, (omega arith, omega arith, tt))

pub name_d-IsCString : IsCString name_d
name_d-IsCString = (omega arith, omega arith, tt)
