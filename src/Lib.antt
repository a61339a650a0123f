-- ===== src/Lib.antt =====
-- A file system in the manner of FAT over a virtual disk: libfs/fs.c over libfs/disk.c.
--
-- The program. libfs/disk.c keeps one host file open as a disk of 4096-byte blocks. libfs/fs.c keeps
-- the superblock, the FAT, the root directory of 128 entries and the table of 32 open files in
-- globals; `fs_mount` loads them from the disk and `fs_umount` stores them. A file's data blocks are
-- a chain in the FAT from the first index of its root entry to FAT_EOC. `fs_read` and `fs_write` go
-- to the blocks on the disk at once, while the FAT and the root directory change in memory.
--
-- The files, with what they model (paths from the root of the repository):
-- - Prelude: tests, options, integers and wrap-around (Prelude/Tests), arrays as functions with
--   `update` and `memcpy` (Prelude/Arrays), the first index of a loop that passes a test
--   (Prelude/Search), and lists (Prelude/Lists).
-- - Disk/State, Disk/Lifecycle, Disk/Access: `struct disk` and the operations of libfs/disk.c. The
--   calls of the host (`open`, `fstat`, `lseek`, `read`, `write`) are the record `Host`; `IsReliable`
--   says of a host that no access fails. A `read` or `write` that does not fail moves a whole block.
-- - Fs/State: the structs and globals of libfs/fs.c, the limits of libfs/fs.h, and the guards that
--   the operations on descriptors share.
-- - Fs/Codec: `concatenate_two_bytes`, `concatenate_four_bytes`, and the bytes that `fs_umount`
--   stores.
-- - Fs/Names: `streq`, `strcmp`, `is_filename_invalid` and the copy of a name into an entry.
-- - Fs/Root: `find_empty_root_entry` and `find_matching_filename`.
-- - Fs/Fat: the loops of `allocate_blocks_in_fat`, `find_data_block`, and the loop of `fs_delete`;
--   Fs/Fat/Chain has the list of blocks that a first index stands for, Fs/Fat/Blocks and
--   Fs/Fat/Links lemmas on such lists, Fs/Fat/Grow and Fs/Fat/Allocate the allocation, Fs/Fat/Release
--   the deletion.
-- - Fs/Descriptors: `add_file_to_fd_array`, `fs_open`, `fs_close`, `fs_stat`, `fs_lseek`.
-- - Fs/Directory: `fs_create`, `fs_delete`, `fs_ls`, `fs_info`, with a child for `fs_create`, for
--   `fs_delete` (and its loop, Fs/Directory/Release) and for the output of the other two
--   (Fs/Directory/Report).
-- - Fs/Mount: `fs_mount` and `fs_umount` with `load_disk`, `load_superblock`, `load_fat` and
--   `load_root_directory`; Fs/Mount/Root, Fs/Mount/StoredFat, Fs/Mount/Fat and Fs/Mount/Superblock
--   are about one of them each, Fs/Mount/Save, Fs/Mount/Reopen and Fs/Mount/RoundTrip about an unmount
--   and the next mount, Fs/Mount/Errors about a mount that fails, Fs/Mount/Images about the disks that a
--   mount accepts. `load_fat` reads into an array on the stack, which is too short for some disks; what
--   happens then is the argument `overrun` of `Memory`, and `BufferHolds` says that it does not come to it.
-- - Fs/Transfer: the three portions of `fs_read` and `fs_write`, over one file and the disk.
-- - Fs/Calls: `fs_read`, `fs_write` and `allocate_blocks_in_fat` on the whole state; Fs/Calls/Effect
--   and Fs/Calls/Slots are about any write, Fs/Calls/Outcome and Fs/Calls/Written
--   about one that succeeds or runs out of blocks.
-- - Fs/Layout: the invariant over all files (each has its own chain, no block belongs to two); its
--   children have one operation each, Fs/Layout/Steps, Fs/Layout/Counted and Fs/Layout/Unique
--   sequences of calls, Fs/Layout/Others what a write leaves of the other files.
-- - Fs/Persist: what survives an unmount and a mount in another process; Fs/Persist/Savable and
--   Fs/Persist/Steps say which calls leave a disk that can be saved, Fs/Persist/Files what a mount has of
--   the files, Fs/Persist/Sessions sequences of processes.
-- - Fs/Usage: the calls as programs string them together: when they succeed (Fs/Usage/Succeeds), a new
--   file stored (Fs/Usage/Store), a part of a file or all of it read (Fs/Usage/Fetch,
--   Fs/Usage/Content), and which calls change whether a disk is mounted (Fs/Usage/Mounted). The
--   records `StoredFile`, `Fetched` and `FetchedWhole` are what the proofs about the programs take
--   from the library.
-- - Fs/View: the specification. What a user sees is a map from names to a size and bytes, and each call is
--   an event that says what becomes of it (`Event`, `Effect`, `AbstractRun`); Fs/View/Create,
--   Fs/View/Delete and Fs/View/Write have one call each, Fs/View/Steps all of them, Fs/View/Reopen
--   sequences of processes.
-- - Apps: the programs under apps/. Apps/Simple has apps/simple_writer.c and apps/simple_reader.c, Apps/Text
--   the handling of text in apps/test_fs.c (`fgets` with its buffer of 1024 bytes, the 4 parts of a line), Apps/Desks what a script works on and Apps/Script its
--   interpreter (Apps/Script/Answers and Apps/Script/Whole are about what a script prints), Apps/Tool
--   its other commands and `main`, Apps/Tool/AddCat a file that is stored and printed.
-- - Tests: a small mounted disk (Tests/Demo), and the theorems applied to it.
--
-- How state and operations correspond. The globals are the record `State`; an operation takes the
-- state and returns its status with the new state. A status is a ℤ, and `failure` is -1. An array, a
-- table or a buffer is a function on the indexes, so an access behind the end of `open_files` reads
-- whatever lies there. A C string is the list of the bytes before its NUL, and a pointer that may be
-- NULL an option. A `struct File*` in a descriptor is the index of the root entry it points to. What
-- `malloc` returns and what memory holds before it is filled are arguments.
--
-- Widths, bounds and fuel. Fields of 8, 16 and 32 bits wrap around. In `fs_read` and `fs_write` the
-- `int` and `size_t` quantities are exact as long as offset + count stays below 2 ^ 31. A file's chain
-- is walked with one round of fuel for each entry of the FAT, which is enough since the blocks of a
-- chain are distinct. The loop of `fs_delete` gets two rounds, which decide whether it ends.
-- `fs_delete` and `fs_write` give `none` where the call does not return.
--
-- Programs. A program takes the globals of its process and gives an `Ending`: `main` returns, `exit` with a
-- message, a call that does not return, or a NULL pointer that is followed. The next process starts with
-- globals of its own over the same host files (`booted`). The files of the host that apps/test_fs.c reads,
-- and the text of a script, are parameters.
--
-- Not modelled: `printblock` and the messages of the library on stdout and stderr, which change no
-- state; `get_argv` of apps/test_fs.c, which nothing calls; `free` in `fs_close`, since nothing points
-- to the descriptor any more (behind the end of `open_files` it frees a foreign word, which is
-- undefined). `fs_ls`, `fs_info` and the commands of apps/test_fs.c give the values they print.
pub mod Prelude
pub mod Disk
pub mod Fs
pub mod Apps
pub mod Tests
