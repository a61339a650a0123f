-- ===== src/Disk.antt =====
-- libfs/disk.c: the virtual disk, a host file that is read and written in whole blocks.
-- The host's `open`, `fstat`, `lseek`, `read` and `write` enter as the record `Host`: what they
-- answer is its fields, and the bytes of the host files are part of the state.
pub mod State
pub mod Access
pub mod Lifecycle
