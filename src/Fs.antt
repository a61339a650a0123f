-- ===== src/Fs.antt =====
-- libfs/fs.c: the file system over the virtual disk of `Disk`.
pub mod State
pub mod Codec
pub mod Names
pub mod Fat
pub mod Root
pub mod Descriptors
pub mod Directory
pub mod Mount
pub mod Transfer
pub mod Calls
pub mod Layout
pub mod Persist
pub mod Usage
pub mod View
