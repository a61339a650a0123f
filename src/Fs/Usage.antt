-- ===== src/Fs/Usage.antt =====
-- How a program uses the library: a file from its creation to its closing, and the reading of a file.
pub mod Succeeds
pub mod Store
pub mod Fetch
pub mod Content
pub mod Mounted
