-- ===== src/Tests.antt =====
-- The theorems at a small disk, and runs of the functions on it.
mod Demo
mod Files
mod Descriptors
mod Transfers
mod Layouts
mod Mounts
mod Tiny
mod Processes
mod Programs
mod EmptyFile
