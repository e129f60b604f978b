-- ===== src/Filesystem.antt =====
-- The operations of myfilesystem.c. Each runs under the one mutex of the file system from its
-- first to its last line, so it is a function from the state to the new state; `msync` changes
-- no byte that the program sees, and is left out.
pub mod Space
pub mod Repack
pub mod Create
pub mod Resize
pub mod Delete
pub mod Rename
pub mod Read
pub mod Write
pub mod Mount
pub mod Catalog
pub mod Layout
pub mod View
pub mod Valid
