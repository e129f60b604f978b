-- ===== src/Filesystem/Valid.antt =====
-- The invariant of the whole file system, and that its operations keep it.
pub mod Owned
pub mod Deletes
pub mod Writes
pub mod Repacks
pub mod Renames
pub mod Stored
pub mod Steps
use virtual_file_system.Common.{ℕ, ◌<◌, ◌≡◌, ◌≢◌}
use virtual_file_system.Structs.{Ptr, Filesys}
use virtual_file_system.Hash.Range.{IsHashed}
use virtual_file_system.Arr.Member.{Member}
use virtual_file_system.Filesystem.Catalog.{IsCatalog}
use virtual_file_system.Filesystem.Layout.{IsSolid}
use virtual_file_system.Filesystem.Read.Reads.{IsSized}
use virtual_file_system.Filesystem.Space.Counted.{IsCounted}

-- Each file has an entry of dir_table that is marked as taken, and no two files have the same.
pub record IsOwned (fs : Filesys) : Type 0 where
  pub taken : (q : Ptr) → Member fs.n_list q → fs.index (fs.heap.cell q).index ≢ 0
  pub own :
      (p q : Ptr)
      → Member fs.n_list p
      → Member fs.n_list q
      → (fs.heap.cell p).index ≡ (fs.heap.cell q).index
      → p ≡ q

-- The arrays, the layout of file_data, the entries of dir_table and the hash tree are valid.
pub record IsValid (fs : Filesys) : Type 0 where
  pub catalog : IsCatalog fs
  pub solid : IsSolid fs
  pub counted : IsCounted fs
  pub owned : IsOwned fs
  pub hashed : IsHashed fs
  pub sized : IsSized fs
