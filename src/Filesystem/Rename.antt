-- ===== src/Filesystem/Rename.antt =====
-- `rename_file`.
pub mod Order
pub mod Renames
use virtual_file_system.Common.{
  ℕ, none, some, Ordering, Bool, true, false, if◌then◌else◌, Run, ok, ◌>>=◌,
}
use virtual_file_system.Structs.{CString, Ptr, Filesys, store}
use virtual_file_system.Memory.{strcmp}
use virtual_file_system.Helper.{update_file_name, update_dir_name}
use virtual_file_system.Filesystem.Create.{find_file}

-- `strcmp(a, b) == 0`
abbrev pub is_same_name : CString → CString → Bool
is_same_name a b = elim (strcmp a b) [ Ordering.eq ↦ true | _ ↦ false ]

-- The write of the new name, which leaves the entry where it is in both arrays.
unfoldable pub set_name : Ptr → CString → Filesys → Filesys
set_name p newname fs =
    let f = update_file_name newname (fs.heap.cell p) in
    record fs { heap = store p f fs.heap; dir = update_dir_name f fs.dir }

-- `rename_file`
unfoldable pub rename_file : CString → CString → Filesys → Run (ℕ × Filesys)
rename_file oldname newname fs = do
  found ← find_file oldname fs
  elim found [
    | none ↦ ok (1, fs)
    | some p ↦ if is_same_name oldname newname then ok (0, fs) else do
      taken ← find_file newname fs
      elim taken [ some _ ↦ ok (1, fs) | none ↦ ok (0, set_name p newname fs) ]
  ]
