-- ===== src/Filesystem/Delete.antt =====
-- `delete_file` and `file_size`.
pub mod Removes
use virtual_file_system.Common.{
  ℕ, ◌-◌, ◌*◌, none, some, update, ℤ, pos, minus_one, sub64, Run, ok, ◌>>=◌,
}
use virtual_file_system.Structs.{meta_len, CString, Filesys, free}
use virtual_file_system.Helper.{write_null_byte}
use virtual_file_system.Arr.{arr_remove}
use virtual_file_system.Filesystem.Create.{find_file}

-- `delete_file`. A file that is found is counted, so `index_count` is not 0.
unfoldable pub delete_file : CString → Filesys → Run (ℕ × Filesys)
delete_file filename fs = do
  found ← find_file filename fs
  elim found [
    | none ↦ ok (1, fs)
    | some p ↦ do
      let f = fs.heap.cell p
      (_, o_list, heap) ← arr_remove f.o_index fs.o_list fs.heap
      (_, n_list, heap) ← arr_remove (heap.cell p).n_index fs.n_list heap
      dir ← write_null_byte fs.dir (f.index * meta_len) 1
      ok (
        0,
        record fs {
          used = sub64 fs.used f.length;
          index = update fs.index f.index 0;
          index_count = fs.index_count - 1;
          o_list = o_list;
          n_list = n_list;
          dir = dir;
          heap = free p heap;
        },
      )
  ]

-- `file_size`
unfoldable pub file_size : CString → Filesys → Run ℤ
file_size filename fs = do
  found ← find_file filename fs
  elim found [ none ↦ ok minus_one | some p ↦ ok (pos (fs.heap.cell p).length) ]
