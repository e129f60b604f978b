-- ===== src/Filesystem/Create.antt =====
-- `create_file`, and the lookup by name with which every operation begins.
pub mod Fresh
pub mod Inserts
pub mod Places
pub mod Based
pub mod Files
pub mod Assembly
pub mod Empty
pub mod Behind
pub mod Nonempty
pub mod Append
pub mod Outcome
use virtual_file_system.Common.{
  ℕ, ◌+◌, ◌||◌, Option, none, some, ltb, leb, if◌then◌else◌, update, ℤ, pos, negsuc, minus_one,
  add64, sub64, Run, ok, ◌>>=◌,
}
use virtual_file_system.Structs.{CString, FileEntry, Ptr, Filesys}
use virtual_file_system.Helper.{update_file_name, file_init, write_dir_file, write_null_byte}
use virtual_file_system.Arr.{arr_get_by_key, arr_sorted_insert}
use virtual_file_system.Hash.{compute_hash_block_range}
use virtual_file_system.Filesystem.Space.{new_file_index, new_file_offset}

-- The variable `temp` after `update_file_name(filename, &temp)`. Only its name is read.
unfoldable pub name_key : CString → FileEntry
name_key filename = update_file_name filename (record {
  name = filename;
  offset = 0;
  length = 0;
  index = 0;
  o_index = minus_one;
  n_index = minus_one;
})

-- `arr_get_by_key(&temp, fs->n_list)`
unfoldable pub find_file : CString → Filesys → Run (Option Ptr)
find_file filename fs = arr_get_by_key (name_key filename) fs.n_list fs.heap fs.file_data_len

-- The last part of `create_file`: the bytes of a file that is not empty, and their hashes.
unfoldable pub fill_file : ℕ → ℕ → ℤ → Filesys → Run Filesys
fill_file offset length hash_offset fs =
    if ltb 0 length
    then (do
      file ← write_null_byte fs.file offset length
      let used = add64 fs.used length
      let fs' = record fs { file = file; used = used }
      ok (elim hash_offset [
        | pos start ↦ compute_hash_block_range start (sub64 used start) fs'
        | negsuc _ ↦ compute_hash_block_range offset length fs'
      ]))
    else ok fs

-- `create_file`
unfoldable pub create_file : CString → ℕ → Filesys → Run (ℕ × Filesys)
create_file filename length fs = do
  found ← find_file filename fs
  elim found [
    | some _ ↦ ok (1, fs)
    | none ↦
        if ltb fs.file_data_len (add64 fs.used length) || leb fs.index_len fs.index_count
        then ok (2, fs)
        else do
          index ← new_file_index fs
          (offset, hash_offset, fs) ← new_file_offset length minus_one fs
          let (f, heap) = file_init filename offset length index fs.heap
          (_, o_list, heap) ← arr_sorted_insert f fs.o_list heap
          (_, n_list, heap) ← arr_sorted_insert f fs.n_list heap
          fs ← fill_file offset length hash_offset (record fs {
            o_list = o_list;
            n_list = n_list;
            heap = heap;
            dir = write_dir_file (heap.cell f) fs.dir;
            index = update fs.index index 1;
            index_count = fs.index_count + 1;
          })
          ok (0, fs)
  ]
