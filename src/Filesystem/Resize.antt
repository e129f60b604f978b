-- ===== src/Filesystem/Resize.antt =====
-- `resize_file_helper` and `resize_file`.
use virtual_file_system.Common.{
  ℕ, ◌==◌, none, some, ltb, leb, if◌then◌else◌, ℤ, pos, negsuc, minus_one, add64, sub64, Run, ok,
  ◌>>=◌, Bool, false,
}
use virtual_file_system.Structs.{max_file_data_len, CString, Ptr, Filesys, store}
use virtual_file_system.Memory.{memcpy}
use virtual_file_system.Helper.{
  update_file_offset, update_file_length, update_dir_offset, update_dir_length,
  find_next_nonzero_file, write_null_byte,
}
use virtual_file_system.Arr.{arr_remove, arr_sorted_insert}
use virtual_file_system.Hash.{compute_hash_block_range}
use virtual_file_system.Filesystem.Repack.{repack_helper}
use virtual_file_system.Filesystem.Space.{next_index}
use virtual_file_system.Filesystem.Create.{find_file}

-- `update_file_offset(offset, file); update_dir_offset(file, fs); arr_sorted_insert(file, fs->o_list)`
unfoldable pub place_file : Ptr → ℕ → Filesys → Run Filesys
place_file p offset fs = do
  let f = update_file_offset offset (fs.heap.cell p)
  (_, o_list, heap) ← arr_sorted_insert p fs.o_list (store p f fs.heap)
  ok (record fs { dir = update_dir_offset f fs.dir; o_list = o_list; heap = heap })

-- `resize_file_helper`, where a file of size zero grows
unfoldable pub grow_zero_size : Ptr → ℕ → Filesys → Run (ℤ × Filesys)
grow_zero_size p length fs = do
  (_, o_list, heap) ← arr_remove (fs.heap.cell p).o_index fs.o_list fs.heap
  let fs = record fs { o_list = o_list; heap = heap }
  let repack_required : Bool = elim (find_next_nonzero_file 0 o_list heap) [
    | none ↦ false
    | some next ↦ ltb (heap.cell next).offset length
  ]
  let (hash_offset, packed) = repack_helper fs
  if repack_required
      then (do fs ← place_file p packed.used packed; ok (hash_offset, fs))
      else do fs ← place_file p 0 fs; ok (minus_one, fs)

-- `resize_file_helper`, where the file moves behind all others
unfoldable pub move_to_end : Ptr → ℕ → ℕ → Filesys → Run (ℤ × Filesys)
move_to_end p old_length copy fs = do
  let f = fs.heap.cell p
  let temp = memcpy (λ _. 0) 0 fs.file f.offset copy
  (_, o_list, heap) ← arr_remove f.o_index fs.o_list fs.heap
  let (hash_offset, fs) = repack_helper (record fs { o_list = o_list; heap = heap })
  let offset = sub64 fs.used old_length
  fs ← place_file p offset (record fs { file = memcpy fs.file offset temp 0 copy })
  ok (hash_offset, fs)

-- `resize_file_helper`, where the file grows
unfoldable pub grow_file : Ptr → ℕ → ℕ → Filesys → Run (ℤ × Filesys)
grow_file p length copy fs =
    let f = fs.heap.cell p in
    let room : ℕ = elim (find_next_nonzero_file (next_index f) fs.o_list fs.heap) [
      | none ↦ sub64 fs.file_data_len f.offset
      | some next ↦ sub64 (fs.heap.cell next).offset f.offset
    ] in
    if leb max_file_data_len f.offset
    then grow_zero_size p length fs
    else if ltb room length
    then move_to_end p f.length copy fs
    else ok (minus_one, fs)

-- `resize_file_helper`: the offset of the first byte that a repack changed, or -1
unfoldable pub resize_file_helper : Ptr → ℕ → ℕ → Filesys → Run (ℤ × Filesys)
resize_file_helper p length copy fs = do
  let old_length = (fs.heap.cell p).length
  (hash_offset, fs) ←
      (if ltb old_length length then grow_file p length copy fs else ok (minus_one, fs))
  let f = update_file_length length (fs.heap.cell p)
  ok (
    hash_offset,
    if length == old_length then fs else record fs {
      heap = store p f fs.heap;
      dir = update_dir_length f fs.dir;
      used = add64 fs.used (sub64 length old_length);
    },
  )

-- The last part of `resize_file`, where the file grew.
unfoldable pub fill_tail : Ptr → ℕ → ℕ → ℤ → Filesys → Run Filesys
fill_tail p old_length length hash_offset fs = do
  let offset = (fs.heap.cell p).offset
  file ← write_null_byte fs.file (add64 offset old_length) (sub64 length old_length)
  let fs = record fs { file = file }
  ok (elim hash_offset [
    | pos start ↦ compute_hash_block_range start (sub64 (add64 offset length) start) fs
    | negsuc _ ↦ compute_hash_block_range (add64 offset old_length) (sub64 length old_length) fs
  ])

-- `resize_file`
unfoldable pub resize_file : CString → ℕ → Filesys → Run (ℕ × Filesys)
resize_file filename length fs = do
  found ← find_file filename fs
  elim found [
    | none ↦ ok (1, fs)
    | some p ↦
        let old_length = (fs.heap.cell p).length in
        if ltb fs.file_data_len (sub64 (add64 fs.used length) old_length)
        then ok (2, fs)
        else if length == old_length
        then ok (0, fs)
        else do
          (hash_offset, fs) ← resize_file_helper p length old_length fs
          fs ←
              (if ltb old_length length
                then fill_tail p old_length length hash_offset fs
                else ok fs)
          ok (0, fs)
  ]
