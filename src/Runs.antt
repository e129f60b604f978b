-- ===== src/Runs.antt =====
-- Runs of the operations on a small file system: four blocks of file_data, four entries of
-- dir_table and seven nodes of the hash tree.
use virtual_file_system.Common.{
  ◌-◌, ◌^◌, ℕ, ◌+◌, ◌≡◌, refl, [], ◌∷◌, Run, ok, ◌>>=◌, ℤ, pos, minus_one,
}
use virtual_file_system.Structs.{CString, Filesys}
use virtual_file_system.Memory.{
  memcpy, memset, bytes_of, load32, memcmp_equal, string_bytes, strncmp, strcmp,
}
use virtual_file_system.Helper.{
  p_index, lc_index, rc_index, update_file_name, update_file_offset, update_file_length, file_init,
  update_dir_name, update_dir_length, update_dir_offset, write_dir_file, nonzero_loop,
  find_next_nonzero_file, write_null_byte,
}
use virtual_file_system.Arr.{
  cmp_key, arr_init, rshift_loop, arr_rshift, arr_insert, search_loop, arr_get_index,
  arr_sorted_insert, lshift_loop, arr_lshift, arr_get, arr_remove, arr_get_by_key,
}
use virtual_file_system.Hash.{
  add_word, word_loop, fletcher_sums, fletcher, concat_children, leaf_address, hash_node, tree_loop,
  compute_hash_tree, rehash, ancestor_loop, compute_hash_block_helper, block_loop,
  compute_hash_block_range, is_node_valid, verify_loop, verify_blocks, verify_hash_range,
}
use virtual_file_system.Filesystem.Repack.{repack_move, repack_loop, repack_helper}
use virtual_file_system.Filesystem.Space.{
  index_loop, new_file_index, gap_loop, offset_behind, new_file_offset,
}
use virtual_file_system.Filesystem.Create.{name_key, find_file, fill_file, create_file}
use virtual_file_system.Filesystem.Resize.{
  place_file, grow_zero_size, move_to_end, grow_file, resize_file_helper, fill_tail, resize_file,
}
use virtual_file_system.Filesystem.Delete.{delete_file, file_size}
use virtual_file_system.Filesystem.Rename.{set_name, rename_file}
use virtual_file_system.Filesystem.Read.{read_file}
use virtual_file_system.Filesystem.Write.{to_int32, write_file}
use virtual_file_system.Filesystem.Mount.{read_string, add_entry, scan_loop, half32, init_fs}

blank : Run Filesys
blank = do fs ← init_fs (λ _. 0) 1024 (λ _. 0) 288 (λ _. 0) 112; compute_hash_tree fs

abbrev name_a : CString
name_a = 97 ∷ []

abbrev name_b : CString
name_b = 98 ∷ []

abbrev name_z : CString
name_z = 122 ∷ []

program : Unit {0}
unfolding blank memcpy memset bytes_of load32 memcmp_equal string_bytes strncmp strcmp p_index
    lc_index rc_index update_file_name update_file_offset update_file_length file_init
    update_dir_name update_dir_length update_dir_offset write_dir_file nonzero_loop
    find_next_nonzero_file write_null_byte cmp_key arr_init rshift_loop arr_rshift arr_insert
    search_loop arr_get_index arr_sorted_insert lshift_loop arr_lshift arr_get arr_remove
    arr_get_by_key add_word word_loop fletcher_sums fletcher concat_children leaf_address hash_node
    tree_loop compute_hash_tree rehash ancestor_loop compute_hash_block_helper block_loop
    compute_hash_block_range is_node_valid verify_loop verify_blocks verify_hash_range repack_move
    repack_loop repack_helper index_loop new_file_index gap_loop offset_behind new_file_offset
    name_key find_file fill_file create_file place_file grow_zero_size move_to_end grow_file
    resize_file_helper fill_tail resize_file delete_file file_size set_name rename_file read_file
    to_int32 write_file read_string add_entry scan_loop half32 init_fs
program = tt

-- A file that was written is read back.
write_then_read : Run (ℕ × ℕ)
unfolding program
write_then_read = do
  fs ← blank
  (_, fs) ← create_file name_a 10 fs
  (_, fs) ← write_file name_a 2 3 (λ i. i + 65) fs
  (r, buf) ← read_file name_a 0 10 (λ _. 0) fs
  ok (r, buf 3)

write_then_read_runs : write_then_read ≡ ok (0, 66)
unfolding write_then_read
write_then_read_runs = refl

-- After `a` is renamed to `z` the file `b` is not found: the array by name is not sorted again.
rename_loses : Run (ℤ × ℤ)
unfolding program
rename_loses = do
  fs ← blank
  (_, fs) ← create_file name_a 10 fs
  (_, fs) ← create_file name_b 20 fs
  (_, fs) ← rename_file name_a name_z fs
  b ← file_size name_b fs
  z ← file_size name_z fs
  ok (b, z)

rename_loses_runs : rename_loses ≡ ok (minus_one, pos 10)
unfolding rename_loses
rename_loses_runs = refl

-- A file of 512 bytes that grows behind a gap moves, and only the blocks behind its old length
-- are hashed: it cannot be read any more.
stale_hash : Run (ℕ × ℕ × ℕ)
unfolding program
stale_hash = do
  fs ← blank
  (_, fs) ← create_file name_a 256 fs
  (_, fs) ← create_file name_b 256 fs
  (_, fs) ← create_file name_z 512 fs
  (_, fs) ← write_file name_z 0 1 (λ _. 7) fs
  (_, fs) ← delete_file name_b fs
  (r, fs) ← resize_file name_z 600 fs
  (s, buf) ← read_file name_z 0 600 (λ _. 0) fs
  (t, buf) ← read_file name_a 0 256 (λ _. 0) fs
  ok (r, s, t)

stale_hash_runs : stale_hash ≡ ok (0, 3, 0)
unfolding stale_hash
stale_hash_runs = refl

-- The file `b` is resized to 0 bytes and the space around it is used by `d`. A repack then moves
-- `e` into `d`: the bytes of `d` are lost.
overlap : Run (ℕ × ℕ)
unfolding program
overlap = do
  fs ← blank
  (_, fs) ← create_file name_a 128 fs
  (_, fs) ← create_file name_b 128 fs
  (_, fs) ← create_file (99 ∷ []) 256 fs
  (_, fs) ← create_file (101 ∷ []) 256 fs
  (_, fs) ← resize_file name_b 0 fs
  (_, fs) ← delete_file name_a fs
  (_, fs) ← create_file (100 ∷ []) 256 fs
  (_, fs) ← write_file (101 ∷ []) 0 1 (λ _. 7) fs
  (_, fs) ← delete_file (99 ∷ []) fs
  (_, before) ← read_file (100 ∷ []) 0 256 (λ _. 1) fs
  (_, fs) ← create_file name_z 512 fs
  (_, buf) ← read_file (100 ∷ []) 0 256 (λ _. 1) fs
  ok (before 128, buf 128)

overlap_runs : overlap ≡ ok (0, 7)
unfolding overlap
overlap_runs = refl

-- The address of the block at 2^31 wraps: `hash_node` reads 2^31 bytes in front of file_data.
leaf_address_runs : (leaf_address (2 ^ 23) ≡ 2 ^ 64 - 2 ^ 31) × (leaf_address 7 ≡ 1792)
unfolding program
leaf_address_runs = (refl, refl)
