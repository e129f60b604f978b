-- ===== src/Filesystem/Repack.antt =====
-- `repack_move`, `repack_helper` and `repack`.
pub mod Moves
pub mod Rounds
pub mod Packs
pub mod Kept
pub mod Tracks
pub mod Overlap
use virtual_file_system.Common.{
  ℕ, zero, suc, ◌+◌, ◌-◌, ◌%◌, ◌^◌, ◌&&◌, ◌||◌, not, Bool, ltb, leb, ◌==◌, if◌then◌else◌, ℤ, pos,
  negsuc, minus_one, is_negative, is_nonpositive64, add64, sub64,
}
use virtual_file_system.Structs.{max_file_data_len, Ptr, Filesys, store}
use virtual_file_system.Memory.{memcpy}
use virtual_file_system.Helper.{update_file_offset, update_dir_offset}
use virtual_file_system.Hash.{compute_hash_block_range}

-- `repack_move`. The parameter `new_offset` is a `uint32_t`.
unfoldable pub repack_move : Ptr → ℕ → Filesys → Filesys
repack_move p new_offset fs =
    let offset = new_offset % 2 ^ 32 in
    let f = fs.heap.cell p in
    let f' = update_file_offset offset f in
    record fs {
      file = if ltb 0 f.length then memcpy fs.file offset fs.file f.offset f.length else fs.file;
      dir = update_dir_offset f' fs.dir;
      heap = store p f' fs.heap;
    }

-- The loop of `repack_helper`: `k` rounds from index `i` on.
unfoldable pub repack_loop : ℕ → ℕ → ℤ → Filesys → ℤ × Filesys
repack_loop zero i hash_offset fs = (hash_offset, fs)
repack_loop (suc k) i hash_offset fs =
    let p = fs.o_list.list i in
    let prev = fs.heap.cell (fs.o_list.list (i - 1)) in
    let start_curr_file = (fs.heap.cell p).offset in
    let end_prev_file = add64 prev.offset prev.length in
    let is_zero_size = (fs.heap.cell p).length == 0 in
    let moves = ltb end_prev_file start_curr_file in
    let fs' = if moves then repack_move p end_prev_file fs else fs in
    let hash_offset' =
      if moves && (is_negative hash_offset && not is_zero_size)
      then pos (fs'.heap.cell p).offset
      else hash_offset in
    let rest = repack_loop k (i + 1) hash_offset' fs' in
    if leb max_file_data_len start_curr_file then (hash_offset, fs) else rest

-- `repack_helper`: the offset of the first byte that was changed, or -1
unfoldable pub repack_helper : Filesys → ℤ × Filesys
repack_helper fs =
    let p = fs.o_list.list 0 in
    let is_zero_size = (fs.heap.cell p).length == 0 in
    let moves = ltb 0 (fs.heap.cell p).offset in
    let fs' = if moves then repack_move p 0 fs else fs in
    let hash_offset = if moves && not is_zero_size then pos 0 else minus_one in
    if is_nonpositive64 fs.used || fs.o_list.size == 0
    then (minus_one, fs)
    else repack_loop (fs.o_list.size - 1) 1 hash_offset fs'

-- `repack`
unfoldable pub repack : Filesys → Filesys
repack fs =
    let (hash_offset, fs') = repack_helper fs in
    elim hash_offset [
      | negsuc _ ↦ fs'
      | pos start ↦ compute_hash_block_range start (sub64 fs'.used start) fs'
    ]
