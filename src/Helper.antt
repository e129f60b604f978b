-- ===== src/Helper.antt =====
-- helper.c and the macros of helper.h.
pub mod NullBytes
use virtual_file_system.Common.{
  is_nonpositive64, ℕ, zero, suc, ◌+◌, ◌*◌, ◌/◌, ◌%◌, ◌^◌, ◌-◌, ◌&&◌, Option, none, some, ltb, leb,
  ◌==◌, if◌then◌else◌, length, take, ℤ, pos, minus_one, Run, ok, ◌>>◌, assert, update,
}
use virtual_file_system.Structs.{
  max_file_data_len, name_len, offset_len, meta_len, CString, Bytes, FileEntry, Ptr, Heap, Arr,
  alloc,
}
use virtual_file_system.Memory.{memcpy, memset, bytes_of, string_bytes}

-- `p_index`
unfoldable pub p_index : ℕ → ℤ
p_index n_index =
    if n_index % 2 == 1
    then pos (n_index / 2)
    else (if n_index / 2 == 0 then minus_one else pos (n_index / 2 - 1))

-- `lc_index`
unfoldable pub lc_index : ℕ → ℕ
lc_index n_index = 2 * n_index + 1

-- `rc_index`
unfoldable pub rc_index : ℕ → ℕ
rc_index n_index = 2 * n_index + 2

-- `update_file_name`: `strncpy` of 63 bytes and a terminator
unfoldable pub update_file_name : CString → FileEntry → FileEntry
update_file_name name f = record f { name = take (name_len - 1) name }

-- `update_file_offset`
unfoldable pub update_file_offset : ℕ → FileEntry → FileEntry
update_file_offset offset f = record f { offset = offset }

-- `update_file_length`: the field is a `uint32_t`
unfoldable pub update_file_length : ℕ → FileEntry → FileEntry
update_file_length length f = record f { length = length % 2 ^ 32 }

-- `file_init`: the new address and the heap
unfoldable pub file_init : CString → ℕ → ℕ → ℕ → Heap → Ptr × Heap
file_init name offset length index h =
    alloc
      (update_file_length length (
        update_file_offset offset (
          update_file_name name (record {
            name = name;
            offset = offset;
            length = length;
            index = index;
            o_index = minus_one;
            n_index = minus_one;
          }))))
      h

-- `update_dir_name`: the name with its terminator
unfoldable pub update_dir_name : FileEntry → Bytes → Bytes
update_dir_name f dir = memcpy dir (f.index * meta_len) (string_bytes f.name) 0 (length f.name + 1)

-- `update_dir_length`
unfoldable pub update_dir_length : FileEntry → Bytes → Bytes
update_dir_length f dir =
    memcpy dir (f.index * meta_len + name_len + offset_len) (bytes_of f.length) 0 4

-- `update_dir_offset`
unfoldable pub update_dir_offset : FileEntry → Bytes → Bytes
update_dir_offset f dir =
    if leb max_file_data_len f.offset
    then memset dir (f.index * meta_len + name_len) 0 4
    else memcpy dir (f.index * meta_len + name_len) (bytes_of f.offset) 0 4

-- `write_dir_file`
unfoldable pub write_dir_file : FileEntry → Bytes → Bytes
write_dir_file f dir = update_dir_length f (update_dir_offset f (update_dir_name f dir))

-- The loop of `find_next_nonzero_file`: `k` rounds from index `i` on.
unfoldable pub nonzero_loop : ℕ → ℕ → Arr → Heap → Option Ptr
nonzero_loop zero i a h = none
nonzero_loop (suc k) i a h =
    let f = h.cell (a.list i) in
    let rest = nonzero_loop k (i + 1) a h in
    if leb max_file_data_len f.offset
    then none
    else if ltb 0 f.length
    then some (a.list i)
    else rest

-- `find_next_nonzero_file`
unfoldable pub find_next_nonzero_file : ℕ → Arr → Heap → Option Ptr
find_next_nonzero_file index a h = nonzero_loop (a.size - index) index a h

-- `write_null_byte`, whose result is `count`. The parameters are given by their bit patterns.
unfoldable pub write_null_byte : Bytes → ℕ → ℕ → Run Bytes
write_null_byte f offset count = if is_nonpositive64 count then ok f else do
  assert (ltb count max_file_data_len && ltb offset max_file_data_len)
  ok (memset f offset 0 count)

-- The loop of `pwrite_null_byte`: `k` writes of one null byte, from `offset + i` on.
unfoldable pub pwrite_loop : ℕ → ℕ → ℕ → Bytes → Bytes
pwrite_loop zero i offset f = f
pwrite_loop (suc k) i offset f = pwrite_loop k (i + 1) offset (update f (offset + i) 0)

-- `pwrite_null_byte`, on the bytes of the open file that the descriptor stands for
unfoldable pub pwrite_null_byte : Bytes → ℕ → ℕ → Run Bytes
pwrite_null_byte f offset count = if is_nonpositive64 count then ok f else do
  assert (leb count max_file_data_len && leb offset max_file_data_len)
  ok (pwrite_loop count 0 offset f)
