-- ===== src/Filesystem/Mount.antt =====
-- `init_fs` and `close_fs`. The three files are opened and mapped by the operating system: their
-- bytes and lengths are arguments.
pub mod Entries
use virtual_file_system.Common.{
  ℕ, zero, suc, ◌+◌, ◌-◌, ◌*◌, ◌/◌, ◌%◌, ◌^◌, ltb, [], ◌∷◌, ◌==◌, if◌then◌else◌, update, add64, Run,
  ok, ◌>>=◌, ◌>>◌, Bool, true, false,
}
use virtual_file_system.Structs.{
  max_file_data_len, name_len, offset_len, meta_len, hash_len, CString, Bytes, by_offset, by_name,
  Filesys,
}
use virtual_file_system.Memory.{load32}
use virtual_file_system.Helper.{file_init}
use virtual_file_system.Arr.{arr_init, arr_sorted_insert, free_arr_list}

-- The string in the `n` bytes at `a`.
unfoldable pub read_string : ℕ → Bytes → ℕ → CString
read_string zero m a = []
read_string (suc n) m a = let rest = read_string n m (a + 1) in if m a == 0 then [] else m a ∷ rest

-- The body of the loop of `init_fs`, on an entry with a name.
unfoldable pub add_entry : ℕ → Filesys → Run Filesys
add_entry i fs = do
  let name = read_string (name_len - 1) fs.dir (i * meta_len)
  let length = load32 fs.dir (i * meta_len + name_len + offset_len)
  let offset = if length == 0 then max_file_data_len else load32 fs.dir (i * meta_len + name_len)
  let (f, heap) = file_init name offset length i fs.heap
  (_, o_list, heap) ← arr_sorted_insert f fs.o_list heap
  (_, n_list, heap) ← arr_sorted_insert f fs.n_list heap
  ok (record fs {
    o_list = o_list;
    n_list = n_list;
    heap = heap;
    used = add64 fs.used (heap.cell f).length;
    index = update fs.index i 1;
    index_count = fs.index_count + 1;
  })

-- The loop of `init_fs`: `k` entries from entry `i` on.
unfoldable pub scan_loop : ℕ → ℕ → Filesys → Run Filesys
scan_loop zero i fs = ok fs
scan_loop (suc k) i fs = elim (fs.dir (i * meta_len) == 0) [
  | true ↦ scan_loop k (i + 1) fs
  | false ↦ do fs ← add_entry i fs; scan_loop k (i + 1) fs
]

-- Half of the `int32_t` with the bit pattern `n`, rounded towards 0.
unfoldable pub half32 : ℕ → ℕ
half32 n = if ltb n (2 ^ 31) then n / 2 else 2 ^ 32 - (2 ^ 32 - n) / 2

-- `init_fs`, on the bytes and lengths of the three files. The `int32_t` fields are cut, and held by
-- their bit patterns; `arr_init` aborts on a negative `index_len`.
unfoldable pub init_fs : Bytes → ℕ → Bytes → ℕ → Bytes → ℕ → Run Filesys
init_fs file file_data_len dir dir_table_len hash hash_data_len = do
  let index_len = dir_table_len / meta_len % 2 ^ 32
  let tree_len = hash_data_len / hash_len % 2 ^ 32
  o_list ← arr_init index_len by_offset
  n_list ← arr_init index_len by_name
  scan_loop index_len 0 (record {
    file = file;
    dir = dir;
    hash = hash;
    file_data_len = file_data_len;
    dir_table_len = dir_table_len;
    hash_data_len = hash_data_len;
    o_list = o_list;
    n_list = n_list;
    used = 0;
    index_len = index_len;
    index_count = 0;
    index = λ _. 0;
    tree_len = tree_len;
    leaf_offset = half32 tree_len;
    heap = record {
      cell = λ _. record {
        name = [];
        offset = 0;
        length = 0;
        index = 0;
        o_index = virtual_file_system.Common.minus_one;
        n_index = virtual_file_system.Common.minus_one;
      };
      live = λ _. false;
      next = 0;
    };
  })

-- `close_fs`: what it frees of the files' structs
unfoldable pub close_fs : Filesys → Filesys
close_fs fs = let fs' = free_arr_list fs.o_list fs in free_arr_list fs'.n_list fs'
