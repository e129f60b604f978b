-- ===== src/Structs.antt =====
-- The constants and structs of structs.h.
use virtual_file_system.Common.{ℕ, ◌+◌, Bool, List, ℤ, update, true, false}

-- 2^32
abbrev pub max_file_data_len : ℕ
max_file_data_len = 4294967296

abbrev pub max_file_data_len_minus_one : ℕ
max_file_data_len_minus_one = 4294967295

abbrev pub block_len : ℕ
block_len = 256

abbrev pub max_num_files : ℕ
max_num_files = 65536

abbrev pub name_len : ℕ
name_len = 64

abbrev pub offset_len : ℕ
offset_len = 4

abbrev pub meta_len : ℕ
meta_len = 72

abbrev pub hash_len : ℕ
hash_len = 16

abbrev pub hash_offset_b : ℕ
hash_offset_b = 4

abbrev pub hash_offset_c : ℕ
hash_offset_c = 8

abbrev pub hash_offset_d : ℕ
hash_offset_d = 12

-- A C string: its bytes before the terminating null byte.
abbrev pub CString : Type 0
CString = List ℕ

-- The bytes of a memory-mapped file or a buffer, at their offsets.
abbrev pub Bytes : Type 0
Bytes = ℕ → ℕ

-- `TYPE`: by which key an array is sorted
pub data ArrType : Type 0 where
  by_offset by_name : ArrType

-- `file_t`
pub record FileEntry : Type 0 where
  pub name : CString
  pub offset : ℕ
  pub length : ℕ
  pub index : ℕ
  pub o_index : ℤ
  pub n_index : ℤ

-- A `file_t *` that is not NULL.
abbrev pub Ptr : Type 0
Ptr = ℕ

-- The allocated `file_t` structs. `live` says which addresses are allocated, `next` is the
-- address that the next `malloc` returns.
pub record Heap : Type 0 where
  pub cell : Ptr → FileEntry
  pub live : Ptr → Bool
  pub next : Ptr

-- `arr_t`. The slots from `size` on hold no element. `fs` is an argument of the functions that use it.
pub record Arr : Type 0 where
  pub size : ℕ
  pub capacity : ℕ
  pub type : ArrType
  pub list : ℕ → Ptr

-- `filesys_t`, with the heap that its pointers lead into. `used` is the bit pattern of an `int64_t`.
pub record Filesys : Type 0 where
  pub file : Bytes
  pub dir : Bytes
  pub hash : Bytes
  pub file_data_len : ℕ
  pub dir_table_len : ℕ
  pub hash_data_len : ℕ
  pub o_list : Arr
  pub n_list : Arr
  pub used : ℕ
  pub index_len : ℕ
  pub index_count : ℕ
  pub index : ℕ → ℕ
  pub tree_len : ℕ
  pub leaf_offset : ℕ
  pub heap : Heap

-- `*p = f`
abbrev pub store : Ptr → FileEntry → Heap → Heap
store p f h = record h { cell = update h.cell p f }

-- `malloc` of a `file_t` with the fields of `f`: the new address and the heap
abbrev pub alloc : FileEntry → Heap → Ptr × Heap
alloc f h = (
  h.next,
  record h { cell = update h.cell h.next f; live = update h.live h.next true; next = h.next + 1 },
)

-- `free`
abbrev pub free : Ptr → Heap → Heap
free p h = record h { live = update h.live p false }
