-- ===== src/Arr.antt =====
-- arr.c: arrays of `file_t *` sorted by offset or by name. A function that changes the array or
-- the structs that it points to returns both; the pointers NULL are `none`, and the asserts on
-- pointers hold by construction.
pub mod Search
pub mod Shift
pub mod ShiftDown
pub mod Insert
pub mod Remove
pub mod Names
pub mod Lookup
pub mod Sorted
pub mod Member
pub mod Frame
pub mod Offsets
use virtual_file_system.Common.{
  ℕ, zero, suc, ◌+◌, ◌-◌, ◌/◌, Ordering, Bool, true, false, ◌&&◌, Option, none, some, [], ◌∷◌, ltb,
  leb, ◌==◌, if◌then◌else◌, update, ℤ, pos, negsuc, minus_one, increment, decrement, Run, ok, abort,
  out_of_fuel, ◌>>=◌, ◌>>◌, assert,
}
use virtual_file_system.Structs.{
  max_file_data_len, max_num_files, name_len, CString, ArrType, by_offset, by_name, FileEntry, Ptr,
  Heap, Arr, store, free, Filesys,
}
use virtual_file_system.Memory.{strncmp}

-- `cmp_key`: the sign of its result
unfoldable pub cmp_key : FileEntry → FileEntry → ArrType → Ordering
cmp_key a b by_offset =
    if ltb a.offset b.offset
    then Ordering.lt
    else if ltb b.offset a.offset
    then Ordering.gt
    else if ltb 0 b.length
    then Ordering.eq
    else if leb max_file_data_len b.offset
    then Ordering.lt
    else Ordering.gt
cmp_key a b by_name = strncmp (name_len - 1) a.name b.name

-- `arr_init`. The slots of a new array are unspecified: the model has 0 there.
unfoldable pub arr_init : ℕ → ArrType → Run Arr
arr_init capacity type = do
  assert (leb capacity max_num_files)
  ok (record { size = 0; capacity = capacity; type = type; list = λ _. 0 })

-- The field that holds an entry's position in an array of the type.
abbrev pub position : ArrType → FileEntry → ℤ
position by_offset f = f.o_index
position by_name f = f.n_index

-- An assignment to that field.
abbrev pub set_position : ArrType → ℤ → FileEntry → FileEntry
set_position by_offset i f = record f { o_index = i }
set_position by_name i f = record f { n_index = i }

-- The loop of `arr_rshift`: `k` rounds, at the indices from `start + k - 1` down to `start`.
unfoldable pub rshift_loop : ℕ → ℕ → Arr → Heap → Arr × Heap
rshift_loop zero start a h = (a, h)
rshift_loop (suc k) start a h =
    let i = start + k in
    let p = a.list i in
    let f = h.cell p in
    rshift_loop k start (record a { list = update a.list (i + 1) p })
      (store p (set_position a.type (increment (position a.type f)) f) h)

-- `arr_rshift`
unfoldable pub arr_rshift : ℕ → ℕ → Arr → Heap → Arr × Heap
arr_rshift start end a h = rshift_loop (end + 1 - start) start a h

-- `arr_insert`. Its result is the index that it was given.
unfoldable pub arr_insert : ℕ → Ptr → Arr → Heap → Run (Arr × Heap)
arr_insert index file a h = do
  assert (leb index a.size)
  assert (ltb a.size a.capacity)
  let (a', h') = if ltb index a.size then arr_rshift index (a.size - 1) a h else (a, h)
  ok (
    record a' { list = update a'.list index file; size = a'.size + 1 },
    store file (set_position a.type (pos index) (h'.cell file)) h',
  )

-- The loop of `arr_get_index` between the indices `l` and `h`, over the comparison of the key with
-- the element at an index. Each round with `l < h` drops an index at least, so `h - l + 1` rounds
-- are enough.
unfoldable pub search_loop : ℕ → (ℕ → Ordering) → Bool → ℕ → ℕ → Run ℤ
search_loop zero cmp insert l h = out_of_fuel
search_loop (suc fuel) cmp insert l h =
    let m = (l + h) / 2 in
    elim (cmp m) [
      | Ordering.lt ↦ elim (leb m l) [
        | true ↦ ok (if insert then pos m else minus_one)
        | false ↦ search_loop fuel cmp insert l (m - 1)
      ]
      | Ordering.gt ↦ elim (leb h m) [
        | true ↦ ok (if insert then pos (m + 1) else minus_one)
        | false ↦ search_loop fuel cmp insert (m + 1) h
      ]
      | Ordering.eq ↦ ok (if insert then minus_one else pos m)
    ]

abbrev pub is_by_offset : ArrType → Bool
is_by_offset by_offset = true
is_by_offset by_name = false

-- `arr_get_index`
unfoldable pub arr_get_index : FileEntry → Arr → Heap → Bool → Run ℤ
arr_get_index file a h insert =
    if a.size == 0
    then ok (if insert then pos 0 else minus_one)
    else if insert && is_by_offset a.type && (file.length == 0)
    then ok (pos a.size)
    else search_loop a.size (λ m. cmp_key file (h.cell (a.list m)) a.type) insert 0 (a.size - 1)

-- `arr_sorted_insert`
unfoldable pub arr_sorted_insert : Ptr → Arr → Heap → Run (ℤ × Arr × Heap)
arr_sorted_insert file a h = do
  assert (ltb a.size a.capacity)
  index ← arr_get_index (h.cell file) a h true
  elim index [
    | negsuc _ ↦ ok (minus_one, a, h)
    | pos i ↦ do (a', h') ← arr_insert i file a h; ok (pos i, a', h')
  ]

-- The loop of `arr_lshift`: `k` rounds, at the indices from `start` on.
unfoldable pub lshift_loop : ℕ → ℕ → Arr → Heap → Arr × Heap
lshift_loop zero start a h = (a, h)
lshift_loop (suc k) start a h =
    let p = a.list start in
    let f = h.cell p in
    lshift_loop k (start + 1) (record a { list = update a.list (start - 1) p })
      (store p (set_position a.type (decrement (position a.type f)) f) h)

-- `arr_lshift`, where `start` is not 0
unfoldable pub arr_lshift : ℕ → ℕ → Arr → Heap → Arr × Heap
arr_lshift start end a h = lshift_loop (end + 1 - start) start a h

-- `arr_get`
unfoldable pub arr_get : ℕ → Arr → Run Ptr
arr_get index a = do assert (ltb index a.size); ok (a.list index)

-- `arr_remove`. A negative index fails the first assert.
unfoldable pub arr_remove : ℤ → Arr → Heap → Run (Ptr × Arr × Heap)
arr_remove (negsuc _) a h = abort
arr_remove (pos index) a h = do
  assert (ltb index a.size)
  assert (ltb 0 a.size)
  f ← arr_get index a
  let (a', h') = if ltb index (a.size - 1) then arr_lshift (index + 1) (a.size - 1) a h else (a, h)
  ok (f, record a' { size = a'.size - 1 }, store f (set_position a.type minus_one (h'.cell f)) h')

abbrev pub is_empty_name : CString → Bool
is_empty_name [] = true
is_empty_name (_ ∷ _) = false

-- The key check of `arr_get_by_key` and `arr_remove_by_key`: an offset out of `file_data`, or an
-- empty name. An unsigned offset is never below 0.
abbrev pub is_invalid_key : FileEntry → ArrType → ℕ → Bool
is_invalid_key key by_offset file_data_len = leb file_data_len key.offset
is_invalid_key key by_name file_data_len = is_empty_name key.name

-- `arr_get_by_key`
unfoldable pub arr_get_by_key : FileEntry → Arr → Heap → ℕ → Run (Option Ptr)
arr_get_by_key key a h file_data_len =
    if is_invalid_key key a.type file_data_len then ok none else do
      index ← arr_get_index key a h false
      elim index [ negsuc _ ↦ ok none | pos i ↦ do p ← arr_get i a; ok (some p) ]

-- `arr_remove_by_key`
unfoldable pub arr_remove_by_key : FileEntry → Arr → Heap → ℕ → Run (Option Ptr × Arr × Heap)
arr_remove_by_key key a h file_data_len =
    if is_invalid_key key a.type file_data_len then ok (none, a, h) else do
      found ← arr_get_by_key key a h file_data_len
      elim found [
        | none ↦ ok (none, a, h)
        | some p ↦ do (_, a', h') ← arr_remove (position a.type (h.cell p)) a h; ok (some p, a', h')
      ]

-- The loop of `free_arr_list`, from index `i` on.
unfoldable pub free_loop : ℕ → ℕ → Arr → Heap → Heap
free_loop zero i a h = h
free_loop (suc k) i a h = free_loop k (i + 1) a (free (a.list i) h)

-- `free_arr_list`: frees the structs, and sets the size of both arrays of the file system to 0.
unfoldable pub free_arr_list : Arr → Filesys → Filesys
free_arr_list a fs =
    if ltb 0 a.size
    then record fs {
      heap = free_loop a.size 0 a fs.heap;
      o_list = record (fs.o_list) { size = 0 };
      n_list = record (fs.n_list) { size = 0 };
    }
    else fs
