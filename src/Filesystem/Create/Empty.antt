-- ===== src/Filesystem/Create/Empty.antt =====
-- `create_file` of an empty file, which is put at the offset 2^32 behind all others.
use native.Mathlib.Decide.{dec_lt, ℕ_discrete}
use virtual_file_system.Common.{
  ℕ, ◌+◌, ◌≤◌, ◌<◌, ◌≡◌, ◌≢◌, refl, sym, ap, ◌∙◌, ◌⊎◌, inl, inr, true, false, ltb, leb, ◌==◌, ◌||◌,
  Option, none, some, [], add64, pos, minus_one, ok, arith,
}
use virtual_file_system.Structs.{max_file_data_len, CString, Ptr, Heap, Arr, Filesys}
use virtual_file_system.Arr.{arr_get_index, arr_sorted_insert}
use virtual_file_system.Arr.Insert.{Inserted, arr_insert-Inserted}
use virtual_file_system.Filesystem.Space.{new_file_offset}
use virtual_file_system.Filesystem.Space.Counted.{
  IsCounted, new_file_index-free, count_taken-update,
}
use virtual_file_system.Filesystem.Create.{find_file, fill_file, create_file}
use virtual_file_system.Filesystem.Create.Fresh.{
  fresh_heap, file_init-fresh, o_list-IsIndexed, fresh_cell, o_absent, by_name-Inserted,
}
use virtual_file_system.Filesystem.Create.Inserts.{Created, inserted, inserted-Created}
use virtual_file_system.Filesystem.Catalog.{IsCatalog, Finds, find_file-Finds, find_file-Member}

module _ (name : CString) (fs : Filesys) (v : IsCatalog fs) (index : ℕ)
    (spare : fs.index_count < fs.index_len) where
  abbrev h1 : Heap
  h1 = fresh_heap fs v name max_file_data_len 0 index

  offset_empty :
      fs.used ≤ fs.file_data_len
      → new_file_offset 0 minus_one fs ≡ ok (max_file_data_len, minus_one, fs)
  unfolding new_file_offset
  offset_empty fits =
      let t1 : leb 0 fs.file_data_len ≡ true = ground arith in
      let t2 : leb (add64 fs.used 0) fs.file_data_len ≡ true = ground arith in rw t1 (rw t2 refl)

  -- An empty file goes behind all others.
  last_place : arr_get_index (h1.cell fs.heap.next) fs.o_list h1 true ≡ ok (pos fs.o_list.size)
  unfolding arr_get_index
  last_place = elim (ℕ_discrete fs.o_list.size 0) [
    | yes e ↦ rw e refl
    | no ne ↦
        (let test : (fs.o_list.size == 0) ≡ false = ground arith in
          rw (fresh_cell fs v name max_file_data_len 0 index) (rw test (rw v.o_type refl)))
  ]

  by_offset-Inserted :
      (r : Arr × Heap) × (arr_sorted_insert fs.heap.next fs.o_list h1
        ≡ ok (pos fs.o_list.size, r.0, r.1))
      × Inserted fs.o_list.size fs.heap.next fs.o_list h1 r
  unfolding arr_sorted_insert
  by_offset-Inserted =
      let room : fs.o_list.size < fs.o_list.capacity =
        omega (arith, v.counted, v.sizes, v.o_capacity) in
      let (r, e, ins) =
        arr_insert-Inserted fs.o_list.size fs.heap.next fs.o_list h1
          (o_list-IsIndexed fs v name max_file_data_len 0 index) (omega arith) room
          (λ j q same.
            o_absent fs v name max_file_data_len 0 index (fs.o_list.list j) (j, q, refl)
              (sym same)) in
      let test : ltb fs.o_list.size fs.o_list.capacity ≡ true = ground arith in
      (r, rw test (rw last_place (rw e refl)), ins)

-- The file system after the empty file was created.
pub record CreatedEmpty (name : CString) (fs fs' : Filesys) : Type 0 where
  pub index : ℕ
  pub in_table : index < fs.index_len
  pub was_free : fs.index index ≡ 0
  pub lowest : (j : ℕ) → j < index → fs.index j ≢ 0
  pub created : Created name max_file_data_len 0 index fs fs'
  pub counted : IsCounted fs'
  pub found : find_file name fs' ≡ ok (some fs.heap.next)
  pub rest : fs' ≡ record fs {
    o_list = fs'.o_list;
    n_list = fs'.n_list;
    heap = fs'.heap;
    dir = fs'.dir;
    index = fs'.index;
    index_count = fs.index_count + 1;
  }
  pub size : fs'.o_list.size ≡ fs.o_list.size + 1
  pub before : (j : ℕ) → j < fs.o_list.size → fs'.o_list.list j ≡ fs.o_list.list j
  pub last : fs'.o_list.list fs.o_list.size ≡ fs.heap.next

module _ (name : CString) (fs : Filesys) (v : IsCatalog fs) (c : IsCounted fs) (ne : name ≢ [])
    (fits : fs.used ≤ fs.file_data_len) (free : Finds fs name none)
    (e : find_file name fs ≡ ok none) (spare : fs.index_count < fs.index_len) where
  pub create_new :
      (fs' : Filesys) × (create_file name 0 fs ≡ ok (0, fs')) × CreatedEmpty name fs fs'
  unfolding create_file fill_file
  create_new =
      let (i, e_index, in_table, was_free, lowest) = new_file_index-free fs c spare in
      let (r1, e1, ins1) = by_offset-Inserted name fs v i spare in
      let (k2, r2, e2, ins2, sorted2) =
        by_name-Inserted fs v name max_file_data_len 0 i fs.o_list.size r1 ins1 spare ne free in
      let t1 : (ltb fs.file_data_len (add64 fs.used 0) || leb fs.index_len fs.index_count) ≡ false =
        ground arith in
      let after : Filesys =
        inserted fs v name max_file_data_len 0 i in_table fs.o_list.size r1 ins1 k2 r2 ins2
          sorted2 in
      let made : Created name max_file_data_len 0 i fs after =
        inserted-Created fs v name max_file_data_len 0 i in_table fs.o_list.size r1 ins1 k2 r2 ins2
          sorted2 in
      (
        after,
        rw e (
            rw t1 (
              rw e_index (
                rw (offset_empty name fs v i spare fits)
                  (rw (file_init-fresh fs v name max_file_data_len 0 i) (rw e1 (rw e2 refl)))))),
        record {
          index = i;
          in_table = in_table;
          was_free = was_free;
          lowest = lowest;
          created = made;
          counted =
              count_taken-update fs.index fs.index_len i in_table was_free ∙ ap (λ n. n + 1) c;
          found =
              find_file-Member after made.valid name fs.heap.next
                ((made.members fs.heap.next).1 (inr refl)) made.new_name;
          rest = refl;
          size = ins1.size;
          before = ins1.before;
          last = ins1.at;
        },
      )

-- What the creation of an empty file can do.
abbrev pub CreateOutcome : CString → Filesys → Type 0
CreateOutcome name fs =
    ((create_file name 0 fs ≡ ok (1, fs)) × ((p : Ptr) × Finds fs name (some p)))
    ⊎ (((create_file name 0 fs ≡ ok (2, fs)) × Finds fs name none × (fs.index_len ≤ fs.index_count))
        ⊎ (Finds fs name none
            × ((fs' : Filesys) × (create_file name 0 fs ≡ ok (0, fs')) × CreatedEmpty name fs fs')))

-- The creation of an empty file with a name that is not empty, on a file system whose arrays and
-- entry count are valid and whose files fit in file_data, never aborts and its searches end. It
-- returns 1 and changes nothing if a file has the name, and 2 if dir_table is full. Else it returns
-- 0: both arrays are valid and hold one file more, which has the name, the length 0, the offset
-- 2^32 and the lowest free entry, which stands behind all others by offset and which is found by
-- its name. The other files, file_data, hash_data and `used` are as before.
pub create_file-CreatedEmpty :
    (name : CString) (fs : Filesys)
    → IsCatalog fs
    → IsCounted fs
    → name ≢ []
    → fs.used ≤ fs.file_data_len
    → CreateOutcome name fs
unfolding create_file
create_file-CreatedEmpty name fs v c ne fits = go (find_file-Finds fs v name)
  where
    go : ((r : Option Ptr) × (find_file name fs ≡ ok r) × Finds fs name r) → CreateOutcome name fs
    go (some p, e, f) = inl (rw e refl, (p, f))
    go (none, e, f) = elim (dec_lt fs.index_count fs.index_len) [
      | yes spare ↦
          (let (fs', run, made) = create_new name fs v c ne fits f e spare in
            inr (inr (f, (fs', run, made))))
      | no full ↦
          (let t : (ltb fs.file_data_len (add64 fs.used 0) || leb fs.index_len fs.index_count)
                ≡ true =
              ground arith in
            inr (inl (rw e (rw t refl), f, omega arith)))
    ]
