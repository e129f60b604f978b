-- ===== src/Filesystem/Delete/Removes.antt =====
-- `delete_file` removes the file with the name, and nothing else.
use virtual_file_system.Common.{
  ℕ, ◌+◌, ◌-◌, ◌*◌, ◌≤◌, ◌<◌, ◌≡◌, ◌≢◌, refl, sym, ap, ◌∙◌, ◌↔◌, ◌⊎◌, inl, inr, true, false, ltb,
  ◌==◌, Option, none, some, update, pos, sub64, ok, arith,
}
use virtual_file_system.Structs.{
  max_file_data_len, meta_len, CString, by_offset, by_name, FileEntry, Ptr, Heap, Arr, Filesys,
  free, Bytes,
}
use virtual_file_system.Memory.{memset}
use virtual_file_system.Helper.{write_null_byte}
use virtual_file_system.Arr.{position, arr_remove}
use virtual_file_system.Arr.Shift.{SameBut}
use virtual_file_system.Arr.Insert.{IsIndexed}
use virtual_file_system.Arr.Remove.{Removed, arr_remove-Removed}
use virtual_file_system.Arr.Member.{Member, Member-position, Member-removed}
use virtual_file_system.Arr.Sorted.{IsNameSorted-Removed}
use virtual_file_system.Arr.Frame.{
  SameFile, SameFile-SameBut, SameFile-trans, IsIndexed-n_list, IsIndexed-o_list,
  IsNameSorted-SameFile,
}
use virtual_file_system.Filesystem.Create.{find_file}
use virtual_file_system.Filesystem.Delete.{delete_file}
use virtual_file_system.Filesystem.Catalog.{IsCatalog, Finds, find_file-Finds}

-- `write_null_byte` of one byte inside the limits.
write_one :
    (m : Bytes) (offset : ℕ)
    → offset < max_file_data_len
    → write_null_byte m offset 1 ≡ ok (memset m offset 0 1)
unfolding write_null_byte
write_one m offset h = let test : ltb offset max_file_data_len ≡ true = ground arith in rw test

-- The file `p` is gone from `fs`.
pub record Deleted (p : Ptr) (fs fs' : Filesys) : Type 0 where
  pub valid : IsCatalog fs'
  pub members : (q : Ptr) → Member fs'.n_list q ↔ (Member fs.n_list q × (q ≢ p))
  pub same : (q : Ptr) → SameFile (fs'.heap.cell q) (fs.heap.cell q)
  pub rest : fs' ≡ record fs {
    used = sub64 fs.used (fs.heap.cell p).length;
    index = update fs.index (fs.heap.cell p).index 0;
    index_count = fs.index_count - 1;
    o_list = fs'.o_list;
    n_list = fs'.n_list;
    dir = fs'.dir;
    heap = fs'.heap;
  }
  pub dir : fs'.dir ≡ memset fs.dir ((fs.heap.cell p).index * meta_len) 0 1
  pub slot : ℕ
  pub listed : (slot < fs.o_list.size) × (fs.o_list.list slot ≡ p)
  pub size : fs'.o_list.size + 1 ≡ fs.o_list.size
  pub before : (j : ℕ) → j < slot → fs'.o_list.list j ≡ fs.o_list.list j
  pub behind :
      (j : ℕ) → slot ≤ j → j + 1 < fs.o_list.size → fs'.o_list.list j ≡ fs.o_list.list (j + 1)
  pub freed : fs'.heap.live p ≡ false
  pub released : fs'.index (fs.heap.cell p).index ≡ 0

module _ (fs : Filesys) (v : IsCatalog fs) (p : Ptr) (m : Member fs.n_list p) where
  abbrev in_names :
      (i : ℕ) × (i < fs.n_list.size)
      × (fs.n_list.list i ≡ p)
      × (position fs.n_list.type (fs.heap.cell p) ≡ pos i)
  in_names = Member-position fs.n_list fs.heap p v.n_indexed m

  abbrev in_offsets :
      (i : ℕ) × (i < fs.o_list.size)
      × (fs.o_list.list i ≡ p)
      × (position fs.o_list.type (fs.heap.cell p) ≡ pos i)
  in_offsets = Member-position fs.o_list fs.heap p v.o_indexed ((v.paired p).0 m)

  o_index : (fs.heap.cell p).o_index ≡ pos in_offsets.0
  o_index = ap (λ t. position t (fs.heap.cell p)) (sym v.o_type) ∙ in_offsets.3

  n_index : (fs.heap.cell p).n_index ≡ pos in_names.0
  n_index = ap (λ t. position t (fs.heap.cell p)) (sym v.sorted.type) ∙ in_names.3

  module _ (r1 : Ptr × Arr × Heap) (rem1 : Removed in_offsets.0 fs.o_list fs.heap r1) where
    same1 : (q : Ptr) → SameBut by_offset (r1.2.cell q) (fs.heap.cell q)
    same1 q = rw v.o_type at (rem1.same q)

    indexed1 : IsIndexed fs.n_list r1.2
    indexed1 = IsIndexed-n_list fs.n_list fs.heap r1.2 v.sorted.type same1 v.n_indexed

    sorted1 : virtual_file_system.Arr.Names.IsNameSorted fs.n_list r1.2
    sorted1 =
        IsNameSorted-SameFile fs.n_list fs.heap r1.2
          (λ q. SameFile-SameBut by_offset (r1.2.cell q) (fs.heap.cell q) (same1 q)) v.sorted

    module _ (r2 : Ptr × Arr × Heap) (rem2 : Removed in_names.0 fs.n_list r1.2 r2) where
      same2 : (q : Ptr) → SameBut by_name (r2.2.cell q) (r1.2.cell q)
      same2 q = rw v.sorted.type at (rem2.same q)

      same_file : (q : Ptr) → SameFile (r2.2.cell q) (fs.heap.cell q)
      same_file q =
          SameFile-trans (r2.2.cell q) (r1.2.cell q) (fs.heap.cell q)
            (SameFile-SameBut by_name (r2.2.cell q) (r1.2.cell q) (same2 q))
            (SameFile-SameBut by_offset (r1.2.cell q) (fs.heap.cell q) (same1 q))

      abbrev after : Filesys
      after = record fs {
        used = sub64 fs.used (fs.heap.cell p).length;
        index = update fs.index (fs.heap.cell p).index 0;
        index_count = fs.index_count - 1;
        o_list = r1.1;
        n_list = r2.1;
        dir = memset fs.dir ((fs.heap.cell p).index * meta_len) 0 1;
        heap = free p r2.2;
      }

      n_members : (q : Ptr) → Member r2.1 q ↔ (Member fs.n_list q × (q ≢ p))
      n_members q =
          rw (sym in_names.2)
            (Member-removed in_names.0 fs.n_list r1.2 in_names.1 indexed1 r2 rem2 q)

      o_members : (q : Ptr) → Member r1.1 q ↔ (Member fs.o_list q × (q ≢ p))
      o_members q =
          rw (sym in_offsets.2)
            (Member-removed in_offsets.0 fs.o_list fs.heap in_offsets.1 v.o_indexed r1 rem1 q)

      old-Member : (q : Ptr) → Member r2.1 q → Member fs.n_list q
      old-Member q m' = ((n_members q).0 m').0

      after-IsCatalog : IsCatalog after
      after-IsCatalog = record {
        sorted =
            IsNameSorted-SameFile r2.1 r2.2 (free p r2.2) (λ q. (refl, refl, refl, refl))
              (IsNameSorted-Removed in_names.0 fs.n_list r1.2 r2 sorted1 rem2);
        n_indexed = rem2.indexed;
        o_type = rem1.type ∙ v.o_type;
        o_indexed =
            IsIndexed-o_list r1.1 r1.2 (free p r2.2) (rem1.type ∙ v.o_type) same2 rem1.indexed;
        paired = λ q. (
          λ m'. (o_members q).1 ((v.paired q).0 ((n_members q).0 m').0, ((n_members q).0 m').1),
          λ m'. (n_members q).1 ((v.paired q).1 ((o_members q).0 m').0, ((o_members q).0 m').1),
        );
        sizes = omega (arith, rem1.size, rem2.size, v.sizes);
        n_capacity = rem2.capacity ∙ v.n_capacity;
        o_capacity = rem1.capacity ∙ v.o_capacity;
        counted = omega (arith, rem2.size, v.counted);
        limit = v.limit;
        slot = λ q m'. rw (same_file q).3 (v.slot q (old-Member q m'));
        short = λ q m'. rw (same_file q).0 (v.short q (old-Member q m'));
        allocated = λ q m'.
            let ne : (q == p) ≡ false = ground (arith, ((n_members q).0 m').1) in
            rw ne (rw (rem2.live ∙ rem1.live) (v.allocated q (old-Member q m')));
        below_next = λ q m'. rw (rem2.next ∙ rem1.next) (v.below_next q (old-Member q m'));
      }

      after-Deleted : Deleted p fs after
      after-Deleted = record {
        valid = after-IsCatalog;
        members = n_members;
        same = same_file;
        rest = refl;
        dir = refl;
        slot = in_offsets.0;
        listed = (in_offsets.1, in_offsets.2);
        size = rem1.size;
        before = rem1.before;
        behind = rem1.behind;
        freed = ground arith;
        released = ground arith;
      }

  -- The steps of `delete_file` behind the lookup.
  delete_found :
      (name : CString)
      → find_file name fs ≡ ok (some p)
      → (fs' : Filesys) × (delete_file name fs ≡ ok (0, fs')) × Deleted p fs fs'
  unfolding delete_file
  delete_found name found =
      let (r1, e1, rem1) =
        arr_remove-Removed in_offsets.0 fs.o_list fs.heap v.o_indexed in_offsets.1 in
      let (r2, e2, rem2) =
        arr_remove-Removed in_names.0 fs.n_list r1.2 (indexed1 r1 rem1) in_names.1 in
      let n_kept : (r1.2.cell p).n_index ≡ pos in_names.0 =
        ap (λ (x : FileEntry). x.n_index) (same1 r1 rem1 p) ∙ n_index in
      let small : (fs.heap.cell p).index * meta_len < max_file_data_len =
        omega (arith, v.slot p m, v.limit) in
      (
        after r1 rem1 r2 rem2,
        rw found (
            rw o_index (
              rw e1 (
                rw n_kept
                  (rw e2 (rw (write_one fs.dir ((fs.heap.cell p).index * meta_len) small)))))),
        after-Deleted r1 rem1 r2 rem2,
      )

-- `delete_file` never aborts on a file system whose arrays are valid. It returns 1 and changes
-- nothing if no file has the name. Else it returns 0, and exactly the file with the name is gone:
-- the arrays are valid and hold all other files in the same order by offset, no file changes its
-- name, offset, length or entry, `used` and `index_count` go down by the length and by 1, file_data
-- and hash_data are as before, the struct is freed and the entry is free, also by a null byte at its
-- start in dir_table.
pub delete_file-Deleted :
    (name : CString) (fs : Filesys)
    → IsCatalog fs
    → ((delete_file name fs ≡ ok (1, fs)) × Finds fs name none)
      ⊎ ((p : Ptr) × Finds fs name (some p)
          × ((fs' : Filesys) × (delete_file name fs ≡ ok (0, fs')) × Deleted p fs fs'))
unfolding delete_file
delete_file-Deleted name fs v = go (find_file-Finds fs v name)
  where
    go :
        ((r : Option Ptr) × (find_file name fs ≡ ok r) × Finds fs name r)
        → ((delete_file name fs ≡ ok (1, fs)) × Finds fs name none)
          ⊎ ((p : Ptr) × Finds fs name (some p)
              × ((fs' : Filesys) × (delete_file name fs ≡ ok (0, fs')) × Deleted p fs fs'))
    go (none, e, f) = inl (rw e, f)
    go (some p, e, f) = inr (p, f, delete_found fs v p f.0 name e)
