-- ===== src/Filesystem/Create/Fresh.antt =====
-- A new struct, inserted into both arrays.
use virtual_file_system.Common.{
  ok, pos, [], ℕ, ◌+◌, ◌%◌, ◌^◌, ◌<◌, ◌≡◌, ◌≢◌, refl, sym, ap, ◌∙◌, true, none, take, update,
  minus_one, arith,
}
use virtual_file_system.Structs.{CString, by_offset, FileEntry, Ptr, Heap, Arr, Filesys}
use virtual_file_system.Memory.Order.{take-take}
use virtual_file_system.Helper.{file_init, update_file_length, update_file_offset, update_file_name}
use virtual_file_system.Arr.{position, arr_get_index, arr_insert, arr_sorted_insert}
use virtual_file_system.Arr.Shift.{SameBut, update_self, update_ne}
use virtual_file_system.Arr.Insert.{IsIndexed, Inserted}
use virtual_file_system.Arr.Names.{name_at, IsNameSorted}
use virtual_file_system.Arr.Sorted.{arr_sorted_insert-IsNameSorted}
use virtual_file_system.Arr.Lookup.{Answers, take-ne_nil}
use virtual_file_system.Arr.Member.{Member}
use virtual_file_system.Arr.Frame.{
  SameFile, SameFile-SameBut, SameFile-trans, IsIndexed-o_list, IsNameSorted-names,
  IsIndexed-positions,
}
use virtual_file_system.Filesystem.Catalog.{IsCatalog, Finds}

module _ (fs : Filesys) (v : IsCatalog fs) (name : CString) (offset length index : ℕ) where
  -- The struct that `file_init` returns.
  abbrev pub fresh : FileEntry
  fresh = record {
    name = take 63 name;
    offset = offset;
    length = length % 2 ^ 32;
    index = index;
    o_index = minus_one;
    n_index = minus_one;
  }

  abbrev pub fresh_heap : Heap
  fresh_heap = record {
    cell = update fs.heap.cell fs.heap.next fresh;
    live = update fs.heap.live fs.heap.next true;
    next = fs.heap.next + 1;
  }

  pub file_init-fresh : file_init name offset length index fs.heap ≡ (fs.heap.next, fresh_heap)
  unfolding file_init update_file_length update_file_offset update_file_name
  file_init-fresh = refl

  pub fresh_cell : fresh_heap.cell fs.heap.next ≡ fresh
  fresh_cell = update_self fs.heap.cell fs.heap.next fresh

  pub n_absent : (q : Ptr) → Member fs.n_list q → q ≢ fs.heap.next
  n_absent q m e = omega (arith, v.below_next q m)

  pub o_absent : (q : Ptr) → Member fs.o_list q → q ≢ fs.heap.next
  o_absent q m = n_absent q ((v.paired q).1 m)

  pub old_cell : (q : Ptr) → q ≢ fs.heap.next → fresh_heap.cell q ≡ fs.heap.cell q
  old_cell q ne = update_ne fs.heap.cell fs.heap.next q fresh ne

  pub o_list-IsIndexed : IsIndexed fs.o_list fresh_heap
  o_list-IsIndexed =
      IsIndexed-positions fs.o_list fs.heap fresh_heap
        (λ i q.
          ap (position fs.o_list.type) (old_cell (fs.o_list.list i) (o_absent _ (i, q, refl))))
        v.o_indexed

  n_list-IsIndexed : IsIndexed fs.n_list fresh_heap
  n_list-IsIndexed =
      IsIndexed-positions fs.n_list fs.heap fresh_heap
        (λ i q.
          ap (position fs.n_list.type) (old_cell (fs.n_list.list i) (n_absent _ (i, q, refl))))
        v.n_indexed

  module _ (k : ℕ) (r1 : Arr × Heap) (ins1 : Inserted k fs.heap.next fs.o_list fresh_heap r1) where
    same1 : (q : Ptr) → SameBut by_offset (r1.1.cell q) (fresh_heap.cell q)
    same1 q = rw v.o_type at (ins1.same q)

    pub same_file1 : (q : Ptr) → SameFile (r1.1.cell q) (fresh_heap.cell q)
    same_file1 q = SameFile-SameBut by_offset (r1.1.cell q) (fresh_heap.cell q) (same1 q)

    pub name1 :
        (i : ℕ) → i < fs.n_list.size → name_at fs.n_list r1.1 i ≡ name_at fs.n_list fs.heap i
    name1 i q =
        (same_file1 (fs.n_list.list i)).0
        ∙ ap (λ (x : FileEntry). x.name) (old_cell (fs.n_list.list i) (n_absent _ (i, q, refl)))

    pub fresh_name1 : (r1.1.cell fs.heap.next).name ≡ take 63 name
    fresh_name1 = (same_file1 fs.heap.next).0 ∙ ap (λ (x : FileEntry). x.name) fresh_cell

    pub indexed1 : IsIndexed fs.n_list r1.1
    indexed1 =
        virtual_file_system.Arr.Frame.IsIndexed-n_list fs.n_list fresh_heap r1.1 v.sorted.type same1
          n_list-IsIndexed

    pub answers1 : Finds fs name none → Answers fs.n_list r1.1 (r1.1.cell fs.heap.next).name none
    answers1 free i q e =
        free (fs.n_list.list i) (i, q, refl)
          (sym (v.short (fs.n_list.list i) (i, q, refl))
            ∙ (rw (name1 i q, fresh_name1, take-take 63 name) at e))

    pub by_name-Inserted :
        fs.index_count < fs.index_len
        → name ≢ []
        → Finds fs name none
        → (k2 : ℕ) × (r : Arr × Heap) × (arr_sorted_insert fs.heap.next fs.n_list r1.1
            ≡ ok (pos k2, r.0, r.1))
          × Inserted k2 fs.heap.next fs.n_list r1.1 r
          × IsNameSorted r.0 r.1
    by_name-Inserted spare ne free =
        arr_sorted_insert-IsNameSorted fs.heap.next fs.n_list r1.1
          (IsNameSorted-names fs.n_list fs.heap r1.1 name1 v.sorted) indexed1
          (omega (arith, v.counted, v.n_capacity))
          (λ j q same. n_absent (fs.n_list.list j) (j, q, refl) (sym same))
          (rw fresh_name1 (take-ne_nil name ne)) (answers1 free)
