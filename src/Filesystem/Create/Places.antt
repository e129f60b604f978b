-- ===== src/Filesystem/Create/Places.antt =====
-- A new file with bytes goes to a free place, and the layout of file_data stays valid.
use virtual_file_system.Common.{
  ℕ, ◌+◌, ◌^◌, ◌≤◌, ◌<◌, ◌≡◌, refl, sym, ap, ◌∙◌, ◌⊎◌, inl, pos, ok, arith,
}
use virtual_file_system.Structs.{max_file_data_len, CString, FileEntry, Ptr, Heap, Arr, Filesys}
use virtual_file_system.Arr.{arr_sorted_insert}
use virtual_file_system.Arr.Insert.{Inserted}
use virtual_file_system.Arr.Offsets.{arr_sorted_insert-between}
use virtual_file_system.Arr.Frame.{SameFile}
use virtual_file_system.Filesystem.Catalog.{IsCatalog}
use virtual_file_system.Filesystem.Repack.Moves.{offset_at, length_at}
use virtual_file_system.Filesystem.Layout.{IsSolid, Lies}
use virtual_file_system.Filesystem.Layout.Splice.{
  Spliced, sum_below-Spliced, each-Spliced, apart-Spliced,
}
use virtual_file_system.Filesystem.Space.Gap.{Place}
use virtual_file_system.Filesystem.Create.Fresh.{
  fresh_heap, fresh_cell, old_cell, o_absent, o_list-IsIndexed,
}

module _ (fs : Filesys) (v : IsCatalog fs) (l : IsSolid fs) (name : CString)
    (offset length index : ℕ) (small : length < 2 ^ 32) where
  abbrev h1 : Heap
  h1 = fresh_heap fs v name offset length index

  fresh_length : (h1.cell fs.heap.next).length ≡ length
  fresh_length =
      ap (λ (x : FileEntry). x.length) (fresh_cell fs v name offset length index) ∙ omega arith

  fresh_offset : (h1.cell fs.heap.next).offset ≡ offset
  fresh_offset = ap (λ (x : FileEntry). x.offset) (fresh_cell fs v name offset length index)

  old_slot :
      (j : ℕ) → j < fs.o_list.size → h1.cell (fs.o_list.list j) ≡ fs.heap.cell (fs.o_list.list j)
  old_slot j q =
      old_cell fs v name offset length index (fs.o_list.list j)
        (o_absent fs v name offset length index (fs.o_list.list j) (j, q, refl))

  pub Place-Inserted :
      (k : ℕ) (place : Place k offset length fs)
      → 0 < length
      → fs.o_list.size < fs.o_list.capacity
      → (r : Arr × Heap) × (arr_sorted_insert fs.heap.next fs.o_list h1 ≡ ok (pos k, r.0, r.1))
        × Inserted k fs.heap.next fs.o_list h1 r
  Place-Inserted k place some_bytes room =
      arr_sorted_insert-between k fs.heap.next fs.o_list h1 v.o_type (rw fresh_length some_bytes)
        place.inside
        (λ j q.
          let old = old_slot j (omega (arith, place.inside)) in
          rw (fresh_offset, old) (omega (arith, place.before j q)))
        (λ j q r.
          let old = old_slot j r in rw (fresh_offset, old) (omega (arith, place.behind j q r)))
        (o_list-IsIndexed fs v name offset length index) room
        (λ j q e. o_absent fs v name offset length index (fs.o_list.list j) (j, q, refl) (sym e))

  -- Where the new file may stand: like any other, behind the files before slot `k`, and in front
  -- of the others.
  pub record Stands (k : ℕ) : Type 0 where
    pub inside : k ≤ fs.o_list.size
    pub before :
        (j : ℕ) → j < k → offset_at fs.o_list fs.heap j + length_at fs.o_list fs.heap j ≤ offset
    pub behind :
        (j : ℕ) → k ≤ j → j < fs.o_list.size → offset + length ≤ offset_at fs.o_list fs.heap j
    pub lies :
        ((offset < max_file_data_len) × (0 < length) × (offset + length ≤ fs.file_data_len))
        ⊎ ((offset ≡ max_file_data_len) × (length ≡ 0))

  pub Place-Stands : (k : ℕ) → Place k offset length fs → 0 < length → Stands k
  Place-Stands k place some_bytes = record {
    inside = place.inside;
    before = λ j q. (place.before j q).1;
    behind = place.behind;
    lies = inl (omega (arith, place.fits, l.limit), some_bytes, place.fits);
  }

  module _ (k : ℕ) (place : Stands k) (r1 : Arr × Heap)
      (ins : Inserted k fs.heap.next fs.o_list h1 r1) (fs' : Filesys)
      (same_list : fs'.o_list ≡ r1.0) (same : (q : Ptr) → SameFile (fs'.heap.cell q) (h1.cell q))
      (used : fs'.used ≡ fs.used + length) (len : fs'.file_data_len ≡ fs.file_data_len) where
    offsets :
        Spliced k fs.o_list.size offset
          (offset_at fs.o_list fs.heap)
          (offset_at fs'.o_list fs'.heap)
    offsets = rw same_list (record {
      low = λ j q.
          rw (ins.before j q, offset_at)
            ((same (fs.o_list.list j)).1
              ∙ ap (λ (x : FileEntry). x.offset) (old_slot j (omega (arith, place.inside))));
      at = rw (ins.at, offset_at) ((same fs.heap.next).1 ∙ fresh_offset);
      high = λ j q r.
          rw (ins.behind j q r, offset_at)
            ((same (fs.o_list.list j)).1 ∙ ap (λ (x : FileEntry). x.offset) (old_slot j r));
    })

    lengths :
        Spliced k fs.o_list.size length
          (length_at fs.o_list fs.heap)
          (length_at fs'.o_list fs'.heap)
    lengths = rw same_list (record {
      low = λ j q.
          rw (ins.before j q, length_at)
            ((same (fs.o_list.list j)).2
              ∙ ap (λ (x : FileEntry). x.length) (old_slot j (omega (arith, place.inside))));
      at = rw (ins.at, length_at) ((same fs.heap.next).2 ∙ fresh_length);
      high = λ j q r.
          rw (ins.behind j q r, length_at)
            ((same (fs.o_list.list j)).2 ∙ ap (λ (x : FileEntry). x.length) (old_slot j r));
    })

    size : fs'.o_list.size ≡ fs.o_list.size + 1
    size = rw same_list ins.size

    Lies-kept :
        (i j : ℕ)
        → offset_at fs'.o_list fs'.heap i ≡ offset_at fs.o_list fs.heap j
        → length_at fs'.o_list fs'.heap i ≡ length_at fs.o_list fs.heap j
        → j < fs.o_list.size
        → Lies fs' i
    Lies-kept i j e e' q = rw (e, e', len) (l.lies j q)

    pub inserted-IsSolid : IsSolid fs'
    inserted-IsSolid = record {
      apart = rw size (
          apart-Spliced k fs.o_list.size offset length (offset_at fs.o_list fs.heap)
            (offset_at fs'.o_list fs'.heap) (length_at fs.o_list fs.heap)
            (length_at fs'.o_list fs'.heap) place.inside offsets lengths l.apart place.before
            place.behind);
      lies = rw size (
          each-Spliced k fs.o_list.size offset (offset_at fs.o_list fs.heap)
            (offset_at fs'.o_list fs'.heap) place.inside offsets (Lies fs')
            (rw (offsets.at, lengths.at, len) place.lies)
            (λ j q. Lies-kept j j (offsets.low j q) (lengths.low j q) (omega (arith, place.inside)))
            (λ j q r. Lies-kept (j + 1) j (offsets.high j q r) (lengths.high j q r) r));
      total = rw size (
          sum_below-Spliced k fs.o_list.size length (length_at fs.o_list fs.heap)
            (length_at fs'.o_list fs'.heap) place.inside lengths
          ∙ omega (arith, l.total, used));
      limit = omega (arith, l.limit, len);
    }
