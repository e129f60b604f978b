-- ===== src/Filesystem/Create/Assembly.antt =====
-- `create_file` of a file with bytes, from the choice of its offset on.
use native.Mathlib.Decide.{dec_lt}
use virtual_file_system.Common.{
  ℕ, update, ◌+◌, ◌≤◌, ◌<◌, ◌≡◌, refl, sym, ap, ◌∙◌, ◌⊎◌, inl, inr, ℤ, ok, subst, arith,
}
use virtual_file_system.Structs.{max_file_data_len, CString, Ptr, Heap, Arr, Filesys}
use virtual_file_system.Memory.{memset}
use virtual_file_system.Memory.Copy.{memset-inside, memset-outside}
use virtual_file_system.Hash.Range.{IsHashed, compute_hash_block_range-frame}
use virtual_file_system.Arr.Insert.{Inserted}
use virtual_file_system.Arr.Names.{IsNameSorted}
use virtual_file_system.Arr.Member.{Member}
use virtual_file_system.Filesystem.Catalog.{IsCatalog, IsCatalog-data, find_file-Member}
use virtual_file_system.Filesystem.Layout.{IsSolid}
use virtual_file_system.Filesystem.Read.Reads.{IsSized}
use virtual_file_system.Filesystem.Space.Counted.{IsCounted, count_taken-update}
use virtual_file_system.Filesystem.Repack.Moves.{offset_at, length_at}
use virtual_file_system.Filesystem.Create.{fill_file}
use virtual_file_system.Filesystem.Create.Fresh.{fresh_heap}
use virtual_file_system.Filesystem.Create.Inserts.{Created, inserted, inserted-Created, same_file}
use virtual_file_system.Filesystem.Create.Places.{Place-Stands, inserted-IsSolid}
use virtual_file_system.Filesystem.Create.Based.{KeepsContents, IsBase, IsBase-IsOwned}
use virtual_file_system.Filesystem.Valid.{IsOwned}
use virtual_file_system.Filesystem.Valid.Owned.{Created-IsOwned}
use virtual_file_system.Filesystem.Create.Files.{
  CreatedFile, final, fill_file-final, final-IsHashed,
}

module _ (name : CString) (offset length : ℕ) (some_bytes : 0 < length)
    (small : length < max_file_data_len) (hash_offset : ℤ) (fs b : Filesys)
    (base : IsBase offset length hash_offset fs b) (room : fs.used + length ≤ fs.file_data_len)
    (sized : IsSized fs) (counted : IsCounted fs) (hashed : IsHashed fs) (owned : IsOwned fs)
    (index : ℕ) (in_table : index < b.index_len) (was_free : fs.index index ≡ 0) (r1 : Arr × Heap)
    (ins1 : Inserted base.slot b.heap.next b.o_list
      (fresh_heap b base.catalog name offset length index)
      r1)
    (k2 : ℕ) (r2 : Arr × Heap) (ins2 : Inserted k2 b.heap.next b.n_list r1.1 r2)
    (sorted2 : IsNameSorted r2.0 r2.1) where
  abbrev pub x : Filesys
  x = inserted b base.catalog name offset length index in_table base.slot r1 ins1 k2 r2 ins2 sorted2

  made : Created name offset length index b x
  made =
      inserted-Created b base.catalog name offset length index in_table base.slot r1 ins1 k2 r2 ins2
        sorted2

  pub x_hash : x.hash ≡ fs.hash
  x_hash = ap (λ (z : Filesys). z.hash) base.rest

  pub x_leaf : x.leaf_offset ≡ fs.leaf_offset
  x_leaf = ap (λ (z : Filesys). z.leaf_offset) base.rest

  pub x_used : x.used ≡ fs.used
  x_used = ap (λ (z : Filesys). z.used) base.rest

  abbrev pub result : Filesys
  result =
      final offset length some_bytes small hash_offset fs b base room sized x refl x_hash x_leaf
        x_used

  pub fill_file-result : fill_file offset length hash_offset x ≡ ok result
  fill_file-result =
      fill_file-final offset length some_bytes small hash_offset fs b base room sized x refl x_hash
        x_leaf x_used

  -- The result, with the hashes apart.
  abbrev after : Filesys
  after = record x {
    file = memset b.file offset 0 length;
    used = x.used + length;
    hash = result.hash;
  }

  result-after : result ≡ after
  result-after = compute_hash_block_range-frame _ _ _

  after-IsCatalog : IsCatalog after
  after-IsCatalog =
      IsCatalog-data x (memset b.file offset 0 length) result.hash (x.used + length) made.valid

  after-IsSolid : IsSolid after
  after-IsSolid =
      inserted-IsSolid b base.catalog base.solid name offset length index small base.slot
        (Place-Stands b base.catalog base.solid name offset length index small base.slot base.place
          some_bytes)
        r1 ins1 after refl
        (same_file b base.catalog name offset length index in_table base.slot r1 ins1 k2 r2 ins2
          sorted2)
        refl refl

  after-IsCounted : IsCounted after
  after-IsCounted =
      let index_same : b.index ≡ fs.index = ap (λ (z : Filesys). z.index) base.rest in
      let len_same : b.index_len ≡ fs.index_len = ap (λ (z : Filesys). z.index_len) base.rest in
      let count_same : b.index_count ≡ fs.index_count =
        ap (λ (z : Filesys). z.index_count) base.rest in
      count_taken-update b.index b.index_len index in_table (rw index_same was_free)
      ∙ (rw (index_same, len_same, count_same) (ap (λ n. n + 1) counted))

  after-IsOwned : IsOwned after
  after-IsOwned =
      let index_same : b.index ≡ fs.index = ap (λ (z : Filesys). z.index) base.rest in
      let o : IsOwned x =
        Created-IsOwned name offset length index b x
          (IsBase-IsOwned offset length hash_offset fs b base owned) made
          (rw index_same was_free) in
      record { taken = o.taken; own = o.own }

  after-IsSized : IsSized after
  after-IsSized =
      let len_same : b.file_data_len ≡ fs.file_data_len =
        ap (λ (z : Filesys). z.file_data_len) base.rest in
      record { blocks = rw (len_same, x_leaf) sized.blocks; limit = rw len_same sized.limit }

  n_list_same : b.n_list ≡ fs.n_list
  n_list_same = ap (λ (z : Filesys). z.n_list) base.rest

  -- An old file has no byte in the place of the new one.
  outside :
      (q : Ptr) (i : ℕ)
      → Member b.n_list q
      → i < (b.heap.cell q).length
      → ((b.heap.cell q).offset + i < offset) ⊎ (offset + length ≤ (b.heap.cell q).offset + i)
  outside q i m short =
      let (j, in_list, e) = (base.catalog.paired q).0 m in
      let at : offset_at b.o_list b.heap j ≡ (b.heap.cell q).offset =
        ap (λ z. (b.heap.cell z).offset) e in
      let of : length_at b.o_list b.heap j ≡ (b.heap.cell q).length =
        ap (λ z. (b.heap.cell z).length) e in
      elim (dec_lt j base.slot) [
        | yes low ↦ inl (omega (arith, base.place.before j low))
        | no high ↦ inr (omega (arith, base.place.behind j (omega arith) in_list))
      ]

  after-KeepsContents : KeepsContents fs after
  after-KeepsContents q m =
      let m' : Member b.n_list q = rw n_list_same m in
      let old = made.old q m' in
      let (same_length, same_bytes) = base.contents q m in
      (
        old.2 ∙ same_length,
        λ i short.
            ap (λ o. after.file (o + i)) old.1
            ∙ (memset-outside b.file offset 0 length ((b.heap.cell q).offset + i)
                  (outside q i m' (omega arith))
                ∙ same_bytes i short),
      )

  after-zeros : (i : ℕ) → i < length → after.file ((after.heap.cell b.heap.next).offset + i) ≡ 0
  after-zeros i q =
      ap (λ o. after.file (o + i)) made.new_offset ∙ memset-inside b.file offset 0 length i q

  pub after-CreatedFile : CreatedFile name length fs result
  after-CreatedFile = rw result-after (record {
    valid = record {
      catalog = after-IsCatalog;
      solid = after-IsSolid;
      counted = after-IsCounted;
      owned = after-IsOwned;
      hashed = subst IsHashed result-after (
          final-IsHashed offset length some_bytes small hash_offset fs b base room sized x refl
            x_hash x_leaf x_used hashed);
      sized = after-IsSized;
    };
    p = b.heap.next;
    found =
        find_file-Member after after-IsCatalog name b.heap.next
          ((made.members b.heap.next).1 (inr refl)) made.new_name;
    new_name = made.new_name;
    new_length = made.new_length ∙ omega arith;
    zeros = after-zeros;
    members = λ q. rw (sym n_list_same) (made.members q);
    fresh = λ m. omega (arith, base.catalog.below_next b.heap.next (rw n_list_same m));
    names = λ q m. (made.old q (rw n_list_same m)).0 ∙ base.names q;
    contents = after-KeepsContents;
    used = ap (λ n. n + length) x_used;
    base = b;
    origin = base.origin;
    same = λ q m. made.old q (rw n_list_same m);
    was_free = rw made.new_index was_free;
    in_table = rw (made.new_index, ap (λ (z : Filesys). z.index_len) (sym base.rest)) in_table;
    taken =
        made.taken ∙ (rw made.new_index (ap (λ (z : Filesys). update z.index index 1) base.rest));
    table = ap (λ (z : Filesys). z.index_len) base.rest;
    entry = made.entry;
  })
