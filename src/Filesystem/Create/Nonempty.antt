-- ===== src/Filesystem/Create/Nonempty.antt =====
-- `create_file` of a file with bytes.
use virtual_file_system.Common.{
  ℕ, ◌+◌, ◌≤◌, ◌<◌, ◌≡◌, ◌≢◌, refl, sym, ap, ◌∙◌, inl, inr, false, ltb, leb, ◌||◌, none, [], add64,
  ℤ, minus_one, ok, arith,
}
use virtual_file_system.Structs.{max_file_data_len, CString, Filesys}
use virtual_file_system.Hash.Range.{IsHashed}
use virtual_file_system.Filesystem.Space.{new_file_offset}
use virtual_file_system.Filesystem.Space.Counted.{IsCounted, new_file_index-free}
use virtual_file_system.Filesystem.Layout.{IsSolid}
use virtual_file_system.Filesystem.Read.Reads.{IsSized}
use virtual_file_system.Filesystem.Valid.{IsOwned}
use virtual_file_system.Filesystem.Catalog.{IsCatalog, Finds}
use virtual_file_system.Filesystem.Create.{find_file, create_file}
use virtual_file_system.Filesystem.Create.Fresh.{file_init-fresh, by_name-Inserted}
use virtual_file_system.Filesystem.Create.Places.{Place-Inserted}
use virtual_file_system.Filesystem.Space.Found.{OffsetFound, new_file_offset-OffsetFound}
use virtual_file_system.Filesystem.Repack.{repack_helper}
use virtual_file_system.Filesystem.Create.Based.{IsBase}
use virtual_file_system.Filesystem.Create.Behind.{repack_helper-IsBase}
use virtual_file_system.Filesystem.Create.Files.{CreatedFile}
use virtual_file_system.Filesystem.Create.Assembly.{result, fill_file-result, after-CreatedFile}

module _ (name : CString) (length : ℕ) (some_bytes : 0 < length)
    (small : length < max_file_data_len) (fs : Filesys) (counted : IsCounted fs)
    (hashed : IsHashed fs) (sized : IsSized fs) (owned : IsOwned fs) (ne : name ≢ [])
    (room : fs.used + length ≤ fs.file_data_len) (free : Finds fs name none)
    (e : find_file name fs ≡ ok none) (spare : fs.index_count < fs.index_len) where
  module _ (offset : ℕ) (hash_offset : ℤ) (b : Filesys)
      (e_offset : new_file_offset length minus_one fs ≡ ok (offset, hash_offset, b))
      (base : IsBase offset length hash_offset fs b) where
    spare' : b.index_count < b.index_len
    spare' = rw base.rest spare

    free' : Finds b name none
    free' q m = rw (base.names q) (free q (rw (ap (λ (z : Filesys). z.n_list) base.rest) at m))

    pub create_based :
        (fs' : Filesys) × (create_file name length fs ≡ ok (0, fs'))
        × CreatedFile name length fs fs'
    unfolding create_file
    create_based =
        let (i, e_index, in_table, was_free, lowest) = new_file_index-free fs counted spare in
        let in_table' : i < b.index_len = rw base.rest in_table in
        let (r1, e1, ins1) =
          Place-Inserted b base.catalog base.solid name offset length i small base.slot base.place
            some_bytes
            (omega
              (arith, base.catalog.counted, base.catalog.sizes, base.catalog.o_capacity, spare')) in
        let (k2, r2, e2, ins2, sorted2) =
          by_name-Inserted b base.catalog name offset length i base.slot r1 ins1 spare' ne free' in
        let t1 : (ltb fs.file_data_len (add64 fs.used length) || leb fs.index_len fs.index_count)
            ≡ false =
          ground (arith, sized.limit) in
        let e_fill =
          fill_file-result name offset length some_bytes small hash_offset fs b base room sized
            counted hashed owned i in_table' was_free r1 ins1 k2 r2 ins2 sorted2 in
        (
          result name offset length some_bytes small hash_offset fs b base room sized counted hashed
              owned i in_table' was_free r1 ins1 k2 r2 ins2 sorted2,
          rw e (
              rw t1 (
                rw e_index (
                  rw e_offset (
                    rw (file_init-fresh b base.catalog name offset length i)
                      (rw e1 (rw e2 (rw e_fill refl))))))),
          after-CreatedFile name offset length some_bytes small hash_offset fs b base room sized
              counted hashed owned i in_table' was_free r1 ins1 k2 r2 ins2 sorted2,
        )

  module _ (c : IsCatalog fs) (l : IsSolid fs) where
    pub create_new :
        (fs' : Filesys) × (create_file name length fs ≡ ok (0, fs'))
        × CreatedFile name length fs fs'
    create_new = go (new_file_offset-OffsetFound fs c l length some_bytes room)
      where
        go :
            ((r : ℕ × ℤ × Filesys) × (new_file_offset length minus_one fs ≡ ok r)
              × OffsetFound length fs r)
            → (fs' : Filesys) × (create_file name length fs ≡ ok (0, fs'))
              × CreatedFile name length fs fs'
        go (r, run, inl (unchanged, same, (k, place))) =
            create_based r.0 minus_one fs (run ∙ rw (sym unchanged, sym same) refl) (record {
              catalog = c;
              solid = l;
              slot = k;
              place = place;
              rest = refl;
              names = λ q. refl;
              indices = λ q. refl;
              origin = inl refl;
              next = refl;
              contents = λ q m. (refl, λ b short. refl);
              changes = refl;
              at_end = λ start e. absurd cc;
            })
        go (r, run, inr (some_file, positive, e')) =
            create_based (repack_helper fs).1.used (repack_helper fs).0 (repack_helper fs).1
              (run ∙ ap (λ x. ok x) e') (repack_helper-IsBase length fs c l room positive some_file)
