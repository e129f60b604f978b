-- ===== src/Filesystem/Valid/Writes.antt =====
-- `write_file` inside the bounds of a file keeps the invariant.
use virtual_file_system.Common.{ℕ, suc, ◌+◌, ◌≤◌, ◌<◌, ◌≡◌, ap, inl, inr, some, ok, arith}
use virtual_file_system.Structs.{CString, Ptr, Filesys, Bytes}
use virtual_file_system.Memory.{memcpy}
use virtual_file_system.Arr.Member.{Member}
use virtual_file_system.Hash.Range.{IsHashed}
use virtual_file_system.Filesystem.Repack.Moves.{offset_at, length_at}
use virtual_file_system.Filesystem.Layout.{IsSolid-used, sum_below-le}
use virtual_file_system.Filesystem.Read.Reads.{IsPlaced}
use virtual_file_system.Filesystem.Write.{write_file}
use virtual_file_system.Filesystem.Write.InPlace.{write_file-IsHashed}
use virtual_file_system.Filesystem.Catalog.{IsCatalog, Finds}
use virtual_file_system.Filesystem.Valid.{IsValid}

module _ (fs : Filesys) (w : IsValid fs) (p : Ptr) (m : Member fs.n_list p) where
  -- A file with bytes lies inside file_data.
  pub IsValid-IsPlaced : 0 < (fs.heap.cell p).length → IsPlaced fs p
  IsValid-IsPlaced some_bytes =
      let (j, q, e) = (w.catalog.paired p).0 m in
      elim (w.solid.lies j q) [
        | inl (_, _, fits) ↦ rw (offset_at, length_at, e) at fits
        | inr (_, empty) ↦
            (let none : (fs.heap.cell p).length ≡ 0 = rw (length_at, e) at empty in
              absurd (omega arith))
      ]

  -- A file has no more bytes than all files together.
  pub IsValid-length : (fs.heap.cell p).length ≤ fs.used
  IsValid-length =
      let (j, q, e) = (w.catalog.paired p).0 m in
      let here : length_at fs.o_list fs.heap j ≡ (fs.heap.cell p).length =
        ap (λ z. (fs.heap.cell z).length) e in
      omega (
        arith,
        sum_below-le (length_at fs.o_list fs.heap) (suc j) fs.o_list.size q,
        w.solid.total,
        here,
      )

-- The invariant does not depend on the bytes of file_data and hash_data, but for the hash tree.
IsValid-bytes :
    (fs : Filesys) (file hash : Bytes)
    → IsValid fs
    → IsCatalog (record fs { file = file; hash = hash })
    → IsHashed (record fs { file = file; hash = hash })
    → IsValid (record fs { file = file; hash = hash })
IsValid-bytes fs file hash w catalog hashed = record {
  catalog = catalog;
  solid = record {
    apart = w.solid.apart;
    lies = w.solid.lies;
    total = w.solid.total;
    limit = w.solid.limit;
  };
  counted = w.counted;
  owned = record { taken = w.owned.taken; own = w.owned.own };
  hashed = hashed;
  sized = record { blocks = w.sized.blocks; limit = w.sized.limit };
}

-- On a valid file system, a write inside the bounds of a file returns 0, changes only the written
-- bytes and their hashes, and leaves a valid file system.
pub write_file-IsValid :
    (name : CString) (offset count : ℕ) (buf : Bytes) (fs : Filesys) (p : Ptr)
    → IsValid fs
    → Finds fs name (some p)
    → offset + count ≤ (fs.heap.cell p).length
    → 0 < count
    → (fs' : Filesys) × (write_file name offset count buf fs ≡ ok (0, fs'))
      × (fs' ≡ record fs {
        file = memcpy fs.file ((fs.heap.cell p).offset + offset) buf 0 count;
        hash = fs'.hash;
      })
      × IsValid fs'
write_file-IsValid name offset count buf fs p w f inside positive =
    let (fs', run, e, catalog, hashed) =
      write_file-IsHashed name offset count buf fs p w.catalog w.hashed w.sized f
        (IsValid-IsPlaced fs w p f.0 (omega arith)) inside positive (IsValid-length fs w p f.0)
        (IsSolid-used fs w.solid) in
    (
      fs',
      run,
      e,
      rw e (
          IsValid-bytes fs (memcpy fs.file ((fs.heap.cell p).offset + offset) buf 0 count) fs'.hash
            w (rw e at catalog) (rw e at hashed)),
    )
