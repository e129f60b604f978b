-- ===== src/Filesystem/Write/InPlace.antt =====
-- `write_file` inside the bounds of a file: what it changes, and that it is read back.
use virtual_file_system.Common.{
  ℕ, ◌+◌, ◌≤◌, ◌<◌, ◌≡◌, subst, ap, ◌∙◌, false, ltb, ◌==◌, some, add64, sub64, ok, arith,
}
use virtual_file_system.Structs.{CString, Bytes, Ptr, Filesys}
use virtual_file_system.Memory.{memcpy}
use virtual_file_system.Memory.Copy.{memcpy-inside, memcpy-front}
use virtual_file_system.Hash.{compute_hash_block_range}
use virtual_file_system.Hash.Range.{
  IsHashed, SameOutside, compute_hash_block_range-IsHashed, compute_hash_block_range-frame,
}
use virtual_file_system.Hash.Verify.{InReach}
use virtual_file_system.Filesystem.Read.{read_file}
use virtual_file_system.Filesystem.Write.{write_file, to_int32}
use virtual_file_system.Filesystem.Catalog.{IsCatalog, IsCatalog-data, Finds}
use virtual_file_system.Filesystem.Read.Reads.{IsSized, IsPlaced, find_file-some, read_file-bytes}

-- The arrays do not depend on the bytes of file_data and hash_data.
pub IsCatalog-bytes :
    (fs : Filesys) (file hash : Bytes)
    → IsCatalog fs
    → IsCatalog (record fs { file = file; hash = hash })
IsCatalog-bytes fs file hash v = IsCatalog-data fs file hash fs.used v

memcpy-SameOutside : (dst src : Bytes) (d s n : ℕ) → SameOutside d n (memcpy dst d src s n) dst
unfolding memcpy
memcpy-SameOutside dst src d s n a h = ground arith

module _ (name : CString) (offset count : ℕ) (buf : Bytes) (fs : Filesys) (p : Ptr)
    (v : IsCatalog fs) (hashed : IsHashed fs) (sized : IsSized fs) (f : Finds fs name (some p))
    (placed : IsPlaced fs p) (inside : offset + count ≤ (fs.heap.cell p).length)
    (positive : 0 < count) (counted : (fs.heap.cell p).length ≤ fs.used)
    (used : fs.used ≤ fs.file_data_len) where
  abbrev start : ℕ
  start = (fs.heap.cell p).offset + offset

  -- file_data after the write.
  abbrev written : Bytes
  written = memcpy fs.file start buf 0 count

  abbrev after : Filesys
  after = compute_hash_block_range start count (record fs { file = written })

  write_file-after : write_file name offset count buf fs ≡ ok (0, after)
  unfolding write_file to_int32
  write_file-after =
      let valid : ltb (fs.heap.cell p).length offset ≡ false = ground arith in
      let room : ltb fs.file_data_len
            (sub64 (add64 (add64 fs.used offset) count) (fs.heap.cell p).length)
          ≡ false =
        ground (arith, sized.limit) in
      let nonzero : (count == 0) ≡ false = ground arith in
      let fits : ltb (fs.heap.cell p).length (add64 offset count) ≡ false =
        ground (arith, sized.limit) in
      let at : add64 (fs.heap.cell p).offset offset ≡ start = omega (arith, sized.limit) in
      rw (find_file-some name fs p v f) (rw valid (rw room (rw nonzero (rw fits (rw at)))))

  after-IsHashed : IsHashed after
  after-IsHashed =
      compute_hash_block_range-IsHashed start count written positive (omega (arith, sized.blocks))
        (omega (arith, sized.limit)) (memcpy-SameOutside fs.file buf start 0 count) hashed

  after-frame : after ≡ record fs { file = written; hash = after.hash }
  after-frame = compute_hash_block_range-frame start count (record fs { file = written })

  after-IsCatalog : IsCatalog after
  after-IsCatalog = rw after-frame (IsCatalog-bytes fs written after.hash v)

  after-read :
      (dst : Bytes)
      → InReach fs ((fs.heap.cell p).offset + offset) count
      → (dst' : Bytes) × (read_file name offset count dst after ≡ ok (0, dst'))
        × ((k : ℕ) → k < count → dst' k ≡ buf k)
  after-read dst reach =
      let fs' : Filesys = record fs { file = written; hash = after.hash } in
      let valid = IsCatalog-bytes fs written after.hash v in
      let hashed' : IsHashed fs' = subst IsHashed after-frame after-IsHashed in
      let sized' : IsSized fs' = record { blocks = sized.blocks; limit = sized.limit } in
      (
        memcpy dst 0 written start count,
        rw after-frame (
            read_file-bytes name offset count dst fs' p valid hashed' sized' f placed
              (record { range = reach.range; leaves = reach.leaves }) inside positive),
        λ k h.
            memcpy-front dst written start count k h
            ∙ memcpy-inside fs.file start buf 0 count k h
            ∙ ap buf (omega arith),
      )

-- On a file system whose arrays, hash tree and sizes are valid, and where `used` counts at least
-- the bytes of the file and is at most the length of file_data, a write of one byte or more
-- inside the bounds of a file, which lies in file_data, returns 0. It changes only the written
-- bytes of file_data, and hash_data, which is right for them; the arrays stay valid.
pub write_file-IsHashed :
    (name : CString) (offset count : ℕ) (buf : Bytes) (fs : Filesys) (p : Ptr)
    → IsCatalog fs
    → IsHashed fs
    → IsSized fs
    → Finds fs name (some p)
    → IsPlaced fs p
    → offset + count ≤ (fs.heap.cell p).length
    → 0 < count
    → (fs.heap.cell p).length ≤ fs.used
    → fs.used ≤ fs.file_data_len
    → (fs' : Filesys) × (write_file name offset count buf fs ≡ ok (0, fs'))
      × (fs' ≡ record fs {
        file = memcpy fs.file ((fs.heap.cell p).offset + offset) buf 0 count;
        hash = fs'.hash;
      })
      × IsCatalog fs'
      × IsHashed fs'
write_file-IsHashed name offset count buf fs p v hashed sized f placed inside positive counted
      used =
    (
      after name offset count buf fs p v hashed sized f placed inside positive counted used,
      write_file-after name offset count buf fs p v hashed sized f placed inside positive counted
          used,
      after-frame name offset count buf fs p v hashed sized f placed inside positive counted used,
      after-IsCatalog name offset count buf fs p v hashed sized f placed inside positive counted
          used,
      after-IsHashed name offset count buf fs p v hashed sized f placed inside positive counted
          used,
    )

-- What is written inside the bounds of a file, one byte at least, is read back, on a file system
-- whose arrays, hash tree and sizes are valid, where `used` counts at least the bytes of the file
-- and is at most the length of file_data, and whose file lies inside file_data, with the range in
-- its first 2^31 bytes (and at most 2^24 leaves in the tree): after the write, `read_file` of the
-- same range returns 0, not 3 for a wrong hash, and its buffer begins with the bytes written.
pub read_file-write_file :
    (name : CString) (offset count : ℕ) (buf dst : Bytes) (fs : Filesys) (p : Ptr)
    → IsCatalog fs
    → IsHashed fs
    → IsSized fs
    → Finds fs name (some p)
    → IsPlaced fs p
    → InReach fs ((fs.heap.cell p).offset + offset) count
    → offset + count ≤ (fs.heap.cell p).length
    → 0 < count
    → (fs.heap.cell p).length ≤ fs.used
    → fs.used ≤ fs.file_data_len
    → (fs' : Filesys) × (write_file name offset count buf fs ≡ ok (0, fs'))
      × ((dst' : Bytes) × (read_file name offset count dst fs' ≡ ok (0, dst'))
          × ((k : ℕ) → k < count → dst' k ≡ buf k))
read_file-write_file name offset count buf dst fs p v hashed sized f placed reach inside positive
      counted used =
    (
      after name offset count buf fs p v hashed sized f placed inside positive counted used,
      write_file-after name offset count buf fs p v hashed sized f placed inside positive counted
          used,
      after-read name offset count buf fs p v hashed sized f placed inside positive counted used dst
          reach,
    )
