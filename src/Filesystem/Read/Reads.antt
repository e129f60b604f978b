-- ===== src/Filesystem/Read/Reads.antt =====
-- `read_file` returns the bytes of the file, and a write inside a file is read back.
use virtual_file_system.Common.{
  ℕ, ◌+◌, ◌*◌, ◌≤◌, ◌<◌, ◌≡◌, false, ltb, ◌==◌, some, add64, ok, arith,
}
use virtual_file_system.Structs.{max_file_data_len, block_len, CString, Bytes, Ptr, Filesys}
use virtual_file_system.Memory.{memcpy}
use virtual_file_system.Hash.Range.{IsHashed}
use virtual_file_system.Hash.Verify.{InReach, verify_hash_range-IsHashed}
use virtual_file_system.Filesystem.Create.{find_file}
use virtual_file_system.Filesystem.Read.{read_file}
use virtual_file_system.Filesystem.Catalog.{IsCatalog, Finds, find_file-Member}

-- The blocks of file_data have leaves in the hash tree, and its length fits 32 bits.
pub record IsSized (fs : Filesys) : Type 0 where
  pub blocks : fs.file_data_len ≤ (fs.leaf_offset + 1) * block_len
  pub limit : fs.file_data_len ≤ max_file_data_len

-- The file lies inside file_data.
abbrev pub IsPlaced : Filesys → Ptr → Type 0
IsPlaced fs p = (fs.heap.cell p).offset + (fs.heap.cell p).length ≤ fs.file_data_len

-- The file that a lookup finds is the only one with the name.
pub find_file-some :
    (name : CString) (fs : Filesys) (p : Ptr)
    → IsCatalog fs
    → Finds fs name (some p)
    → find_file name fs ≡ ok (some p)
find_file-some name fs p v f = find_file-Member fs v name p f.0 f.1

-- On a file system whose arrays, hash tree and sizes are valid, `read_file` of a range that is
-- not empty, inside a file in file_data and inside the first 2^31 bytes of file_data (with at
-- most 2^24 leaves in the tree), returns 0 and copies the bytes of the range to the front of the
-- buffer, and no others.
pub read_file-bytes :
    (name : CString) (offset count : ℕ) (buf : Bytes) (fs : Filesys) (p : Ptr)
    → IsCatalog fs
    → IsHashed fs
    → IsSized fs
    → Finds fs name (some p)
    → IsPlaced fs p
    → InReach fs ((fs.heap.cell p).offset + offset) count
    → offset + count ≤ (fs.heap.cell p).length
    → 0 < count
    → (read_file name offset count buf fs
        ≡ ok (0, memcpy buf 0 fs.file ((fs.heap.cell p).offset + offset) count))
unfolding read_file
read_file-bytes name offset count buf fs p v hashed sized f placed reach inside positive =
    let start : add64 (fs.heap.cell p).offset offset ≡ (fs.heap.cell p).offset + offset =
      omega (arith, sized.limit) in
    let end : ltb (fs.heap.cell p).length (add64 offset count) ≡ false =
      ground (arith, sized.limit) in
    let verified =
      verify_hash_range-IsHashed fs ((fs.heap.cell p).offset + offset) count
        (omega (arith, sized.blocks)) reach hashed in
    let nonzero : (count == 0) ≡ false = ground arith in
    rw (find_file-some name fs p v f) (rw start (rw end (rw verified (rw nonzero))))
