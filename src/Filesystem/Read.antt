-- ===== src/Filesystem/Read.antt =====
-- `read_file`.
pub mod Reads
pub mod Results
use virtual_file_system.Common.{ℕ, none, some, ltb, ◌==◌, not, if◌then◌else◌, add64, Run, ok, ◌>>=◌}
use virtual_file_system.Structs.{CString, Bytes, Filesys}
use virtual_file_system.Memory.{memcpy}
use virtual_file_system.Hash.{verify_hash_range}
use virtual_file_system.Filesystem.Create.{find_file}

-- `read_file`: its result and the buffer. The file system does not change.
unfoldable pub read_file : CString → ℕ → ℕ → Bytes → Filesys → Run (ℕ × Bytes)
read_file filename offset count buf fs = do
  found ← find_file filename fs
  elim found [
    | none ↦ ok (1, buf)
    | some p ↦
        let f = fs.heap.cell p in
        let start = add64 f.offset offset in
        if ltb f.length (add64 offset count)
        then ok (2, buf)
        else if not (verify_hash_range start count fs == 0)
        then ok (3, buf)
        else if count == 0
        then ok (0, buf)
        else ok (0, memcpy buf 0 fs.file start count)
  ]
