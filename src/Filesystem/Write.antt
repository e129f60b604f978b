-- ===== src/Filesystem/Write.antt =====
-- `write_file`.
pub mod InPlace
use virtual_file_system.Common.{
  ℕ, ◌-◌, ◌%◌, ◌^◌, none, some, ltb, ◌==◌, if◌then◌else◌, ℤ, pos, negsuc, minus_one, add64, sub64,
  Run, ok, ◌>>=◌,
}
use virtual_file_system.Structs.{CString, Bytes, Filesys}
use virtual_file_system.Memory.{memcpy}
use virtual_file_system.Hash.{compute_hash_block_range}
use virtual_file_system.Filesystem.Create.{find_file}
use virtual_file_system.Filesystem.Resize.{resize_file_helper}

-- An `int64_t` assigned to an `int32_t`. The negative values here are -1.
unfoldable pub to_int32 : ℤ → ℤ
to_int32 (pos n) = let r = n % 2 ^ 32 in if ltb r (2 ^ 31) then pos r else negsuc (2 ^ 32 - 1 - r)
to_int32 (negsuc n) = negsuc n

-- `write_file`. Its variable `hash_offset` is an `int32_t`.
unfoldable pub write_file : CString → ℕ → ℕ → Bytes → Filesys → Run (ℕ × Filesys)
write_file filename offset count buf fs = do
  found ← find_file filename fs
  elim found [
    | none ↦ ok (1, fs)
    | some p ↦
        let length = (fs.heap.cell p).length in
        if ltb length offset
        then ok (2, fs)
        else if ltb fs.file_data_len (sub64 (add64 (add64 fs.used offset) count) length)
        then ok (3, fs)
        else if count == 0
        then ok (0, fs)
        else do
          (hash_offset, fs) ←
              (if ltb length (add64 offset count)
                then resize_file_helper p (add64 offset count) offset fs
                else ok (minus_one, fs))
          let start = add64 (fs.heap.cell p).offset offset
          let fs = record fs { file = memcpy fs.file start buf 0 count }
          ok (
            0,
            elim (to_int32 hash_offset) [
              | pos first ↦ compute_hash_block_range first (sub64 fs.used first) fs
              | negsuc _ ↦ compute_hash_block_range start count fs
            ],
          )
  ]
