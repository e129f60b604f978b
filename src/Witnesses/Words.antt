-- ===== src/Witnesses/Words.antt =====
-- The theorems on entries of dir_table, hashes and null bytes applied at concrete inputs.
use virtual_file_system.Common.{ℕ, ◌+◌, ◌<◌, ◌≡◌, ◌≢◌, ◌⊎◌, ok, abort, arith}
use virtual_file_system.Structs.{hash_offset_b, hash_offset_c, hash_offset_d}
use virtual_file_system.Memory.{memset, load32}
use virtual_file_system.Helper.{pwrite_null_byte, write_null_byte}
use virtual_file_system.Helper.NullBytes.{pwrite_null_byte-write_null_byte}
use virtual_file_system.Hash.{fletcher, fletcher_sums}
use virtual_file_system.Hash.Words.{IsReduced, fletcher-IsReduced}
use virtual_file_system.Filesystem.Space.{new_file_index}
use virtual_file_system.Filesystem.Space.Index.{new_file_index-lowest}
use virtual_file_system.Sample.{sample}

pwrite_null_byte-write_null_byte_example :
    (pwrite_null_byte sample.file 10 5 ≡ ok (memset sample.file 10 0 5))
    × (write_null_byte sample.file 10 5 ≡ ok (memset sample.file 10 0 5))
pwrite_null_byte-write_null_byte_example =
    pwrite_null_byte-write_null_byte sample.file 10 5 (omega arith) (omega arith)

fletcher-IsReduced_example :
    IsReduced (fletcher_sums sample.file 3 10)
    × (load32 (fletcher sample.file 3 10 (λ _. 0) 32) 32 ≡ (fletcher_sums sample.file 3 10).a)
    × (load32 (fletcher sample.file 3 10 (λ _. 0) 32) (32 + hash_offset_b)
        ≡ (fletcher_sums sample.file 3 10).b)
    × (load32 (fletcher sample.file 3 10 (λ _. 0) 32) (32 + hash_offset_c)
        ≡ (fletcher_sums sample.file 3 10).c)
    × (load32 (fletcher sample.file 3 10 (λ _. 0) 32) (32 + hash_offset_d)
        ≡ (fletcher_sums sample.file 3 10).d)
fletcher-IsReduced_example = fletcher-IsReduced sample.file 3 10 (λ _. 0) 32

new_file_index-lowest_example :
    ((i : ℕ) × (new_file_index sample ≡ ok i)
      × (i < sample.index_len)
      × (sample.index i ≡ 0)
      × ((j : ℕ) → j < i → sample.index j ≢ 0))
    ⊎ ((new_file_index sample ≡ abort) × ((j : ℕ) → j < sample.index_len → sample.index j ≢ 0))
new_file_index-lowest_example = new_file_index-lowest sample
