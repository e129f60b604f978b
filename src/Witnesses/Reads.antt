-- ===== src/Witnesses/Reads.antt =====
-- The theorems on results applied at concrete inputs.
use virtual_file_system.Common.{◌+◌, ◌^◌, ◌≤◌, sym, arith, ◌≡◌, ◌⊎◌, none, some, pos, minus_one, ok}
use virtual_file_system.Structs.{Ptr}
use virtual_file_system.Filesystem.Delete.{file_size}
use virtual_file_system.Filesystem.Read.Results.{file_size-Finds, ReadOutcome, read_file-HasRead}
use virtual_file_system.Filesystem.Catalog.{Finds}
use virtual_file_system.Sample.{sample, name_a, sample-IsCatalog, two}

file_size-Finds_example :
    ((file_size name_a sample ≡ ok minus_one) × Finds sample name_a none)
    ⊎ ((p : Ptr) × Finds sample name_a (some p)
        × (file_size name_a sample ≡ ok (pos (sample.heap.cell p).length)))
file_size-Finds_example = file_size-Finds name_a sample sample-IsCatalog

read_file-HasRead_example : ReadOutcome name_a 10 20 (λ _. 0) sample
read_file-HasRead_example =
    read_file-HasRead name_a 10 20 (λ _. 0) sample sample-IsCatalog
      (λ p ((i, q, e), _) _. record {
        range = rw (sym e) (
            two (λ j. (sample.heap.cell j).offset + (sample.heap.cell j).length ≤ 2 ^ 31)
              (omega arith) (omega arith) i q);
        leaves = omega arith;
      })
      (omega arith)
