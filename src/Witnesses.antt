-- ===== src/Witnesses.antt =====
-- The theorems applied at concrete inputs.
mod Renames
mod Callbacks
mod Reads
mod Repacks
mod Creates
mod Words
mod Steps
use virtual_file_system.Common.{
  ℕ, ◌+◌, ◌-◌, ◌/◌, compare, ltb, if◌then◌else◌, false, update, ◌≤◌, ◌<◌, ◌≡◌, refl, ◌⊎◌, ◌↔◌, pos,
  Ordering, true, Option, some, none, ok, arith,
}
use virtual_file_system.Structs.{block_len, Bytes, Ptr, Heap, Arr, Filesys}
use virtual_file_system.Memory.{memcpy}
use virtual_file_system.Hash.{compute_hash_block_range, compute_hash_tree, verify_hash_range}
use virtual_file_system.Hash.Range.{IsHashed, compute_hash_block_range-IsHashed}
use virtual_file_system.Hash.Build.{compute_hash_tree-IsHashed}
use virtual_file_system.Hash.Verify.{
  OnPath, NodeValid, verify_hash_range_iff, verify_hash_range-IsHashed,
}
use virtual_file_system.Arr.{arr_insert, arr_remove, arr_sorted_insert, arr_get_by_key, search_loop}
use virtual_file_system.Arr.Search.{search_loop-miss, search_loop-hit}
use virtual_file_system.Arr.Insert.{Inserted, arr_insert-Inserted}
use virtual_file_system.Arr.Remove.{Removed, arr_remove-Removed}
use virtual_file_system.Arr.Names.{IsNameSorted}
use virtual_file_system.Arr.Lookup.{Answers, arr_get_by_key-Answers}
use virtual_file_system.Arr.Sorted.{arr_sorted_insert-IsNameSorted, arr_remove-IsNameSorted}
use virtual_file_system.Filesystem.Create.{find_file, name_key}
use virtual_file_system.Filesystem.Read.{read_file}
use virtual_file_system.Filesystem.Write.{write_file}
use virtual_file_system.Filesystem.Delete.{delete_file}
use virtual_file_system.Filesystem.Catalog.{IsCatalog, Finds, find_file-Finds}
use virtual_file_system.Filesystem.Delete.Removes.{Deleted, delete_file-Deleted}
use virtual_file_system.Filesystem.Read.Reads.{read_file-bytes}
use virtual_file_system.Filesystem.Write.InPlace.{write_file-IsHashed, read_file-write_file}
use virtual_file_system.Sample.{
  sample, unhashed, sample_heap, names, name_a, name_c, sample-IsHashed, sample-IsCatalog,
  sample-IsSized, sample-Finds, names-IsNameSorted, names-IsIndexed, name_c-Answers,
}

-- The bytes that are written: 7, 8, 9, ...
abbrev seven_on : Bytes
seven_on k = k + 7

read_file-write_file_example :
    (fs' : Filesys) × (write_file name_a 250 20 seven_on sample ≡ ok (0, fs'))
    × ((dst' : Bytes) × (read_file name_a 250 20 (λ _. 0) fs' ≡ ok (0, dst'))
        × ((k : ℕ) → k < 20 → dst' k ≡ seven_on k))
read_file-write_file_example =
    read_file-write_file name_a 250 20 seven_on (λ _. 0) sample 0 sample-IsCatalog sample-IsHashed
      sample-IsSized sample-Finds (omega arith)
      (record { range = omega arith; leaves = omega arith }) (omega arith) (omega arith)
      (omega arith) (omega arith)

write_file-IsHashed_example :
    (fs' : Filesys) × (write_file name_a 250 20 seven_on sample ≡ ok (0, fs'))
    × (fs' ≡ record sample { file = memcpy sample.file 250 seven_on 0 20; hash = fs'.hash })
    × IsCatalog fs'
    × IsHashed fs'
write_file-IsHashed_example =
    write_file-IsHashed name_a 250 20 seven_on sample 0 sample-IsCatalog sample-IsHashed
      sample-IsSized sample-Finds (omega arith) (omega arith) (omega arith) (omega arith)
      (omega arith)

read_file-bytes_example :
    read_file name_a 100 150 (λ _. 0) sample ≡ ok (0, memcpy (λ _. 0) 0 sample.file 100 150)
read_file-bytes_example =
    read_file-bytes name_a 100 150 (λ _. 0) sample 0 sample-IsCatalog sample-IsHashed sample-IsSized
      sample-Finds (omega arith) (record { range = omega arith; leaves = omega arith })
      (omega arith) (omega arith)

delete_file-Deleted_example :
    ((delete_file name_a sample ≡ ok (1, sample)) × Finds sample name_a none)
    ⊎ ((p : Ptr) × Finds sample name_a (some p)
        × ((fs' : Filesys) × (delete_file name_a sample ≡ ok (0, fs')) × Deleted p sample fs'))
delete_file-Deleted_example = delete_file-Deleted name_a sample sample-IsCatalog

find_file-Finds_example :
    (r : Option Ptr) × (find_file name_c sample ≡ ok r) × Finds sample name_c r
find_file-Finds_example = find_file-Finds sample sample-IsCatalog name_c

-- The byte 300 of file_data changes to 1.
abbrev changed : Bytes
changed = update sample.file 300 1

compute_hash_block_range-IsHashed_example :
    IsHashed (compute_hash_block_range 300 1 (record sample { file = changed }))
compute_hash_block_range-IsHashed_example =
    compute_hash_block_range-IsHashed 300 1 changed {fs = sample} (omega arith) (omega arith)
      (omega arith) (λ a h. ground arith) sample-IsHashed

compute_hash_tree-IsHashed_example :
    (hash : Bytes) × (compute_hash_tree unhashed ≡ ok (record unhashed { hash = hash }))
    × IsHashed (record unhashed { hash = hash })
compute_hash_tree-IsHashed_example = compute_hash_tree-IsHashed 2 unhashed refl (omega arith)

verify_hash_range_iff_example : (verify_hash_range 10 300 sample ≡ 0) ↔ (
    (b m : ℕ)
    → 10 / block_len ≤ b
    → b ≤ (10 + 300 - 1) / block_len
    → OnPath (sample.leaf_offset + b) m
    → NodeValid sample m)
verify_hash_range_iff_example =
    verify_hash_range_iff sample 10 300 (omega arith)
      (record { range = omega arith; leaves = omega arith })

verify_hash_range-IsHashed_example : verify_hash_range 10 300 sample ≡ 0
verify_hash_range-IsHashed_example =
    verify_hash_range-IsHashed sample 10 300 (omega arith)
      (record { range = omega arith; leaves = omega arith }) sample-IsHashed

arr_sorted_insert-IsNameSorted_example :
    (k : ℕ) × (r : Arr × Heap) × (arr_sorted_insert 2 names sample_heap ≡ ok (pos k, r.0, r.1))
    × Inserted k 2 names sample_heap r
    × IsNameSorted r.0 r.1
arr_sorted_insert-IsNameSorted_example =
    arr_sorted_insert-IsNameSorted 2 names sample_heap names-IsNameSorted names-IsIndexed
      (omega arith) (λ j q. omega arith) (λ e. cc) name_c-Answers

arr_insert-Inserted_example :
    (r : Arr × Heap) × (arr_insert 1 2 names sample_heap ≡ ok r) × Inserted 1 2 names sample_heap r
arr_insert-Inserted_example =
    arr_insert-Inserted 1 2 names sample_heap names-IsIndexed (omega arith) (omega arith)
      (λ j q. omega arith)

arr_remove-Removed_example :
    (r : Ptr × Arr × Heap) × (arr_remove (pos 0) names sample_heap ≡ ok r)
    × Removed 0 names sample_heap r
arr_remove-Removed_example = arr_remove-Removed 0 names sample_heap names-IsIndexed (omega arith)

arr_remove-IsNameSorted_example :
    (r : Ptr × Arr × Heap) × (arr_remove (pos 0) names sample_heap ≡ ok r) × IsNameSorted r.1 r.2
arr_remove-IsNameSorted_example =
    arr_remove-IsNameSorted 0 names sample_heap names-IsNameSorted names-IsIndexed (omega arith)

arr_get_by_key-Answers_example :
    (r : Option Ptr) × (arr_get_by_key (name_key name_c) names sample_heap 1024 ≡ ok r)
    × Answers names sample_heap (name_key name_c).name r
arr_get_by_key-Answers_example =
    arr_get_by_key-Answers names sample_heap 1024 names-IsNameSorted (name_key name_c)

search_loop-miss_example :
    search_loop 5 (λ m. if ltb m 3 then Ordering.gt else Ordering.lt) true 0 4 ≡ ok (pos 3)
search_loop-miss_example =
    search_loop-miss (λ m. if ltb m 3 then Ordering.gt else Ordering.lt) true 5 0 4 3 (omega arith)
      (omega arith) (omega arith) (omega arith) (λ m p. ground arith) (λ m p q. ground arith)

search_loop-hit_example : search_loop 5 (λ m. compare 3 m) false 0 4 ≡ ok (pos 3)
search_loop-hit_example =
    search_loop-hit (λ m. compare 3 m) false 5 0 4 3 (omega arith) (omega arith) (omega arith)
      (λ m p. ground arith) refl (λ m p q. ground arith)
