-- ===== src/Witnesses/Steps.antt =====
-- The theorems on a whole valid file system, and on sequences of operations, at the sample.
use virtual_file_system.Common.{◌+◌, ◌≤◌, ◌≡◌, sym, ap, subst, ok, some, List, [], ◌∷◌, arith}
use virtual_file_system.Structs.{Bytes, Filesys}
use virtual_file_system.Memory.{memcpy}
use virtual_file_system.Filesystem.Repack.{repack}
use virtual_file_system.Filesystem.Create.Outcome.{FileOutcome, create_file-CreatedFile}
use virtual_file_system.Filesystem.Read.{read_file}
use virtual_file_system.Filesystem.Valid.{IsValid}
use virtual_file_system.Filesystem.Valid.Stored.{IsStored}
use virtual_file_system.Filesystem.Valid.Repacks.{Repacked, repack-Repacked}
use virtual_file_system.Filesystem.Valid.Writes.{write_file-IsValid}
use virtual_file_system.Filesystem.Valid.Steps.{
  Event, wrote, writes, Steps, start, next, Steps-IsValid, read_file-Steps,
}
use virtual_file_system.Filesystem.Catalog.{Finds}
use virtual_file_system.Filesystem.View.{bytes_from}
use virtual_file_system.Filesystem.View.Promises.{Promises}
use virtual_file_system.Sample.{sample, name_a, name_c, sample-Finds}
use virtual_file_system.Sample.Whole.{sample-IsValid, sample-IsStored}

create_file-CreatedFile_example : FileOutcome name_c 500 sample
create_file-CreatedFile_example =
    create_file-CreatedFile name_c 500 sample sample-IsValid (λ e. cc) (omega arith)

repack-Repacked_example : Repacked sample (repack sample)
repack-Repacked_example = repack-Repacked sample sample-IsValid

-- The sample after 20 bytes at 10 in its first file were written.
abbrev buffer : Bytes
buffer = λ k. k + 7

abbrev written : Filesys
written =
    (write_file-IsValid name_a 10 20 buffer sample 0 sample-IsValid sample-Finds (omega arith)
      (omega arith)).0

abbrev one_event : List Event
one_event = wrote name_a 10 (bytes_from buffer 0 20) 0 ∷ []

abbrev one_write : Steps sample one_event written
one_write = next [] (wrote name_a 10 (bytes_from buffer 0 20) 0) sample written start (
    writes name_a 10 20 0 buffer 0 written sample-Finds (omega arith) (omega arith)
      (write_file-IsValid name_a 10 20 buffer sample 0 sample-IsValid sample-Finds (omega arith)
        (omega arith)).1)

Steps-IsValid_example : IsValid written × IsStored written
Steps-IsValid_example =
    Steps-IsValid sample one_event written sample-IsValid sample-IsStored one_write

written_same : written ≡ record sample {
  file = memcpy sample.file ((sample.heap.cell 0).offset + 10) buffer 0 20;
  hash = written.hash;
}
written_same =
    (write_file-IsValid name_a 10 20 buffer sample 0 sample-IsValid sample-Finds (omega arith)
      (omega arith)).2

written_heap : written.heap ≡ sample.heap
written_heap = ap (λ (z : Filesys). z.heap) written_same

written-Finds : Finds written name_a (some 0)
written-Finds = subst (λ z. Finds z name_a (some 0)) (sym written_same) sample-Finds

written_length : 10 + 20 ≤ (written.heap.cell 0).length
written_length = rw written_heap (omega arith)

read_file-Steps_example :
    read_file name_a 10 20 (λ _. 0) written
    ≡ ok (0, memcpy (λ _. 0) 0 written.file ((written.heap.cell 0).offset + 10) 20)
read_file-Steps_example =
    read_file-Steps one_event name_a 10 20 (λ _. 0) sample written 0 sample-IsValid one_write
      written-Finds
      (record {
        range = rw written_heap (omega arith);
        leaves = rw (ap (λ (z : Filesys). z.leaf_offset) written_same) (omega arith);
      })
      written_length (omega arith)
