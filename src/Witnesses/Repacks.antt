-- ===== src/Witnesses/Repacks.antt =====
-- The theorem on repacking applied to a file system with a gap.
use virtual_file_system.Common.{ℕ, ◌+◌, ◌≤◌, ◌<◌, ◌≡◌, if◌then◌else◌, ◌==◌, arith}
use virtual_file_system.Structs.{max_file_data_len, Heap, Filesys}
use virtual_file_system.Filesystem.Repack.{repack_helper}
use virtual_file_system.Filesystem.Repack.Moves.{length_at, offset_at, IsLaidOut}
use virtual_file_system.Filesystem.Repack.Packs.{Packed, repack_helper-Packed}
use virtual_file_system.Sample.{sample, sample_heap, entry_a, entry_b, entry_c}

-- The first file begins at 50, the second at 400.
abbrev gap_heap : Heap
gap_heap = record sample_heap {
  cell = λ p. if p == 0 then record entry_a { offset = 50 } else record entry_b { offset = 400 };
}

abbrev with_gaps : Filesys
with_gaps = record sample { heap = gap_heap }

with_gaps-IsLaidOut : IsLaidOut with_gaps
with_gaps-IsLaidOut = record {
  apart = λ i q. let e : i ≡ 0 = omega arith in rw e (omega arith);
  bounded = λ i q.
      virtual_file_system.Sample.two
        (λ k.
          offset_at with_gaps.o_list gap_heap k + length_at with_gaps.o_list gap_heap k
          ≤ max_file_data_len)
        (omega arith) (omega arith) i q;
  distinct = λ i j p q e. e;
}

repack_helper-Packed_example :
    (m : ℕ) × (1 ≤ m)
    × (m ≤ 2)
    × Packed m with_gaps (repack_helper with_gaps).1
    × ((j : ℕ) → m ≤ j → j < 2 → max_file_data_len ≤ offset_at with_gaps.o_list gap_heap j)
repack_helper-Packed_example =
    repack_helper-Packed with_gaps with_gaps-IsLaidOut (omega arith) (omega arith) (omega arith)

-- The second file was resized to 0 bytes, at 100; the first has 300 bytes, and a third has 5 at 400.
abbrev overlaid_heap : Heap
overlaid_heap = record sample_heap {
  cell = λ p.
      if p == 0
      then entry_a
      else if p == 1
      then record entry_b { offset = 100; length = 0 }
      else entry_c;
}

abbrev overlaid_sample : Filesys
overlaid_sample = record sample {
  heap = overlaid_heap;
  o_list = record (sample.o_list) { size = 3 };
}
