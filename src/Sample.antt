-- ===== src/Sample.antt =====
-- A file system with two files, at which the theorems are applied.
pub mod Whole
use virtual_file_system.Common.{
  take, ℕ, zero, suc, ◌<◌, ◌≡◌, ◌≢◌, refl, sym, [], ◌∷◌, ltb, ◌==◌, if◌then◌else◌, pos, minus_one,
  true, some, none, arith,
}
use virtual_file_system.Structs.{by_offset, by_name, CString, FileEntry, Heap, Arr, Filesys, Bytes}
use virtual_file_system.Memory.{strncmp}
use virtual_file_system.Helper.{write_dir_file}
use virtual_file_system.Hash.Range.{IsHashed}
use virtual_file_system.Hash.Build.{compute_hash_tree-IsHashed}
use virtual_file_system.Arr.Names.{IsNameSorted, name_at}
use virtual_file_system.Arr.Lookup.{Answers}
use virtual_file_system.Arr.Insert.{IsIndexed}
use virtual_file_system.Filesystem.Catalog.{IsCatalog, Finds}
use virtual_file_system.Filesystem.Read.Reads.{IsSized}

abbrev pub name_a : CString
name_a = 97 ∷ []

abbrev pub name_b : CString
name_b = 98 ∷ []

abbrev pub name_c : CString
name_c = 99 ∷ []

abbrev pub entry_a : FileEntry
entry_a = record {
  name = name_a;
  offset = 0;
  length = 300;
  index = 0;
  o_index = pos 0;
  n_index = pos 0;
}

abbrev pub entry_b : FileEntry
entry_b = record {
  name = name_b;
  offset = 300;
  length = 100;
  index = 1;
  o_index = pos 1;
  n_index = pos 1;
}

-- An entry that is in no array yet.
abbrev pub entry_c : FileEntry
entry_c = record {
  name = name_c;
  offset = 400;
  length = 5;
  index = 2;
  o_index = minus_one;
  n_index = minus_one;
}

abbrev pub sample_heap : Heap
sample_heap = record {
  cell = λ p. if p == 0 then entry_a else if p == 1 then entry_b else entry_c;
  live = λ p. ltb p 2;
  next = 2;
}

abbrev pub offsets : Arr
offsets = record { size = 2; capacity = 4; type = by_offset; list = λ i. i }

abbrev pub names : Arr
names = record { size = 2; capacity = 4; type = by_name; list = λ i. i }

-- Before its hash tree is built.
abbrev pub unhashed : Filesys
unhashed = record {
  file = λ a. a;
  dir = write_dir_file entry_b (write_dir_file entry_a (λ _. 0));
  hash = λ _. 0;
  file_data_len = 1024;
  dir_table_len = 288;
  hash_data_len = 112;
  o_list = offsets;
  n_list = names;
  used = 400;
  index_len = 4;
  index_count = 2;
  index = λ i. if ltb i 2 then 1 else 0;
  tree_len = 7;
  leaf_offset = 3;
  heap = sample_heap;
}

pub sample_hash : Bytes
sample_hash = (compute_hash_tree-IsHashed 2 unhashed refl (omega arith)).0

abbrev pub sample : Filesys
sample = record unhashed { hash = sample_hash }

pub sample-IsHashed : IsHashed sample
unfolding sample_hash
sample-IsHashed = (compute_hash_tree-IsHashed 2 unhashed refl (omega arith)).2

pub two {ℓ} : (P : ℕ → Type ℓ) → P 0 → P 1 → (i : ℕ) → i < 2 → P i
two P a b zero h = a
two P a b (suc zero) h = b
two P a b (suc (suc i)) h = absurd (omega arith)

pub names-IsNameSorted : IsNameSorted names sample_heap
unfolding strncmp
names-IsNameSorted = record {
  type = refl;
  rises = λ i j p q.
      let first : i ≡ 0 = omega arith in let second : j ≡ 1 = omega arith in rw first (rw second);
  nonempty = λ i q. two (λ k. name_at names sample_heap k ≢ []) (λ e. cc) (λ e. cc) i q;
}

pub names-IsIndexed : IsIndexed names sample_heap
names-IsIndexed i p q = two (λ j. (sample_heap.cell j).n_index ≡ pos j) refl refl i q

pub offsets-IsIndexed : IsIndexed offsets sample_heap
offsets-IsIndexed i p q = two (λ j. (sample_heap.cell j).o_index ≡ pos j) refl refl i q

pub sample-IsCatalog : IsCatalog sample
sample-IsCatalog = record {
  sorted = names-IsNameSorted;
  n_indexed = names-IsIndexed;
  o_type = refl;
  o_indexed = offsets-IsIndexed;
  paired = λ q. ((λ m. m), (λ m. m));
  sizes = refl;
  n_capacity = refl;
  o_capacity = refl;
  counted = refl;
  limit = omega arith;
  slot = λ q (i, p, e).
      rw (sym e) (two (λ j. (sample_heap.cell j).index < 4) (omega arith) (omega arith) i p);
  short = λ q (i, p, e).
      rw (sym e)
        (two (λ j. take 63 (sample_heap.cell j).name ≡ (sample_heap.cell j).name) refl refl i p);
  allocated = λ q (i, p, e). rw (sym e) (two (λ j. ltb j 2 ≡ true) refl refl i p);
  below_next = λ q (i, p, e). omega arith;
}

pub sample-IsSized : IsSized sample
sample-IsSized = omega arith

pub sample-Finds : Finds sample name_a (some 0)
sample-Finds = ((0, omega arith, refl), refl)

pub name_c-Answers : Answers names sample_heap name_c none
name_c-Answers i q =
    two (λ k. take 63 (name_at names sample_heap k) ≢ take 63 name_c) (λ e. ground arith)
      (λ e. ground arith) i q

pub name_c-Finds : Finds sample name_c none
name_c-Finds q (i, p, e) = rw (sym e) (
    two (λ k. name_at names sample_heap k ≢ take 63 name_c) (λ e'. ground arith)
      (λ e'. ground arith) i p)
