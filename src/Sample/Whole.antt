-- ===== src/Sample/Whole.antt =====
-- The sample file system is valid.
use virtual_file_system.Common.{◌≡◌, ◌≢◌, ◌*◌, ◌≤◌, refl, sym, ◌∙◌, inl, inr, arith}
use virtual_file_system.Structs.{Ptr, Bytes, meta_len}
use virtual_file_system.Helper.{write_dir_file}
use virtual_file_system.Filesystem.Mount.Entries.{write_dir_file-outside}
use virtual_file_system.Filesystem.Valid.Stored.{
  IsEntry, IsStored, IsEntry-same, write_dir_file-IsEntry,
}
use virtual_file_system.Arr.Member.{Member}
use virtual_file_system.Filesystem.Layout.{IsSolid, Lies}
use virtual_file_system.Filesystem.Valid.{IsOwned, IsValid}
use virtual_file_system.Sample.{
  sample, entry_a, entry_b, sample-IsCatalog, sample-IsHashed, sample-IsSized, two,
}

sample-IsSolid : IsSolid sample
sample-IsSolid = record {
  apart = λ i q. let e : i ≡ 0 = omega arith in rw e (omega arith);
  lies =
      two (Lies sample) (inl (omega arith, omega arith, omega arith))
        (inl (omega arith, omega arith, omega arith));
  total = refl;
  limit = omega arith;
}

-- The entry of a file has the number of the file.
sample_index : (q : Ptr) → Member sample.n_list q → (sample.heap.cell q).index ≡ q
sample_index q (i, p, e) = rw (sym e) (two (λ j. (sample.heap.cell j).index ≡ j) refl refl i p)

sample-IsOwned : IsOwned sample
sample-IsOwned = record {
  taken = λ q (i, p, e).
      rw (sym e) (two (λ j. sample.index (sample.heap.cell j).index ≢ 0) (λ z. cc) (λ z. cc) i p);
  own = λ p q m m' e. sym (sample_index p m) ∙ (e ∙ sample_index q m');
}

pub sample-IsValid : IsValid sample
sample-IsValid = record {
  catalog = sample-IsCatalog;
  solid = sample-IsSolid;
  counted = refl;
  owned = sample-IsOwned;
  hashed = sample-IsHashed;
  sized = sample-IsSized;
}

-- The dir_table with the entry of the first file.
abbrev dir_a : Bytes
dir_a = write_dir_file entry_a (λ _. 0)

entry_a-IsEntry : IsEntry entry_a sample.dir
entry_a-IsEntry =
    IsEntry-same entry_a entry_a dir_a (write_dir_file entry_b dir_a) (refl, refl, refl, refl)
      (omega arith)
      (λ a low high. write_dir_file-outside entry_b dir_a (omega arith) a (inl (omega arith)))
      (write_dir_file-IsEntry entry_a (λ _. 0) (omega arith))

pub sample-IsStored : IsStored sample
sample-IsStored = record {
  entries = λ q (i, p, e). rw (sym e) (
      two (λ j. IsEntry (sample.heap.cell j) sample.dir) entry_a-IsEntry
        (write_dir_file-IsEntry entry_b dir_a (omega arith)) i p);
  empties = λ i inside free.
      let behind : 2 ≤ i = ground (arith, free) in
      write_dir_file-outside entry_b dir_a (omega arith) (i * meta_len) (inr (omega arith))
      ∙ write_dir_file-outside entry_a (λ _. 0) (omega arith) (i * meta_len) (inr (omega arith));
}
