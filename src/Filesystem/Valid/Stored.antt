-- ===== src/Filesystem/Valid/Stored.antt =====
-- The bytes of dir_table: each file's entry holds its fields, and free entries are marked.
pub mod Repacks
pub mod Creates
pub mod Changes
use virtual_file_system.Common.{
  ℕ, zero, suc, ◌+◌, ◌-◌, ◌*◌, ◌^◌, ◌≤◌, ◌<◌, ◌≡◌, ◌≢◌, refl, sym, ap, ◌∙◌, ◌⊎◌, inl, inr, [], ◌∷◌,
  length-take-le, length, get_or, arith,
}
use virtual_file_system.Structs.{
  max_file_data_len, name_len, offset_len, meta_len, CString, FileEntry, Ptr, Bytes, Filesys,
}
use virtual_file_system.Memory.{bytes_of}
use virtual_file_system.Helper.{write_dir_file}
use virtual_file_system.Arr.Member.{Member}
use virtual_file_system.Arr.Frame.{SameFile}
use virtual_file_system.Filesystem.Catalog.{IsCatalog}
use virtual_file_system.Filesystem.Mount.Entries.{
  write_dir_file-name, write_dir_file-offset, length-inside,
}

-- The entry holds the name with its terminator, the length and, if it is below 2^32, the offset.
pub record IsEntry (f : FileEntry) (dir : Bytes) : Type 0 where
  pub name : (k : ℕ) → k ≤ length f.name → dir (f.index * meta_len + k) ≡ get_or f.name k 0
  pub offset :
      (k : ℕ)
      → k < 4
      → f.offset < max_file_data_len
      → dir (f.index * meta_len + name_len + k) ≡ bytes_of f.offset k
  pub length :
      (k : ℕ) → k < 4 → dir (f.index * meta_len + name_len + offset_len + k) ≡ bytes_of f.length k

-- Each file has its entry, and a free entry begins with a null byte.
pub record IsStored (fs : Filesys) : Type 0 where
  pub entries : (q : Ptr) → Member fs.n_list q → IsEntry (fs.heap.cell q) fs.dir
  pub empties : (i : ℕ) → i < fs.index_len → fs.index i ≡ 0 → fs.dir (i * meta_len) ≡ 0

pub short_name :
    (fs : Filesys) (q : Ptr)
    → IsCatalog fs
    → Member fs.n_list q
    → length (fs.heap.cell q).name ≤ name_len - 1
short_name fs q v m = rw (v.short q m) at (length-take-le 63 (fs.heap.cell q).name)

-- The entry of a file that is the same, in a dir_table with the same bytes there.
pub IsEntry-same :
    (f f' : FileEntry) (dir dir' : Bytes)
    → SameFile f' f
    → length f.name ≤ name_len - 1
    → ((a : ℕ) → f.index * meta_len ≤ a → a < f.index * meta_len + meta_len → dir' a ≡ dir a)
    → IsEntry f dir
    → IsEntry f' dir'
IsEntry-same f f' dir dir' (name, offset, len, index) short same e = record {
  name =
      rw (name, index)
        (λ k q. same (f.index * meta_len + k) (omega arith) (omega arith) ∙ e.name k q);
  offset =
      rw (offset, index)
        (λ k q small.
          same (f.index * meta_len + name_len + k) (omega arith) (omega arith)
          ∙ e.offset k q small);
  length =
      rw (len, index)
        (λ k q.
          same (f.index * meta_len + name_len + offset_len + k) (omega arith) (omega arith)
          ∙ e.length k q);
}

-- What `write_dir_file` writes.
pub write_dir_file-IsEntry :
    (f : FileEntry) (dir : Bytes) → length f.name ≤ name_len - 1 → IsEntry f (write_dir_file f dir)
unfolding write_dir_file
write_dir_file-IsEntry f dir short = record {
  name = write_dir_file-name f dir short;
  offset = write_dir_file-offset f dir short;
  length = length-inside f _;
}
