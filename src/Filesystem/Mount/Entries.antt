-- ===== src/Filesystem/Mount/Entries.antt =====
-- What `write_dir_file` writes into dir_table is what `init_fs` reads from it.
use virtual_file_system.Common.{
  ℕ, zero, suc, ◌+◌, ◌-◌, ◌*◌, ◌≤◌, ◌<◌, ◌≡◌, ◌≢◌, refl, ap, ◌∙◌, ◌⊎◌, inl, inr, ◌==◌, false, leb,
  [], ◌∷◌, length, get_or, Bool-cases, arith,
}
use virtual_file_system.Structs.{
  max_file_data_len, name_len, offset_len, meta_len, CString, Bytes, FileEntry,
}
use virtual_file_system.Memory.{bytes_of, load32, string_bytes}
use virtual_file_system.Memory.Copy.{memcpy-inside, memcpy-outside, memset-outside}
use virtual_file_system.Helper.{
  update_dir_name, update_dir_offset, update_dir_length, write_dir_file,
}
use virtual_file_system.Filesystem.Mount.{read_string}

-- No byte of the string is its terminator.
abbrev pub IsNullFree : CString → Type 0
IsNullFree s = (k : ℕ) → k < length s → get_or s k 0 ≢ 0

-- A string is read back from its bytes and the terminator.
pub read_string_lem :
    (n : ℕ) (m : Bytes) (a : ℕ) (s : CString)
    → length s ≤ n
    → IsNullFree s
    → ((k : ℕ) → k ≤ length s → m (a + k) ≡ get_or s k 0)
    → read_string n m a ≡ s
unfolding read_string
read_string_lem zero m a [] q free same = refl
read_string_lem zero m a (x ∷ s) q free same = absurd (omega (arith, q))
read_string_lem (suc n) m a [] q free same =
    let e : m a ≡ 0 = ground (arith, same 0 (omega arith)) in rw e
read_string_lem (suc n) m a (x ∷ s) q free same =
    let e : m a ≡ x = ground (arith, same 0 (omega arith)) in
    let ne : (x == 0) ≡ false = ground (arith, free 0 (omega arith)) in
    rw e (
      rw ne (
        ap (λ t. x ∷ t)
          (read_string_lem n m (a + 1) s (omega arith) (λ k p. free (suc k) (omega arith))
            (λ k p.
              let next : a + 1 + k ≡ a + suc k = omega arith in
              rw next (same (suc k) (omega arith))))))

-- The fields of an entry of dir_table, as `init_fs` reads them.
pub record HoldsEntry (f : FileEntry) (dir : Bytes) : Type 0 where
  pub name : read_string (name_len - 1) dir (f.index * meta_len) ≡ f.name
  pub offset : f.offset < max_file_data_len → load32 dir (f.index * meta_len + name_len) ≡ f.offset
  pub length : load32 dir (f.index * meta_len + name_len + offset_len) ≡ f.length

module _ (f : FileEntry) (dir : Bytes) where
  pub name-inside :
      (k : ℕ)
      → k ≤ length f.name
      → update_dir_name f dir (f.index * meta_len + k) ≡ get_or f.name k 0
  unfolding update_dir_name string_bytes
  name-inside k q = ground (
    arith,
    memcpy-inside dir (f.index * meta_len) (string_bytes f.name) 0 (length f.name + 1) k
        (omega arith),
  )

  pub name-outside :
      (a : ℕ)
      → (a < f.index * meta_len) ⊎ (f.index * meta_len + (length f.name + 1) ≤ a)
      → update_dir_name f dir a ≡ dir a
  unfolding update_dir_name
  name-outside a q =
      memcpy-outside dir (f.index * meta_len) (string_bytes f.name) 0 (length f.name + 1) a q

  pub offset-inside :
      (k : ℕ)
      → k < 4
      → f.offset < max_file_data_len
      → update_dir_offset f dir (f.index * meta_len + name_len + k) ≡ bytes_of f.offset k
  unfolding update_dir_offset
  offset-inside k q small =
      let test : leb max_file_data_len f.offset ≡ false = ground arith in
      rw test (
        ground
          (arith, memcpy-inside dir (f.index * meta_len + name_len) (bytes_of f.offset) 0 4 k q))

  pub offset-outside :
      (a : ℕ)
      → (a < f.index * meta_len + name_len) ⊎ (f.index * meta_len + name_len + 4 ≤ a)
      → update_dir_offset f dir a ≡ dir a
  unfolding update_dir_offset
  offset-outside a q = elim (Bool-cases (leb max_file_data_len f.offset)) [
    | inl e ↦ rw e (memset-outside dir (f.index * meta_len + name_len) 0 4 a q)
    | inr e ↦ rw e (memcpy-outside dir (f.index * meta_len + name_len) (bytes_of f.offset) 0 4 a q)
  ]

  pub length-inside :
      (k : ℕ)
      → k < 4
      → update_dir_length f dir (f.index * meta_len + name_len + offset_len + k)
        ≡ bytes_of f.length k
  unfolding update_dir_length
  length-inside k q = ground (
    arith,
    memcpy-inside dir (f.index * meta_len + name_len + offset_len) (bytes_of f.length) 0 4 k q,
  )

  pub length-outside :
      (a : ℕ)
      → (a < f.index * meta_len + name_len + offset_len)
        ⊎ (f.index * meta_len + name_len + offset_len + 4 ≤ a)
      → update_dir_length f dir a ≡ dir a
  unfolding update_dir_length
  length-outside a q =
      memcpy-outside dir (f.index * meta_len + name_len + offset_len) (bytes_of f.length) 0 4 a q

module _ (f : FileEntry) (dir : Bytes) (short : length f.name ≤ name_len - 1) where
  pub write_dir_file-name :
      (k : ℕ)
      → k ≤ length f.name
      → write_dir_file f dir (f.index * meta_len + k) ≡ get_or f.name k 0
  unfolding write_dir_file
  write_dir_file-name k q =
      length-outside f _ _ (omega arith)
      ∙ (offset-outside f _ _ (omega arith) ∙ name-inside f dir k q)

  pub write_dir_file-offset :
      (k : ℕ)
      → k < 4
      → f.offset < max_file_data_len
      → write_dir_file f dir (f.index * meta_len + name_len + k) ≡ bytes_of f.offset k
  unfolding write_dir_file
  write_dir_file-offset k q small = length-outside f _ _ (omega arith) ∙ offset-inside f _ k q small

  pub write_dir_file-outside :
      (a : ℕ)
      → (a < f.index * meta_len) ⊎ (f.index * meta_len + meta_len ≤ a)
      → write_dir_file f dir a ≡ dir a
  unfolding write_dir_file
  write_dir_file-outside a q =
      length-outside f _ a (omega arith)
      ∙ (offset-outside f _ a (omega arith) ∙ name-outside f dir a (omega arith))
