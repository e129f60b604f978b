-- ===== src/Filesystem/Create/Files.antt =====
-- `create_file` of a file with bytes, from the state in which its struct is inserted.
use virtual_file_system.Common.{
  update, ℕ, ◌+◌, ◌-◌, ◌≤◌, ◌<◌, ◌≡◌, refl, ap, ◌∙◌, ◌↔◌, ◌⊎◌, some, take, ℤ, pos, negsuc, ok,
  arith,
}
use virtual_file_system.Structs.{max_file_data_len, CString, Ptr, Filesys}
use virtual_file_system.Memory.Copy.{memset-outside}
use virtual_file_system.Hash.{compute_hash_block_range}
use virtual_file_system.Hash.Range.{IsHashed, compute_hash_block_range-IsHashed}
use virtual_file_system.Arr.Member.{Member}
use virtual_file_system.Filesystem.Read.Reads.{IsSized}
use virtual_file_system.Filesystem.Valid.{IsValid}
use virtual_file_system.Filesystem.Create.{fill_file, find_file}
use virtual_file_system.Helper.{write_dir_file}
use virtual_file_system.Arr.Frame.{SameFile}
use virtual_file_system.Filesystem.Repack.{repack_helper}
use virtual_file_system.Filesystem.Create.Based.{
  KeepsContents, Changes, IsBase, IsHashed-same, filled, fill_file-negsuc, fill_file-pos,
}

-- `fs'` has one file more than `fs`, of `length` null bytes, and all its parts are valid.
pub record CreatedFile (name : CString) (length : ℕ) (fs fs' : Filesys) : Type 0 where
  pub valid : IsValid fs'
  pub p : Ptr
  pub found : find_file name fs' ≡ ok (some p)
  pub new_name : (fs'.heap.cell p).name ≡ take 63 name
  pub new_length : (fs'.heap.cell p).length ≡ length
  pub zeros : (b : ℕ) → b < length → fs'.file ((fs'.heap.cell p).offset + b) ≡ 0
  pub members : (q : Ptr) → Member fs'.n_list q ↔ (Member fs.n_list q ⊎ (q ≡ p))
  pub fresh : Member fs.n_list p → ⊥
  pub names : (q : Ptr) → Member fs.n_list q → (fs'.heap.cell q).name ≡ (fs.heap.cell q).name
  pub contents : KeepsContents fs fs'
  pub used : fs'.used ≡ fs.used + length
  -- The state in which the struct was added, and the entry that it got.
  pub base : Filesys
  pub origin : (base ≡ fs) ⊎ (base ≡ (repack_helper fs).1)
  pub same : (q : Ptr) → Member fs.n_list q → SameFile (fs'.heap.cell q) (base.heap.cell q)
  pub was_free : fs.index (fs'.heap.cell p).index ≡ 0
  pub in_table : (fs'.heap.cell p).index < fs.index_len
  pub taken : fs'.index ≡ update fs.index (fs'.heap.cell p).index 1
  pub table : fs'.index_len ≡ fs.index_len
  pub entry : fs'.dir ≡ write_dir_file (fs'.heap.cell p) base.dir

-- The range that is hashed, from its first byte on.
abbrev pub hash_start : ℕ → ℤ → ℕ
hash_start offset (pos start) = start
hash_start offset (negsuc _) = offset

abbrev pub hash_length : ℕ → ℕ → ℤ → ℕ
hash_length length used (pos start) = used + length - start
hash_length length used (negsuc _) = length

module _ (offset length : ℕ) (some_bytes : 0 < length) (small : length < max_file_data_len)
    (hash_offset : ℤ) (fs b : Filesys) (base : IsBase offset length hash_offset fs b)
    (room : fs.used + length ≤ fs.file_data_len) (sized : IsSized fs) where
  used_same : b.used ≡ fs.used
  used_same = ap (λ (x : Filesys). x.used) base.rest

  len_same : b.file_data_len ≡ fs.file_data_len
  len_same = ap (λ (x : Filesys). x.file_data_len) base.rest

  -- The state before the hashes are computed: `x` has the new struct in its arrays.
  module _ (x : Filesys) (x_file : x.file ≡ b.file) (x_hash : x.hash ≡ fs.hash)
      (x_leaf : x.leaf_offset ≡ fs.leaf_offset) (x_used : x.used ≡ fs.used) where
    pub fits : offset + length ≤ max_file_data_len
    fits = omega (arith, base.place.fits, len_same, sized.limit)

    pub room' : x.used + length ≤ max_file_data_len
    room' = omega (arith, sized.limit)

    abbrev pub y : Filesys
    y = filled offset length some_bytes small fits x room'

    abbrev pub final : Filesys
    final =
        compute_hash_block_range (hash_start offset hash_offset)
          (hash_length length x.used hash_offset) y

    pub fill_file-final : fill_file offset length hash_offset x ≡ ok final
    fill_file-final = go hash_offset base.changes
      where
        go :
            (h : ℤ)
            → Changes h fs b.file
            → fill_file offset length h x
              ≡ ok (compute_hash_block_range (hash_start offset h) (hash_length length x.used h) y)
        go (negsuc n) e = fill_file-negsuc offset length some_bytes small fits x room' n
        go (pos start) e =
            fill_file-pos offset length some_bytes small fits x room' start (omega (arith, e.0))

    -- What the hashes of the range repair.
    pub final-IsHashed : IsHashed fs → IsHashed final
    final-IsHashed hashed = go hash_offset base.changes base.at_end
      where
        go :
            (h : ℤ)
            → Changes h fs b.file
            → ((start : ℕ) → h ≡ pos start → offset ≡ fs.used)
            → IsHashed
                (compute_hash_block_range (hash_start offset h) (hash_length length x.used h) y)
        go (negsuc n) e at_end =
            compute_hash_block_range-IsHashed offset length y.file
              {fs = record y { file = fs.file }} some_bytes
              (omega (arith, base.place.fits, len_same, sized.blocks, x_leaf))
              (omega (arith, small))
              (λ a q. memset-outside x.file offset 0 length a q ∙ ap (λ m. m a) (x_file ∙ e))
              (IsHashed-same fs (record y { file = fs.file }) refl x_hash x_leaf hashed)
        go (pos start) e at_end =
            (let here : offset ≡ fs.used = at_end start refl in
              compute_hash_block_range-IsHashed start (x.used + length - start) y.file
                {fs = record y { file = fs.file }} (omega (arith, e.0))
                (omega (arith, e.0, sized.blocks, x_leaf)) (omega (arith, sized.limit))
                (λ a q.
                  memset-outside x.file offset 0 length a (omega (arith, e.0))
                  ∙ (ap (λ m. m a) x_file ∙ e.1 a (omega (arith, e.0))))
                (IsHashed-same fs (record y { file = fs.file }) refl x_hash x_leaf hashed))
