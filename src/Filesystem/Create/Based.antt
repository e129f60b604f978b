-- ===== src/Filesystem/Create/Based.antt =====
-- The state in which `create_file` inserts the new struct: the one before, or that behind a repack.
use virtual_file_system.Common.{
  is_nonpositive64, ℕ, ◌⊎◌, ◌+◌, ◌-◌, ◌≤◌, ◌<◌, ◌≡◌, refl, sym, ap, ◌∙◌, true, false, ltb, ◌&&◌, ℤ,
  pos, negsuc, add64, sub64, ok, arith,
}
use virtual_file_system.Structs.{max_file_data_len, Ptr, Filesys, Bytes}
use virtual_file_system.Memory.{memset}
use virtual_file_system.Helper.{write_null_byte}
use virtual_file_system.Hash.{compute_hash_block_range}
use virtual_file_system.Hash.Range.{IsHashed, SameOutside}
use virtual_file_system.Arr.Member.{Member}
use virtual_file_system.Filesystem.Catalog.{IsCatalog}
use virtual_file_system.Filesystem.Layout.{IsSolid}
use virtual_file_system.Filesystem.Valid.{IsOwned}
use virtual_file_system.Filesystem.Space.Gap.{Place}
use virtual_file_system.Filesystem.Repack.{repack_helper}
use virtual_file_system.Filesystem.Create.{fill_file}

-- Every file of `fs` has the same length and the same bytes in `fs'`.
abbrev pub KeepsContents : Filesys → Filesys → Type 0
KeepsContents fs fs' =
    (q : Ptr)
    → Member fs.n_list q
    → ((fs'.heap.cell q).length ≡ (fs.heap.cell q).length)
      × ((b : ℕ)
          → b < (fs.heap.cell q).length
          → fs'.file ((fs'.heap.cell q).offset + b) ≡ fs.file ((fs.heap.cell q).offset + b))

-- Which bytes of file_data have changed, by the offset of the first changed byte.
abbrev pub Changes : ℤ → Filesys → Bytes → Type 0
Changes (negsuc _) fs file = file ≡ fs.file
Changes (pos start) fs file = (start < fs.used) × SameOutside start (fs.used - start) file fs.file

-- `b` is `fs`, with its files moved if need be so that `length` bytes are free at `offset`.
pub record IsBase (offset length : ℕ) (hash_offset : ℤ) (fs b : Filesys) : Type 0 where
  pub catalog : IsCatalog b
  pub solid : IsSolid b
  pub slot : ℕ
  pub place : Place slot offset length b
  pub rest : b ≡ record fs { file = b.file; dir = b.dir; heap = b.heap }
  pub names : (q : Ptr) → (b.heap.cell q).name ≡ (fs.heap.cell q).name
  pub indices : (q : Ptr) → (b.heap.cell q).index ≡ (fs.heap.cell q).index
  pub origin : (b ≡ fs) ⊎ (b ≡ (repack_helper fs).1)
  pub next : b.heap.next ≡ fs.heap.next
  pub contents : KeepsContents fs b
  pub changes : Changes hash_offset fs b.file
  pub at_end : (start : ℕ) → hash_offset ≡ pos start → offset ≡ fs.used

-- The entries of dir_table stay with their files.
pub IsBase-IsOwned :
    (offset length : ℕ) (hash_offset : ℤ) (fs b : Filesys)
    → IsBase offset length hash_offset fs b
    → IsOwned fs
    → IsOwned b
IsBase-IsOwned offset length hash_offset fs b base owned =
    let index_same : b.index ≡ fs.index = ap (λ (z : Filesys). z.index) base.rest in
    let list_same : b.n_list ≡ fs.n_list = ap (λ (z : Filesys). z.n_list) base.rest in
    record {
      taken = rw (index_same, list_same) (λ q m. rw (base.indices q) (owned.taken q m));
      own =
          rw list_same
            (λ p q m m' e. owned.own p q m m' (sym (base.indices p) ∙ (e ∙ base.indices q)));
    }

-- The hash tree depends on the bytes of file_data and hash_data only.
pub IsHashed-same :
    (fs fs' : Filesys)
    → fs'.file ≡ fs.file
    → fs'.hash ≡ fs.hash
    → fs'.leaf_offset ≡ fs.leaf_offset
    → IsHashed fs
    → IsHashed fs'
IsHashed-same fs fs' e e' e'' v = record {
  inner = rw (e', e'') v.inner;
  leaves = rw (e, e', e'') v.leaves;
}

write_null_byte-inside :
    (file : Bytes) (offset length : ℕ)
    → 0 < length
    → length < max_file_data_len
    → offset < max_file_data_len
    → write_null_byte file offset length ≡ ok (memset file offset 0 length)
unfolding write_null_byte
write_null_byte-inside file offset length p q r =
    let t : is_nonpositive64 length ≡ false = ground arith in
    let t' : (ltb length max_file_data_len && ltb offset max_file_data_len) ≡ true = ground arith in
    rw t (rw t' refl)

module _ (offset length : ℕ) (some_bytes : 0 < length) (small : length < max_file_data_len)
    (fits : offset + length ≤ max_file_data_len) (x : Filesys)
    (room : x.used + length ≤ max_file_data_len) where
  abbrev pub filled : Filesys
  filled = record x { file = memset x.file offset 0 length; used = x.used + length }

  pub fill_file-negsuc :
      (n : ℕ)
      → fill_file offset length (negsuc n) x ≡ ok (compute_hash_block_range offset length filled)
  unfolding fill_file
  fill_file-negsuc n =
      let t : ltb 0 length ≡ true = ground arith in
      let e : add64 x.used length ≡ x.used + length = omega arith in
      rw t (
        rw (write_null_byte-inside x.file offset length some_bytes small (omega arith)) (rw e refl))

  pub fill_file-pos :
      (start : ℕ)
      → start ≤ x.used
      → fill_file offset length (pos start) x
        ≡ ok (compute_hash_block_range start (x.used + length - start) filled)
  unfolding fill_file
  fill_file-pos start q =
      let t : ltb 0 length ≡ true = ground arith in
      let e : add64 x.used length ≡ x.used + length = omega arith in
      let e' : sub64 (x.used + length) start ≡ x.used + length - start = omega arith in
      rw t (
        rw (write_null_byte-inside x.file offset length some_bytes small (omega arith))
          (rw e (rw e' refl)))
