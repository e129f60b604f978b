-- ===== src/Filesystem/Valid/Repacks.antt =====
-- `repack` keeps the invariant and the contents of all files.
use virtual_file_system.Common.{
  is_nonpositive64, ℕ, ◌-◌, ◌≡◌, refl, sym, ap, true, inl, inr, ◌==◌, ◌||◌, Bool-cases, ℤ, pos,
  negsuc, minus_one, sub64, subst, arith,
}
use virtual_file_system.Structs.{Ptr, Filesys, Bytes}
use virtual_file_system.Hash.{compute_hash_block_range}
use virtual_file_system.Hash.Range.{
  IsHashed, compute_hash_block_range-IsHashed, compute_hash_block_range-frame,
}
use virtual_file_system.Filesystem.Layout.{IsSolid-used}
use virtual_file_system.Filesystem.Repack.{repack, repack_helper}
use virtual_file_system.Filesystem.Create.Based.{
  KeepsContents, Changes, IsBase, IsBase-IsOwned, IsHashed-same,
}
use virtual_file_system.Filesystem.Create.Behind.{repack_helper-IsBase}
use virtual_file_system.Filesystem.Valid.{IsValid}
use virtual_file_system.Filesystem.Catalog.{IsCatalog-data}

-- From `fs` to `fs'`, files may have moved, and nothing is lost.
pub record Repacked (fs fs' : Filesys) : Type 0 where
  pub valid : IsValid fs'
  pub n_list : fs'.n_list ≡ fs.n_list
  pub o_list : fs'.o_list ≡ fs.o_list
  pub names : (q : Ptr) → (fs'.heap.cell q).name ≡ (fs.heap.cell q).name
  pub contents : KeepsContents fs fs'
  pub used : fs'.used ≡ fs.used

module _ (fs : Filesys) (w : IsValid fs) (hash_offset : ℤ) (b : Filesys)
    (base : IsBase b.used 0 hash_offset fs b) where
  hash_same : b.hash ≡ fs.hash
  hash_same = ap (λ (z : Filesys). z.hash) base.rest

  leaf_same : b.leaf_offset ≡ fs.leaf_offset
  leaf_same = ap (λ (z : Filesys). z.leaf_offset) base.rest

  len_same : b.file_data_len ≡ fs.file_data_len
  len_same = ap (λ (z : Filesys). z.file_data_len) base.rest

  used_same : b.used ≡ fs.used
  used_same = ap (λ (z : Filesys). z.used) base.rest

  -- All of the invariant but the hash tree.
  base-IsValid :
      (hash : Bytes) → IsHashed (record b { hash = hash }) → IsValid (record b { hash = hash })
  base-IsValid hash hashed =
      let index_same : b.index ≡ fs.index = ap (λ (z : Filesys). z.index) base.rest in
      let index_len : b.index_len ≡ fs.index_len = ap (λ (z : Filesys). z.index_len) base.rest in
      let count : b.index_count ≡ fs.index_count = ap (λ (z : Filesys). z.index_count) base.rest in
      let owned = IsBase-IsOwned b.used 0 hash_offset fs b base w.owned in
      record {
        catalog = IsCatalog-data b b.file hash b.used base.catalog;
        solid = record {
          apart = base.solid.apart;
          lies = base.solid.lies;
          total = base.solid.total;
          limit = base.solid.limit;
        };
        counted = rw (index_same, index_len, count) w.counted;
        owned = record { taken = owned.taken; own = owned.own };
        hashed = hashed;
        sized = record {
          blocks = rw (len_same, leaf_same) w.sized.blocks;
          limit = rw len_same w.sized.limit;
        };
      }

  base-Repacked :
      (hash : Bytes) → IsHashed (record b { hash = hash }) → Repacked fs (record b { hash = hash })
  base-Repacked hash hashed = record {
    valid = base-IsValid hash hashed;
    n_list = ap (λ (z : Filesys). z.n_list) base.rest;
    o_list = ap (λ (z : Filesys). z.o_list) base.rest;
    names = base.names;
    contents = base.contents;
    used = used_same;
  }

  unhashed : b.file ≡ fs.file → Repacked fs b
  unhashed same = base-Repacked b.hash (IsHashed-same fs b same hash_same leaf_same w.hashed)

  -- The bytes that have changed are hashed again.
  rehashed :
      (start : ℕ)
      → Changes (pos start) fs b.file
      → Repacked fs (compute_hash_block_range start (sub64 b.used start) b)
  rehashed start (small, same) =
      let length : sub64 b.used start ≡ fs.used - start =
        omega (arith, used_same, IsSolid-used fs w.solid, w.solid.limit) in
      let after : Filesys = compute_hash_block_range start (fs.used - start) b in
      let frame : after ≡ record b { hash = after.hash } =
        compute_hash_block_range-frame start (fs.used - start) b in
      let hashed : IsHashed after =
        compute_hash_block_range-IsHashed start (fs.used - start) b.file
          {fs = record b { file = fs.file }} (omega arith)
          (omega (arith, w.sized.blocks, leaf_same, IsSolid-used fs w.solid))
          (omega (arith, w.solid.limit, IsSolid-used fs w.solid)) same
          (IsHashed-same fs (record b { file = fs.file }) refl hash_same leaf_same w.hashed) in
      rw length
        (subst (Repacked fs) (sym frame) (base-Repacked after.hash (subst IsHashed frame hashed)))

repack_helper-none :
    (fs : Filesys)
    → (is_nonpositive64 fs.used || fs.o_list.size == 0) ≡ true
    → repack_helper fs ≡ (minus_one, fs)
unfolding repack_helper
repack_helper-none fs t = rw t refl

-- Without files, `repack` changes nothing.
repack-none :
    (fs : Filesys) → (is_nonpositive64 fs.used || fs.o_list.size == 0) ≡ true → repack fs ≡ fs
unfolding repack
repack-none fs t =
    ap
      (λ (r : ℤ × Filesys). elim r.0 [
        | negsuc _ ↦ r.1
        | pos start ↦ compute_hash_block_range start (sub64 r.1.used start) r.1
      ])
      (repack_helper-none fs t)

-- On a valid file system, `repack` leaves a valid file system in which both arrays, all names and
-- lengths, the bytes of each file, and `used` are as before.
pub repack-Repacked : (fs : Filesys) → IsValid fs → Repacked fs (repack fs)
unfolding repack
repack-Repacked fs w = elim (Bool-cases (is_nonpositive64 fs.used || fs.o_list.size == 0)) [
  | inl t ↦ subst (Repacked fs) (sym (repack-none fs t)) (record {
    valid = w;
    n_list = refl;
    o_list = refl;
    names = λ q. refl;
    contents = λ q m. (refl, λ b short. refl);
    used = refl;
  })
  | inr t ↦ go (repack_helper fs).0 (
      repack_helper-IsBase 0 fs w.catalog w.solid (omega (arith, IsSolid-used fs w.solid))
        (ground arith) (ground arith))
]
  where
    go :
        (h : ℤ)
        → IsBase (repack_helper fs).1.used 0 h fs (repack_helper fs).1
        → Repacked fs (elim h [
          | negsuc _ ↦ (repack_helper fs).1
          | pos start ↦
              compute_hash_block_range start
                (sub64 (repack_helper fs).1.used start)
                (repack_helper fs).1
        ])
    go (pos start) base = rehashed fs w (pos start) (repack_helper fs).1 base start base.changes
    go (negsuc n) base = unhashed fs w (negsuc n) (repack_helper fs).1 base base.changes
