-- ===== src/Filesystem/Create/Append.antt =====
-- An empty file that is put behind all others keeps the invariant.
use native.Mathlib.Decide.{ℕ_discrete}
use virtual_file_system.Common.{ℕ, suc, ◌+◌, ◌<◌, ◌≡◌, refl, ap, ◌∙◌, inl, inr, arith}
use virtual_file_system.Structs.{max_file_data_len, CString, Filesys}
use virtual_file_system.Arr.Member.{Member}
use virtual_file_system.Filesystem.Repack.Moves.{offset_at, length_at}
use virtual_file_system.Filesystem.Layout.{IsSolid, IsSolid-IsLaidOut, sum_below-same}
use virtual_file_system.Filesystem.Create.Empty.{CreatedEmpty}
use virtual_file_system.Filesystem.Create.Based.{IsHashed-same}
use virtual_file_system.Filesystem.Create.Files.{CreatedFile}
use virtual_file_system.Filesystem.Valid.{IsValid}
use virtual_file_system.Filesystem.Valid.Owned.{Created-IsOwned}

module _ (name : CString) (fs fs' : Filesys) (w : IsValid fs) (d : CreatedEmpty name fs fs') where
  abbrev n : ℕ
  n = fs.o_list.size

  len_same : fs'.file_data_len ≡ fs.file_data_len
  len_same = ap (λ (z : Filesys). z.file_data_len) d.rest

  file_same : fs'.file ≡ fs.file
  file_same = ap (λ (z : Filesys). z.file) d.rest

  leaf_same : fs'.leaf_offset ≡ fs.leaf_offset
  leaf_same = ap (λ (z : Filesys). z.leaf_offset) d.rest

  in_order : (j : ℕ) → j < n → Member fs.n_list (fs.o_list.list j)
  in_order j q = (w.catalog.paired (fs.o_list.list j)).1 (j, q, refl)

  offset_old : (j : ℕ) → j < n → offset_at fs'.o_list fs'.heap j ≡ offset_at fs.o_list fs.heap j
  offset_old j q = rw (offset_at, d.before j q) (d.created.old (fs.o_list.list j) (in_order j q)).1

  length_old : (j : ℕ) → j < n → length_at fs'.o_list fs'.heap j ≡ length_at fs.o_list fs.heap j
  length_old j q = rw (length_at, d.before j q) (d.created.old (fs.o_list.list j) (in_order j q)).2

  offset_new : offset_at fs'.o_list fs'.heap n ≡ max_file_data_len
  offset_new = rw (offset_at, d.last) d.created.new_offset

  length_new : length_at fs'.o_list fs'.heap n ≡ 0
  length_new = rw (length_at, d.last) (d.created.new_length ∙ omega arith)

  appended-IsSolid : IsSolid fs'
  appended-IsSolid = record {
    apart = λ i q. elim (ℕ_discrete (i + 1) n) [
      | yes e ↦ rw e (
          omega (
            arith,
            offset_new,
            offset_old i (omega arith),
            length_old i (omega arith),
            (IsSolid-IsLaidOut fs w.solid w.catalog.o_indexed).bounded i (omega arith),
          ))
      | no ne ↦ omega (
        arith,
        w.solid.apart i (omega (arith, d.size)),
        offset_old i (omega (arith, d.size)),
        length_old i (omega (arith, d.size)),
        offset_old (i + 1) (omega (arith, d.size)),
      )
    ];
    lies = λ j q. elim (ℕ_discrete j n) [
      | yes e ↦ rw e (inr (offset_new, length_new))
      | no ne ↦
          (let old : j < n = omega (arith, d.size) in
            rw (offset_old j old, length_old j old, len_same) (w.solid.lies j old))
    ];
    total =
        (let next : fs'.o_list.size ≡ suc n = omega (arith, d.size) in
          rw next (
            omega (
              arith,
              sum_below-same (length_at fs'.o_list fs'.heap) (length_at fs.o_list fs.heap) n
                  length_old,
              length_new,
              w.solid.total,
              ap (λ (z : Filesys). z.used) d.rest,
            )));
    limit = rw len_same w.solid.limit;
  }

  pub CreatedEmpty-CreatedFile : CreatedFile name 0 fs fs'
  CreatedEmpty-CreatedFile = record {
    valid = record {
      catalog = d.created.valid;
      solid = appended-IsSolid;
      counted = d.counted;
      owned = Created-IsOwned name max_file_data_len 0 d.index fs fs' w.owned d.created d.was_free;
      hashed =
          IsHashed-same fs fs' file_same (ap (λ (z : Filesys). z.hash) d.rest) leaf_same w.hashed;
      sized = record {
        blocks = rw (len_same, leaf_same) w.sized.blocks;
        limit = rw len_same w.sized.limit;
      };
    };
    p = fs.heap.next;
    found = d.found;
    new_name = d.created.new_name;
    new_length = d.created.new_length ∙ omega arith;
    zeros = λ b q. absurd (omega arith);
    members = d.created.members;
    fresh = λ m. omega (arith, w.catalog.below_next fs.heap.next m);
    names = λ q m. (d.created.old q m).0;
    contents =
        λ q m. ((d.created.old q m).2, λ b short. rw (file_same, (d.created.old q m).1) refl);
    used = ap (λ (z : Filesys). z.used) d.rest ∙ omega arith;
    base = fs;
    origin = inl refl;
    same = d.created.old;
    was_free = rw d.created.new_index d.was_free;
    in_table = rw d.created.new_index d.in_table;
    taken = rw d.created.new_index d.created.taken;
    table = ap (λ (z : Filesys). z.index_len) d.rest;
    entry = d.created.entry;
  }
