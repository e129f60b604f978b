-- ===== src/Filesystem/Space/Found.antt =====
-- `new_file_offset` of a file with bytes: the free place that it finds.
use native.Mathlib.Decide.{ℕ_discrete}
use virtual_file_system.Common.{
  ℕ, zero, suc, ◌+◌, ◌-◌, ◌≤◌, ◌<◌, ◌≡◌, refl, ◌⊎◌, inl, inr, true, false, leb, leb→le, ◌==◌,
  Bool-cases, ℤ, minus_one, add64, sub64, ok, arith,
}
use virtual_file_system.Structs.{Filesys}
use virtual_file_system.Filesystem.Catalog.{IsCatalog}
use virtual_file_system.Filesystem.Layout.{
  IsSolid, IsFilled, apart_all, some-IsFilled, find_next-some, find_next-none, sum_below,
}
use virtual_file_system.Filesystem.Repack.{repack_helper}
use virtual_file_system.Filesystem.Repack.Moves.{offset_at, length_at}
use virtual_file_system.Filesystem.Space.{GapSearch, gap, last, offset_behind, new_file_offset}
use virtual_file_system.Filesystem.Space.Gap.{
  Place, next_index-slot, end_at, end_at-mod, Ends, Place-at, Place-last, gap_loop-Ends,
}

-- What `new_file_offset` returns: a free place, or the end of the files behind a repack, which
-- is needed only where there are files.
abbrev pub OffsetFound : ℕ → Filesys → ℕ × ℤ × Filesys → Type 0
OffsetFound length fs r =
    ((r.1 ≡ minus_one) × (r.2 ≡ fs) × ((k : ℕ) × Place k r.0 length fs))
    ⊎ ((0 < fs.o_list.size)
        × (0 < fs.used)
        × (r ≡ ((repack_helper fs).1.used, (repack_helper fs).0, (repack_helper fs).1)))

module _ (fs : Filesys) (c : IsCatalog fs) (v : IsSolid fs) (length : ℕ) (some_bytes : 0 < length)
    (room : fs.used + length ≤ fs.file_data_len) where
  total_some : (n i : ℕ) (g : ℕ → ℕ) → i < n → 0 < g i → 0 < sum_below g n
  total_some zero i g p q = absurd (omega arith)
  total_some (suc n) i g p q = elim (ℕ_discrete i n) [
    | yes e ↦ omega (arith, (rw e at q))
    | no ne ↦ omega (arith, total_some n i g (omega arith) q)
  ]

  offset_behind-OffsetFound :
      (m : ℕ) (f : IsFilled fs v m) (r : GapSearch)
      → 0 < m
      → Ends fs c v m f length r
      → OffsetFound length fs (offset_behind length minus_one r fs)
  unfolding offset_behind
  offset_behind-OffsetFound m f (gap offset) some_file (k, place) = inl (refl, refl, (k, place))
  offset_behind-OffsetFound m f (last p) some_file e =
      let end = end_at-mod fs c v m f length (m - 1) (omega arith) in
      let free : sub64 fs.file_data_len (end_at fs c v m f length (m - 1))
          ≡ fs.file_data_len - end_at fs c v m f length (m - 1) =
        omega (arith, f.filled (m - 1) (omega arith), v.limit) in
      let positive : 0 < fs.used = rw v.total at (
        total_some fs.o_list.size (m - 1) (length_at fs.o_list fs.heap) (omega (arith, f.inside))
          (f.filled (m - 1) (omega arith)).1) in
      rw e (
        rw end (
          rw free
            (elim (Bool-cases (leb length (fs.file_data_len - end_at fs c v m f length (m - 1)))) [
              | inl t ↦ rw t (
                  inl (
                    refl,
                    refl,
                    (
                      m,
                      Place-last fs c v m f length some_file
                          (ground (arith, f.filled (m - 1) (omega arith))),
                    ),
                  ))
              | inr t ↦ rw t (inr (omega (arith, f.inside), positive, refl))
            ])))

  -- The place before the first file.
  front :
      (m : ℕ) (f : IsFilled fs v m)
      → 0 < m
      → length ≤ offset_at fs.o_list fs.heap 0
      → Place 0 0 length fs
  front m f some_file before =
      Place-at fs c v m f length 0 0 (omega arith) (λ j p. absurd (omega arith))
        (λ j p q. elim (ℕ_discrete j 0) [
          | yes e ↦ rw e (omega arith)
          | no ne ↦ omega (arith, apart_all fs v 0 j (omega arith) (omega (arith, f.inside)))
        ])
        (omega (arith, f.filled 0 some_file))

  -- `new_file_offset` of a file with bytes ends, does not abort, and finds a place for it.
  pub new_file_offset-OffsetFound :
      (r : ℕ × ℤ × Filesys) × (new_file_offset length minus_one fs ≡ ok r) × OffsetFound length fs r
  unfolding new_file_offset
  new_file_offset-OffsetFound =
      let (m, f) = some-IsFilled fs v in
      let t1 : leb length fs.file_data_len ≡ true = ground arith in
      let t2 : leb (add64 fs.used length) fs.file_data_len ≡ true = ground (arith, v.limit) in
      let t3 : (length == 0) ≡ false = ground arith in
      rw t1 (
        rw t2 (
          rw t3 (elim (ℕ_discrete m 0) [
            | yes none_filled ↦ rw (find_next-none fs v m f 0 (omega arith)) (
              (0, minus_one, fs),
              refl,
              inl (
                refl,
                refl,
                (
                  0,
                  Place-at fs c v m f length 0 0 (omega arith) (λ j p. absurd (omega arith))
                      (λ j p q. absurd (omega arith)) (omega arith),
                ),
              ),
            )
            | no some_filled_file ↦
                (let in_list : 0 < fs.o_list.size = omega (arith, f.inside) in
                  let t4 : (fs.o_list.size == 0) ≡ false = ground arith in
                  rw (find_next-some fs v m f 0 (omega arith)) (
                    rw t4 (elim (Bool-cases (leb length (offset_at fs.o_list fs.heap 0))) [
                      | inl t ↦ rw t (
                        (0, minus_one, fs),
                        refl,
                        inl (
                          refl,
                          refl,
                          (
                            0,
                            front m f (omega arith)
                                (leb→le length (offset_at fs.o_list fs.heap 0) t),
                          ),
                        ),
                      )
                      | inr t ↦
                          (let (g, e, ends) =
                              gap_loop-Ends fs c v m f length (fs.o_list.size + 1) 1 (omega arith)
                                (omega arith) (omega (arith, f.inside)) in
                            rw t (
                              rw (next_index-slot fs c v m f length 0 in_list) (
                                offset_behind length minus_one g fs,
                                rw e refl,
                                offset_behind-OffsetFound m f g (omega arith) ends,
                              )))
                    ])))
          ])))
