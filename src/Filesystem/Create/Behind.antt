-- ===== src/Filesystem/Create/Behind.antt =====
-- The state behind a repack, in which `create_file` puts the new file at the end.
use native.Mathlib.Decide.{dec_lt}
use virtual_file_system.Common.{
  ℕ, refl, ◌+◌, ◌≤◌, ◌<◌, ◌≡◌, ap, ◌∙◌, inl, inr, ℤ, pos, negsuc, arith, suc,
}
use virtual_file_system.Structs.{max_file_data_len, FileEntry, Ptr, Filesys}
use virtual_file_system.Filesystem.Catalog.{IsCatalog}
use virtual_file_system.Filesystem.Layout.{IsSolid, IsSolid-IsLaidOut, sum_below-le, sum_below-same}
use virtual_file_system.Filesystem.Space.Gap.{Place}
use virtual_file_system.Filesystem.Repack.{repack_helper}
use virtual_file_system.Filesystem.Repack.Moves.{offset_at, length_at, IsLaidOut}
use virtual_file_system.Filesystem.Repack.Packs.{Packed}
use virtual_file_system.Filesystem.Repack.Kept.{Kept, repack_helper-Kept, IsCatalog-Kept}
use virtual_file_system.Filesystem.Repack.Tracks.{
  bytes_before, Tracked, Packed-sums, repack_helper-Round,
}
use virtual_file_system.Filesystem.Create.Based.{KeepsContents, Changes, IsBase}

module _ (length : ℕ) (fs : Filesys) (c : IsCatalog fs) (l : IsSolid fs)
    (room : fs.used + length ≤ fs.file_data_len) (positive : 0 < fs.used)
    (some_file : 0 < fs.o_list.size) where
  abbrev v : IsLaidOut fs
  v = IsSolid-IsLaidOut fs l c.o_indexed

  used_small : fs.used ≤ max_file_data_len
  used_small = omega (arith, l.limit)

  abbrev pub b : Filesys
  b = (repack_helper fs).1

  kept : Kept fs b
  kept = repack_helper-Kept fs

  o_same : b.o_list ≡ fs.o_list
  o_same = ap (λ (z : Filesys). z.o_list) kept.rest

  len_same : b.file_data_len ≡ fs.file_data_len
  len_same = ap (λ (z : Filesys). z.file_data_len) kept.rest

  used_same : b.used ≡ fs.used
  used_same = ap (λ (z : Filesys). z.used) kept.rest

  length_same : (q : Ptr) → (b.heap.cell q).length ≡ (fs.heap.cell q).length
  length_same q = ap (λ (z : FileEntry). z.length) (kept.cells q)

  module _ (m : ℕ) (inside : m ≤ fs.o_list.size) (packed : Packed m fs b)
      (tracked : Tracked fs l v m (repack_helper fs).0 b.file)
      (low : (j : ℕ) → j < m → offset_at fs.o_list fs.heap j < max_file_data_len)
      (high : (j : ℕ)
        → m ≤ j
        → j < fs.o_list.size
        → max_file_data_len ≤ offset_at fs.o_list fs.heap j) where
    starts : (j : ℕ) → j < m → offset_at fs.o_list b.heap j ≡ bytes_before fs l v j
    starts j q = Packed-sums m fs b packed j q

    some_bytes : (j : ℕ) → j < m → 0 < length_at fs.o_list fs.heap j
    some_bytes j q = elim (l.lies j (omega arith)) [
      | inl (_, some, _) ↦ some
      | inr (end, _) ↦ absurd (omega (arith, low j q))
    ]

    empty :
        (j : ℕ)
        → m ≤ j
        → j < fs.o_list.size
        → (offset_at fs.o_list b.heap j ≡ max_file_data_len) × (length_at fs.o_list fs.heap j ≡ 0)
    empty j q r = elim (l.lies j r) [
      | inl (below, _, _) ↦ absurd (omega (arith, high j q r))
      | inr (end, none) ↦ (packed.moved.rest j q r ∙ end, none)
    ]

    -- The end of a packed file.
    ends : (j : ℕ) → j < m → offset_at fs.o_list b.heap j + length_at fs.o_list fs.heap j ≤ fs.used
    ends j q = omega (
      arith,
      starts j q,
      sum_below-le (length_at fs.o_list fs.heap) (suc j) fs.o_list.size (omega arith),
      l.total,
    )

    apart' :
        (i : ℕ)
        → i + 1 < fs.o_list.size
        → offset_at fs.o_list b.heap i + length_at fs.o_list fs.heap i
          ≤ offset_at fs.o_list b.heap (i + 1)
    apart' i q = elim (dec_lt (i + 1) m) [
      | yes both ↦ omega (arith, packed.adjacent i both)
      | no last ↦ elim (dec_lt i m) [
        | yes here ↦ omega (arith, ends i here, (empty (i + 1) (omega arith) q).0, used_small)
        | no behind ↦
            omega (arith, empty i (omega arith) (omega arith), (empty (i + 1) (omega arith) q).0)
      ]
    ]

    packed-IsSolid : IsSolid b
    packed-IsSolid = record {
      apart = rw o_same (λ i q. rw (length_same (fs.o_list.list i)) (apart' i q));
      lies = rw o_same (λ j q.
          rw (length_same (fs.o_list.list j), len_same)
            (elim (dec_lt j m) [
              | yes here ↦ inl (
                omega (arith, ends j here, some_bytes j here, used_small),
                some_bytes j here,
                omega (arith, ends j here),
              )
              | no behind ↦ inr (empty j (omega arith) q)
            ]));
      total =
          rw (o_same, used_same)
            (sum_below-same (length_at fs.o_list b.heap) (length_at fs.o_list fs.heap)
                fs.o_list.size (λ j q. length_same (fs.o_list.list j))
              ∙ l.total);
      limit = rw len_same l.limit;
    }

    end_Place : Place m b.used length b
    end_Place = record {
      inside = rw o_same inside;
      before =
          rw (o_same, used_same)
            (λ j q. rw (length_same (fs.o_list.list j)) (some_bytes j q, ends j q));
      behind = rw (o_same, used_same) (λ j q r. omega (arith, (empty j q r).0, l.limit));
      fits = rw (used_same, len_same) room;
    }

    packed-KeepsContents : KeepsContents fs b
    packed-KeepsContents q m' =
        let (j, in_list, e) = (c.paired q).0 m' in
        (
          length_same q,
          λ a short.
              let short' : a < length_at fs.o_list fs.heap j = rw (length_at, e) short in
              rw (offset_at, e) at (packed.moved.contents j a in_list short'),
        )

    packed-Changes : Changes (repack_helper fs).0 fs b.file
    packed-Changes = go (repack_helper fs).0 tracked
      where
        go : (h : ℤ) → Tracked fs l v m h b.file → Changes h fs b.file
        go (negsuc n) same = same
        go (pos start) (q, same) =
            let bound : bytes_before fs l v m ≤ fs.used = omega (
              arith,
              sum_below-le (length_at fs.o_list fs.heap) m fs.o_list.size inside,
              l.total,
            ) in
            (omega arith, λ a out. same a (omega arith))

    packed-IsBase : IsBase b.used length (repack_helper fs).0 fs b
    packed-IsBase = record {
      catalog = IsCatalog-Kept fs b kept c;
      solid = packed-IsSolid;
      slot = m;
      place = end_Place;
      rest = kept.rest;
      names = λ q. ap (λ (z : FileEntry). z.name) (kept.cells q);
      indices = λ q. ap (λ (z : FileEntry). z.index) (kept.cells q);
      origin = inr refl;
      next = kept.next;
      contents = packed-KeepsContents;
      changes = packed-Changes;
      at_end = λ start e. used_same;
    }

  -- Behind a repack, the free bytes are behind all files.
  pub repack_helper-IsBase : IsBase b.used length (repack_helper fs).0 fs b
  repack_helper-IsBase =
      let (m, some, inside, packed, (tracked, low), high) =
        repack_helper-Round fs l v used_small positive some_file in
      packed-IsBase m inside packed tracked low high
