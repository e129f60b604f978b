-- ===== src/Filesystem/Space/Gap.antt =====
-- `new_file_offset` finds a place for a file in which no other file has bytes.
use native.Mathlib.Decide.{dec_lt, ℕ_discrete}
use virtual_file_system.Common.{
  ℕ, zero, suc, ◌+◌, ◌-◌, ◌≤◌, ◌<◌, ◌≡◌, refl, sym, ap, ◌∙◌, inl, inr, true, false, leb, Bool-cases,
  none, some, pos, add64, sub64, ok, arith,
}
use virtual_file_system.Structs.{Ptr, Filesys}
use virtual_file_system.Helper.{find_next_nonzero_file}
use virtual_file_system.Filesystem.Catalog.{IsCatalog}
use virtual_file_system.Filesystem.Layout.{
  IsSolid, IsFilled, apart_all, find_next-some, find_next-none,
}
use virtual_file_system.Filesystem.Repack.Moves.{offset_at, length_at}
use virtual_file_system.Filesystem.Space.{GapSearch, gap, last, next_index, gap_loop}

-- `length` bytes at `offset` are free, between the files before slot `k` and those behind.
pub record Place (k offset length : ℕ) (fs : Filesys) : Type 0 where
  pub inside : k ≤ fs.o_list.size
  pub before :
      (j : ℕ)
      → j < k
      → (0 < length_at fs.o_list fs.heap j)
        × (offset_at fs.o_list fs.heap j + length_at fs.o_list fs.heap j ≤ offset)
  pub behind :
      (j : ℕ) → k ≤ j → j < fs.o_list.size → offset + length ≤ offset_at fs.o_list fs.heap j
  pub fits : offset + length ≤ fs.file_data_len

module _ (fs : Filesys) (c : IsCatalog fs) (v : IsSolid fs) (m : ℕ) (f : IsFilled fs v m)
    (length : ℕ) where
  pub next_index-slot :
      (i : ℕ) → i < fs.o_list.size → next_index (fs.heap.cell (fs.o_list.list i)) ≡ i + 1
  next_index-slot i q =
      let at : (fs.heap.cell (fs.o_list.list i)).o_index ≡ pos i =
        rw c.o_type at (c.o_indexed i (omega arith) (omega arith)) in
      rw at refl

  abbrev pub end_at : ℕ → ℕ
  end_at i = offset_at fs.o_list fs.heap i + length_at fs.o_list fs.heap i

  pub end_at-mod :
      (i : ℕ)
      → i < m
      → add64 (offset_at fs.o_list fs.heap i) (length_at fs.o_list fs.heap i) ≡ end_at i
  end_at-mod i q = omega (arith, f.filled i q, v.limit)

  -- How the search ends.
  abbrev pub Ends : GapSearch → Type 0
  Ends (gap offset) = (k : ℕ) × Place k offset length fs
  Ends (last p) = p ≡ fs.o_list.list (m - 1)

  pub Place-at :
      (k offset : ℕ)
      → k ≤ m
      → ((j : ℕ) → j < k → end_at j ≤ offset)
      → ((j : ℕ) → k ≤ j → j < m → offset + length ≤ offset_at fs.o_list fs.heap j)
      → offset + length ≤ fs.file_data_len
      → Place k offset length fs
  Place-at k offset q before behind fits = record {
    inside = omega (arith, f.inside);
    before = λ j p. ((f.filled j (omega arith)).1, before j p);
    behind = λ j p r. elim (dec_lt j m) [
      | yes low ↦ behind j p low
      | no high ↦ omega (arith, (f.empty j (omega arith) r).0, v.limit)
    ];
    fits = fits;
  }

  -- The place between two files.
  Place-between :
      (i : ℕ)
      → 0 < i
      → i < m
      → end_at (i - 1) + length ≤ offset_at fs.o_list fs.heap i
      → Place i (end_at (i - 1)) length fs
  Place-between i some_before q room =
      Place-at i (end_at (i - 1)) (omega arith)
        (λ j p. elim (ℕ_discrete j (i - 1)) [
          | yes e ↦ rw e (omega arith)
          | no ne ↦ omega (arith, apart_all fs v j (i - 1) (omega arith) (omega (arith, f.inside)))
        ])
        (λ j p r. elim (ℕ_discrete i j) [
          | yes e ↦ rw (sym e) room
          | no ne ↦
              omega
                (arith, apart_all fs v i j (omega arith) (omega (arith, f.inside)), f.filled i q)
        ])
        (omega (arith, f.filled i q))

  -- The place behind the last file with bytes.
  pub Place-last :
      0 < m → end_at (m - 1) + length ≤ fs.file_data_len → Place m (end_at (m - 1)) length fs
  Place-last some_bytes room =
      Place-at m (end_at (m - 1)) (omega arith)
        (λ j p. elim (ℕ_discrete j (m - 1)) [
          | yes e ↦ rw e (omega arith)
          | no ne ↦ omega (arith, apart_all fs v j (m - 1) (omega arith) (omega (arith, f.inside)))
        ])
        (λ j p r. absurd (omega arith)) room

  -- One round of the loop.
  module _ (fuel : ℕ) (prev p : Ptr) where
    abbrev end_prev : ℕ
    end_prev = add64 (fs.heap.cell prev).offset (fs.heap.cell prev).length

    round_gap :
        leb length (sub64 (fs.heap.cell p).offset end_prev) ≡ true
        → gap_loop (suc fuel) length prev (some p) fs ≡ ok (gap end_prev)
    unfolding gap_loop
    round_gap t = rw (t, gap_loop)

    round_next :
        leb length (sub64 (fs.heap.cell p).offset end_prev) ≡ false
        → gap_loop (suc fuel) length prev (some p) fs
          ≡ gap_loop fuel length p
              (find_next_nonzero_file (next_index (fs.heap.cell p)) fs.o_list fs.heap)
              fs
    unfolding gap_loop
    round_next t = rw (t, gap_loop)

  round_last : (fuel : ℕ) (prev : Ptr) → gap_loop (suc fuel) length prev none fs ≡ ok (last prev)
  unfolding gap_loop
  round_last fuel prev = refl

  pub gap_loop-Ends :
      (fuel i : ℕ)
      → 0 < i
      → i ≤ m
      → m < i + fuel
      → (r : GapSearch) × (gap_loop fuel length
            (fs.o_list.list (i - 1))
            (find_next_nonzero_file i fs.o_list fs.heap)
            fs
          ≡ ok r)
        × Ends r
  gap_loop-Ends zero i some_before q enough = absurd (omega arith)
  gap_loop-Ends (suc fuel) i some_before q enough = elim (dec_lt i m) [
    | no end ↦
        (let here : i ≡ m = omega arith in
          (
            last (fs.o_list.list (i - 1)),
            rw (find_next-none fs v m f i (omega arith)) (round_last fuel _),
            ap (λ x. fs.o_list.list (x - 1)) here,
          ))
    | yes more ↦
        (let in_list : i < fs.o_list.size = omega (arith, f.inside) in
          let ordered = apart_all fs v (i - 1) i (omega arith) in_list in
          let end = end_at-mod (i - 1) (omega arith) in
          let free : sub64 (offset_at fs.o_list fs.heap i)
                (end_prev fuel (fs.o_list.list (i - 1)) (fs.o_list.list i))
              ≡ offset_at fs.o_list fs.heap i - end_at (i - 1) =
            rw end (omega (arith, ordered, f.filled i more)) in
          rw (find_next-some fs v m f i more)
            (elim (Bool-cases (leb length (offset_at fs.o_list fs.heap i - end_at (i - 1)))) [
              | inl t ↦ (
                gap (end_at (i - 1)),
                round_gap fuel (fs.o_list.list (i - 1)) (fs.o_list.list i) (rw free t)
                    ∙ ap (λ x. ok (gap x)) end,
                (i, Place-between i some_before more (ground (arith, ordered))),
              )
              | inr t ↦
                  (let back : i + 1 - 1 ≡ i = omega arith in
                    rw (round_next fuel (fs.o_list.list (i - 1)) (fs.o_list.list i) (rw free t)) (
                      rw (next_index-slot i in_list) (
                        rw back at
                          (gap_loop-Ends fuel (i + 1) (omega arith) (omega arith) (omega arith)))))
            ]))
  ]
