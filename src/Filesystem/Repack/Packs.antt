-- ===== src/Filesystem/Repack/Packs.antt =====
-- `repack_helper` puts the files one behind the other.
use native.Mathlib.Decide.{dec_lt, ℕ_discrete}
use virtual_file_system.Common.{
  is_nonpositive64, ℕ, zero, suc, ◌+◌, ◌-◌, ◌^◌, ◌≤◌, ◌<◌, ◌≡◌, refl, sym, ap, ◌∙◌, true, false,
  leb, ◌==◌, ◌||◌, ℤ, arith,
}
use virtual_file_system.Structs.{max_file_data_len, Filesys}
use virtual_file_system.Filesystem.Repack.{repack_loop, repack_helper}
use virtual_file_system.Filesystem.Repack.Rounds.{
  first_hash, end_before, round, round_hash, repack_loop-stop, repack_loop-next,
}
use virtual_file_system.Filesystem.Repack.Moves.{
  offset_at, length_at, IsLaidOut, chain, Moved, move_one, Step, move_one-Step,
}

-- The first `m` files stand one behind the other from offset 0 on, none further right than before.
pub record Packed (m : ℕ) (fs fs' : Filesys) : Type 0 where
  pub moved : Moved m fs fs'
  pub left : (j : ℕ) → j < m → offset_at fs.o_list fs'.heap j ≤ offset_at fs.o_list fs.heap j
  pub first : offset_at fs.o_list fs'.heap 0 ≡ 0
  pub adjacent :
      (j : ℕ)
      → j + 1 < m
      → offset_at fs.o_list fs'.heap (j + 1)
        ≡ offset_at fs.o_list fs'.heap j + length_at fs.o_list fs.heap j

module _ (fs : Filesys) (v : IsLaidOut fs) where
  -- The first file goes to offset 0.
  Packed-first : 0 < fs.o_list.size → Packed 1 fs (move_one (fs.o_list.list 0) 0 fs)
  Packed-first some =
      let unmoved : Moved 0 fs fs = record {
        o_list = refl;
        lengths = λ q. refl;
        rest = λ j p q. refl;
        contents = λ j b p q. refl;
      } in
      let s =
        move_one-Step fs v 0 some fs unmoved 0 (omega arith) (omega arith)
          (λ j q. absurd (omega arith)) in
      record {
        moved = s.moved';
        left = λ j q. let e : j ≡ 0 = omega arith in rw e (omega (arith, s.here));
        first = s.here;
        adjacent = λ j q. absurd (omega arith);
      }

  module _ (m : ℕ) (some : 0 < m) (inside : m < fs.o_list.size) (fs' : Filesys)
      (packed : Packed m fs fs')
      (before_end : offset_at fs.o_list fs.heap m < max_file_data_len) where
    -- The end of the last packed file.
    abbrev packed_end : ℕ
    packed_end = offset_at fs.o_list fs'.heap (m - 1) + length_at fs.o_list fs.heap (m - 1)

    packed_end-le : packed_end ≤ offset_at fs.o_list fs.heap m
    packed_end-le =
        let e : m ≡ m - 1 + 1 = omega arith in
        omega (
          arith,
          packed.left (m - 1) (omega arith),
          (rw (sym e) at (v.apart (m - 1) (omega arith))),
        )

    all_before :
        (j : ℕ)
        → j < m
        → offset_at fs.o_list fs'.heap j + length_at fs.o_list fs.heap j ≤ packed_end
    all_before j q = elim (ℕ_discrete j (m - 1)) [
      | yes e ↦ rw e (omega arith)
      | no ne ↦ omega (
        arith,
        chain (offset_at fs.o_list fs'.heap) (length_at fs.o_list fs.heap) m
            (λ i p. omega (arith, packed.adjacent i p)) j (m - 1) (omega arith) (omega arith),
      )
    ]

    step :
        Step fs v m inside fs' packed.moved packed_end packed_end-le
          (omega (arith, packed_end-le, before_end))
          all_before
          (move_one (fs.o_list.list m) packed_end fs')
    step =
        move_one-Step fs v m inside fs' packed.moved packed_end packed_end-le
          (omega (arith, packed_end-le, before_end)) all_before

    abbrev next : Filesys
    next = move_one (fs.o_list.list m) packed_end fs'

    kept : (j : ℕ) → j < m → offset_at fs.o_list next.heap j ≡ offset_at fs.o_list fs'.heap j
    kept j q = step.others j (omega arith) (omega arith)

    Packed-next : Packed (suc m) fs next
    Packed-next = record {
      moved = step.moved';
      left = λ j q. elim (ℕ_discrete j m) [
        | yes e ↦ rw e (omega (arith, step.here, packed_end-le))
        | no ne ↦ omega (arith, kept j (omega arith), packed.left j (omega arith))
      ];
      first = kept 0 some ∙ packed.first;
      adjacent = λ j q. elim (ℕ_discrete (j + 1) m) [
        | yes e ↦
            (let back : m - 1 ≡ j = omega arith in
              rw e (step.here ∙ rw (kept j (omega arith), back) refl))
        | no ne ↦
            rw (kept (j + 1) (omega arith), kept j (omega arith)) (packed.adjacent j (omega arith))
      ];
    }

  pub round-Packed :
      (i : ℕ) (fs' : Filesys)
      → 0 < i
      → i < fs.o_list.size
      → Packed i fs fs'
      → offset_at fs.o_list fs.heap i < max_file_data_len
      → Packed (i + 1) fs (round i fs')
  round-Packed i fs' some inside packed below =
      let here : fs'.o_list.list i ≡ fs.o_list.list i = ap (λ a. a.list i) packed.moved.o_list in
      let prev : fs'.o_list.list (i - 1) ≡ fs.o_list.list (i - 1) =
        ap (λ a. a.list (i - 1)) packed.moved.o_list in
      let size : (fs'.heap.cell (fs.o_list.list (i - 1))).length
          ≡ length_at fs.o_list fs.heap (i - 1) =
        packed.moved.lengths (fs.o_list.list (i - 1)) in
      let end : end_before i fs' ≡ packed_end i some inside fs' packed below = rw prev (
        rw size
          (omega (arith, packed.left (i - 1) (omega arith), v.bounded (i - 1) (omega arith)))) in
      let suc_i : suc i ≡ i + 1 = omega arith in
      rw (here, end) (rw suc_i at (Packed-next i some inside fs' packed below))

  -- `Q` holds at the start of each round, and behind the loop.
  module _ (Q : ℕ → ℤ → Filesys → Type 0)
      (keeps : (i : ℕ) (hash_offset : ℤ) (fs' : Filesys)
        → 0 < i
        → i < fs.o_list.size
        → Packed i fs fs'
        → offset_at fs.o_list fs.heap i < max_file_data_len
        → Q i hash_offset fs'
        → Q (i + 1) (round_hash i hash_offset fs') (round i fs')) where
    -- The loop packs all files up to the first that stands at 2^32 or behind.
    abbrev pub PackedUpTo : ℕ → ℤ × Filesys → Type 0
    PackedUpTo i r =
        (m : ℕ) × (i ≤ m)
        × (m ≤ fs.o_list.size)
        × Packed m fs r.1
        × Q m r.0 r.1
        × ((j : ℕ) → m ≤ j → j < fs.o_list.size → max_file_data_len ≤ offset_at fs.o_list fs.heap j)

    repack_loop-Packed :
        (k i : ℕ) (hash_offset : ℤ) (fs' : Filesys)
        → i + k ≡ fs.o_list.size
        → 0 < i
        → Packed i fs fs'
        → Q i hash_offset fs'
        → PackedUpTo i (repack_loop k i hash_offset fs')
    unfolding repack_loop
    repack_loop-Packed zero i hash_offset fs' e some packed held =
        (i, omega arith, omega arith, packed, held, λ j p q. absurd (omega arith))
    repack_loop-Packed (suc k) i hash_offset fs' e some packed held =
        let here : fs'.o_list.list i ≡ fs.o_list.list i = ap (λ a. a.list i) packed.moved.o_list in
        let unmoved : (fs'.heap.cell (fs'.o_list.list i)).offset ≡ offset_at fs.o_list fs.heap i =
          rw here (packed.moved.rest i (omega arith) (omega arith)) in
        elim (dec_lt (offset_at fs.o_list fs.heap i) max_file_data_len) [
          | yes below ↦
              (let t : leb max_file_data_len (fs'.heap.cell (fs'.o_list.list i)).offset ≡ false =
                  ground arith in
                let (m, above, inside, done, held', behind) =
                  repack_loop-Packed k (i + 1) (round_hash i hash_offset fs') (round i fs')
                    (omega arith) (omega arith) (round-Packed i fs' some (omega arith) packed below)
                    (keeps i hash_offset fs' some (omega arith) packed below held) in
                rw (repack_loop-next k i hash_offset fs' t)
                  (m, omega arith, inside, done, held', behind))
          | no high ↦
              (let t : leb max_file_data_len (fs'.heap.cell (fs'.o_list.list i)).offset ≡ true =
                  ground arith in
                rw (repack_loop-stop k i hash_offset fs' t) (
                  i,
                  omega arith,
                  omega arith,
                  packed,
                  held,
                  λ j p q. elim (ℕ_discrete i j) [
                    | yes same ↦ rw (sym same) (omega arith)
                    | no ne ↦ omega (
                      arith,
                      chain (offset_at fs.o_list fs.heap) (length_at fs.o_list fs.heap)
                          fs.o_list.size v.apart i j (omega arith) q,
                    )
                  ],
                ))
        ]

    pub repack_helper-PackedUpTo :
        0 < fs.o_list.size
        → 0 < fs.used
        → fs.used < 2 ^ 63
        → Q 1 (first_hash fs) (move_one (fs.o_list.list 0) 0 fs)
        → PackedUpTo 1 (repack_helper fs)
    unfolding repack_helper
    repack_helper-PackedUpTo some positive small held =
        let t : (is_nonpositive64 fs.used || fs.o_list.size == 0) ≡ false = ground arith in
        rw t (
          repack_loop-Packed (fs.o_list.size - 1) 1 _ (move_one (fs.o_list.list 0) 0 fs)
            (omega arith) (omega arith) (Packed-first some) held)

-- On files in the order of their offsets that do not overlap and end below 2^32 or there, of which
-- there is one at least, and with a positive `used`, `repack_helper` puts the first `m` files one
-- behind the other from offset 0 on and leaves the files from `m` on, which are those at 2^32 or
-- behind. The array and the lengths stay as they are, no file moves to the right, and the bytes
-- of each file are those it had.
pub repack_helper-Packed :
    (fs : Filesys)
    → IsLaidOut fs
    → 0 < fs.o_list.size
    → 0 < fs.used
    → fs.used < 2 ^ 63
    → (m : ℕ) × (1 ≤ m)
      × (m ≤ fs.o_list.size)
      × Packed m fs (repack_helper fs).1
      × ((j : ℕ) → m ≤ j → j < fs.o_list.size → max_file_data_len ≤ offset_at fs.o_list fs.heap j)
repack_helper-Packed fs v some positive small =
    let (m, above, inside, packed, _, behind) =
      repack_helper-PackedUpTo fs v (λ i _ fs'. Packed i fs fs')
        (λ i _ fs' positive' inside packed below _.
          round-Packed fs v i fs' positive' inside packed below)
        some positive small (Packed-first fs v some) in
    (m, above, inside, packed, behind)
