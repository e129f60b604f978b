-- ===== src/Filesystem/Repack/Tracks.antt =====
-- Where `repack_helper` puts each file, and which bytes it changes.
use native.Mathlib.Decide.{ℕ_discrete}
use virtual_file_system.Common.{
  ℕ, zero, suc, ◌+◌, ◌-◌, ◌%◌, ◌^◌, ◌≤◌, ◌<◌, ◌≡◌, refl, ap, ◌∙◌, inl, inr, true, false, Bool,
  Bool-cases, ltb, ◌==◌, ◌&&◌, not, is_negative, if◌then◌else◌, ℤ, pos, negsuc, minus_one, arith,
}
use virtual_file_system.Structs.{max_file_data_len, Bytes, Ptr, FileEntry, Filesys}
use virtual_file_system.Memory.Copy.{memcpy-outside}
use virtual_file_system.Helper.{update_file_offset}
use virtual_file_system.Hash.Range.{SameOutside}
use virtual_file_system.Arr.Shift.{update_self}
use virtual_file_system.Filesystem.Layout.{
  IsSolid, apart_all, sum_below, sum_below-le, sum_below-zero, sum_below-last,
}
use virtual_file_system.Filesystem.Repack.{repack_move, repack_helper}
use virtual_file_system.Filesystem.Repack.Rounds.{first_hash, end_before, round, round_hash}
use virtual_file_system.Filesystem.Repack.Moves.{offset_at, length_at, IsLaidOut, move_one}
use virtual_file_system.Filesystem.Repack.Packs.{Packed, PackedUpTo, repack_helper-PackedUpTo}

-- A move writes the bytes of the file's new place only.
move_one-outside :
    (p : Ptr) (e : ℕ) (fs : Filesys)
    → e < 2 ^ 32
    → SameOutside e (fs.heap.cell p).length (move_one p e fs).file fs.file
unfolding repack_move
move_one-outside p e fs small a q =
    let whole : e % 2 ^ 32 ≡ e = omega arith in
    elim (Bool-cases (ltb e (fs.heap.cell p).offset)) [
      | inr t ↦ rw t refl
      | inl t ↦ elim (Bool-cases (ltb 0 (fs.heap.cell p).length)) [
        | inr t' ↦ rw t (rw t' refl)
        | inl t' ↦ rw t (
            rw t' (
              rw whole (
                memcpy-outside fs.file e fs.file (fs.heap.cell p).offset (fs.heap.cell p).length a
                  q)))
      ]
    ]

move_one-offset :
    (p : Ptr) (e : ℕ) (fs : Filesys)
    → e < 2 ^ 32
    → ltb e (fs.heap.cell p).offset ≡ true
    → ((move_one p e fs).heap.cell p).offset ≡ e
unfolding repack_move update_file_offset
move_one-offset p e fs small t =
    let whole : e % 2 ^ 32 ≡ e = omega arith in
    rw t (
      rw whole (
        ap (λ (x : FileEntry). x.offset)
          (update_self fs.heap.cell p (record (fs.heap.cell p) { offset = e }))))

-- The files of `fs'` begin where the files before them end.
pub Packed-sums :
    (m : ℕ) (fs fs' : Filesys)
    → Packed m fs fs'
    → (j : ℕ) → j < m
    → offset_at fs.o_list fs'.heap j ≡ sum_below (length_at fs.o_list fs.heap) j
Packed-sums m fs fs' packed zero q = packed.first
Packed-sums m fs fs' packed (suc j) q =
    let next : suc j ≡ j + 1 = omega arith in
    let e : offset_at fs.o_list fs'.heap j ≡ sum_below (length_at fs.o_list fs.heap) j =
      Packed-sums m fs fs' packed j (omega arith) in
    rw next (packed.adjacent j (omega arith) ∙ rw e refl)

module _ (fs : Filesys) (l : IsSolid fs) (v : IsLaidOut fs) where
  -- The number of bytes of the first `i` files.
  abbrev pub bytes_before : ℕ → ℕ
  bytes_before i = sum_below (length_at fs.o_list fs.heap) i

  -- Only bytes of the packed files that stand at the hash offset or behind have changed.
  abbrev pub Tracked : ℕ → ℤ → Bytes → Type 0
  Tracked i (negsuc _) file = file ≡ fs.file
  Tracked i (pos start) file =
      (start < bytes_before i) × SameOutside start (bytes_before i - start) file fs.file

  filled :
      (i : ℕ)
      → i < fs.o_list.size
      → offset_at fs.o_list fs.heap i < max_file_data_len
      → 0 < length_at fs.o_list fs.heap i
  filled i q below = elim (l.lies i q) [
    | inl (_, some, _) ↦ some
    | inr (end, _) ↦ absurd (omega arith)
  ]

  bytes_before-le : (i : ℕ) → i ≤ fs.o_list.size → bytes_before i ≤ fs.used
  bytes_before-le i q =
      omega (arith, sum_below-le (length_at fs.o_list fs.heap) i fs.o_list.size q, l.total)

  bytes_before-next :
      (i : ℕ) → bytes_before (i + 1) ≡ bytes_before i + length_at fs.o_list fs.heap i
  bytes_before-next i = let e : i + 1 ≡ suc i = omega arith in rw e refl

  module _ (i : ℕ) (p : Ptr) (fs' : Filesys) (new : ℕ)
      (length_same : (fs'.heap.cell p).length ≡ length_at fs.o_list fs.heap i)
      (some_bytes : 0 < length_at fs.o_list fs.heap i) (small : bytes_before i < 2 ^ 32)
      (new_start : ltb (bytes_before i) (fs'.heap.cell p).offset ≡ true
        → new ≡ bytes_before i) where
    abbrev moved : Filesys
    moved = move_one p (bytes_before i) fs'

    moved-outside : SameOutside (bytes_before i) (length_at fs.o_list fs.heap i) moved.file fs'.file
    moved-outside = rw length_same at (move_one-outside p (bytes_before i) fs' small)

    unmoved : ltb (bytes_before i) (fs'.heap.cell p).offset ≡ false → moved.file ≡ fs'.file
    unmoved t = rw t refl

    wider : (start : ℕ) → Tracked i (pos start) fs'.file → Tracked (i + 1) (pos start) moved.file
    wider start (q, same) = (
      omega (arith, bytes_before-next i),
      λ a out.
          moved-outside a (omega (arith, bytes_before-next i))
          ∙ same a (omega (arith, bytes_before-next i)),
    )

    pub Tracked-move :
        (h : ℤ)
        → Tracked i h fs'.file
        → Tracked
            (i + 1)
            (if ltb (bytes_before i) (fs'.heap.cell p).offset
                && (is_negative h && not ((fs'.heap.cell p).length == 0))
              then pos new
              else h)
            moved.file
    Tracked-move = go (ltb (bytes_before i) (fs'.heap.cell p).offset) refl
      where
        go :
            (t : Bool)
            → ltb (bytes_before i) (fs'.heap.cell p).offset ≡ t
            → (h : ℤ) → Tracked i h fs'.file
            → Tracked
                (i + 1)
                (if t && (is_negative h && not ((fs'.heap.cell p).length == 0)) then pos new else h)
                moved.file
        go true t (pos start) tracked = wider start tracked
        go false t (pos start) tracked = wider start tracked
        go false t (negsuc n) same = unmoved t ∙ same
        go true t (negsuc n) same =
            let t' : ((fs'.heap.cell p).length == 0) ≡ false = ground (arith, length_same) in
            let range : Tracked (i + 1) (pos (bytes_before i)) moved.file = (
              omega (arith, bytes_before-next i),
              λ a out. moved-outside a (omega (arith, bytes_before-next i)) ∙ ap (λ m. m a) same,
            ) in
            rw (t', new_start t) range

  module _ (used_small : fs.used ≤ max_file_data_len) (positive : 0 < fs.used)
      (some_file : 0 < fs.o_list.size) where
    bytes_before-small :
        (i : ℕ) → i < fs.o_list.size → 0 < length_at fs.o_list fs.heap i → bytes_before i < 2 ^ 32
    bytes_before-small i q some_bytes =
        omega (arith, bytes_before-next i, bytes_before-le (i + 1) (omega arith))

    -- If the first file is empty, all are.
    first_filled : 0 < length_at fs.o_list fs.heap 0
    first_filled = elim (l.lies 0 some_file) [
      | inl (_, some_bytes, _) ↦ some_bytes
      | inr (end, empty) ↦ absurd (
          omega (
            arith,
            l.total,
            sum_below-zero (length_at fs.o_list fs.heap) fs.o_list.size (λ j q.
                elim (ℕ_discrete j 0) [
                  | yes e ↦ rw e empty
                  | no ne ↦ elim (l.lies j q) [
                    | inr (_, empty') ↦ empty'
                    | inl (low, _, _) ↦ absurd (omega (arith, apart_all fs l 0 j (omega arith) q))
                  ]
                ]),
          ))
    ]

    abbrev pub Round : ℕ → ℤ → Filesys → Type 0
    Round i h fs' =
        Tracked i h fs'.file × ((j : ℕ) → j < i → offset_at fs.o_list fs.heap j < max_file_data_len)

    first_Round : Round 1 (first_hash fs) (move_one (fs.o_list.list 0) 0 fs)
    first_Round = (
      Tracked-move 0 (fs.o_list.list 0) fs 0 refl first_filled (omega arith) (λ t. refl) minus_one
          refl,
      λ j q. elim (l.lies 0 some_file) [
        | inl (low, _, _) ↦ (let e : j ≡ 0 = omega arith in rw e low)
        | inr (_, empty) ↦ absurd (omega (arith, first_filled))
      ],
    )

    pub round-Round :
        (i : ℕ) (h : ℤ) (fs' : Filesys)
        → 0 < i
        → i < fs.o_list.size
        → Packed i fs fs'
        → offset_at fs.o_list fs.heap i < max_file_data_len
        → Round i h fs'
        → Round (i + 1) (round_hash i h fs') (round i fs')
    round-Round i h fs' some inside packed below (tracked, low) =
        let here : fs'.o_list.list i ≡ fs.o_list.list i = ap (λ a. a.list i) packed.moved.o_list in
        let prev : fs'.o_list.list (i - 1) ≡ fs.o_list.list (i - 1) =
          ap (λ a. a.list (i - 1)) packed.moved.o_list in
        let some_bytes = filled i inside below in
        let small = bytes_before-small i inside some_bytes in
        let size : (fs'.heap.cell (fs.o_list.list (i - 1))).length
            ≡ length_at fs.o_list fs.heap (i - 1) =
          packed.moved.lengths (fs.o_list.list (i - 1)) in
        let start : (fs'.heap.cell (fs.o_list.list (i - 1))).offset ≡ bytes_before (i - 1) =
          Packed-sums i fs fs' packed (i - 1) (omega arith) in
        let end : end_before i fs' ≡ bytes_before i =
          rw (prev, size, start)
            (omega (arith, sum_below-last (length_at fs.o_list fs.heap) i some)) in
        (
          rw (here, end)
              (Tracked-move i (fs.o_list.list i) fs'
                ((move_one (fs.o_list.list i) (bytes_before i) fs').heap.cell
                  (fs.o_list.list i)).offset
                (packed.moved.lengths (fs.o_list.list i)) some_bytes small
                (move_one-offset (fs.o_list.list i) (bytes_before i) fs' small) h tracked),
          λ j q. elim (ℕ_discrete j i) [ yes e ↦ rw e below | no ne ↦ low j (omega arith) ],
        )

    pub repack_helper-Round : PackedUpTo fs v Round round-Round 1 (repack_helper fs)
    repack_helper-Round =
        repack_helper-PackedUpTo fs v Round round-Round some_file positive (omega arith) first_Round
