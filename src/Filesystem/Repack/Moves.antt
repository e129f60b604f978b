-- ===== src/Filesystem/Repack/Moves.antt =====
-- One move of `repack_helper`: a file goes to the left, and no file loses its contents.
use native.Mathlib.Decide.{dec_lt, ℕ_discrete}
use virtual_file_system.Common.{
  ℕ, zero, suc, ◌+◌, ◌%◌, ◌^◌, ◌≤◌, ◌<◌, ◌≡◌, ◌≢◌, refl, ap, ◌∙◌, ◌⊎◌, inl, inr, true, ltb,
  Bool-cases, if◌then◌else◌, arith,
}
use virtual_file_system.Structs.{max_file_data_len, FileEntry, Ptr, Heap, Arr, Filesys, store}
use virtual_file_system.Memory.{memcpy}
use virtual_file_system.Memory.Copy.{memcpy-inside, memcpy-outside}
use virtual_file_system.Helper.{update_file_offset}
use virtual_file_system.Arr.Shift.{update_self, update_ne}
use virtual_file_system.Filesystem.Repack.{repack_move}

-- The offset and length of the file in a slot.
abbrev pub offset_at : Arr → Heap → ℕ → ℕ
offset_at a h i = (h.cell (a.list i)).offset

abbrev pub length_at : Arr → Heap → ℕ → ℕ
length_at a h i = (h.cell (a.list i)).length

-- The files stand in the order of their offsets, do not overlap and end below 2^32 or there.
pub record IsLaidOut (fs : Filesys) : Type 0 where
  pub apart :
      (i : ℕ)
      → i + 1 < fs.o_list.size
      → offset_at fs.o_list fs.heap i + length_at fs.o_list fs.heap i
        ≤ offset_at fs.o_list fs.heap (i + 1)
  pub bounded :
      (i : ℕ)
      → i < fs.o_list.size
      → offset_at fs.o_list fs.heap i + length_at fs.o_list fs.heap i ≤ max_file_data_len
  pub distinct :
      (i j : ℕ)
      → i < fs.o_list.size
      → j < fs.o_list.size
      → fs.o_list.list i ≡ fs.o_list.list j
      → i ≡ j

-- Intervals that follow each other pairwise are in order.
pub chain :
    (f g : ℕ → ℕ) (n : ℕ)
    → ((i : ℕ) → i + 1 < n → f i + g i ≤ f (i + 1))
    → (i j : ℕ) → i < j
    → j < n
    → f i + g i ≤ f j
chain f g n next i zero p q = absurd (omega arith)
chain f g n next i (suc j) p q =
    let step : f j + g j ≤ f (suc j) = ground (arith, next j (omega arith)) in
    elim (ℕ_discrete i j) [
      | yes e ↦ rw e step
      | no ne ↦ omega (arith, chain f g n next i j (omega arith) (omega arith))
    ]

-- From `fs` to `fs'`, files in slots below `m` may have moved, with their contents.
pub record Moved (m : ℕ) (fs fs' : Filesys) : Type 0 where
  pub o_list : fs'.o_list ≡ fs.o_list
  pub lengths : (q : Ptr) → (fs'.heap.cell q).length ≡ (fs.heap.cell q).length
  pub rest :
      (j : ℕ)
      → m ≤ j
      → j < fs.o_list.size
      → offset_at fs.o_list fs'.heap j ≡ offset_at fs.o_list fs.heap j
  pub contents :
      (j b : ℕ)
      → j < fs.o_list.size
      → b < length_at fs.o_list fs.heap j
      → fs'.file (offset_at fs.o_list fs'.heap j + b) ≡ fs.file (offset_at fs.o_list fs.heap j + b)

-- The file goes to `new_offset` if it stands behind it.
abbrev pub move_one : Ptr → ℕ → Filesys → Filesys
move_one p new_offset fs =
    if ltb new_offset (fs.heap.cell p).offset then repack_move p new_offset fs else fs

module _ (fs : Filesys) (v : IsLaidOut fs) (m : ℕ) (inside : m < fs.o_list.size) (fs' : Filesys)
    (moved : Moved m fs fs') (e : ℕ) (low : e ≤ offset_at fs.o_list fs.heap m)
    (small : e < max_file_data_len)
    (before : (j : ℕ)
      → j < m
      → offset_at fs.o_list fs'.heap j + length_at fs.o_list fs.heap j ≤ e) where
  abbrev p : Ptr
  p = fs.o_list.list m

  behind :
      (j : ℕ)
      → m < j
      → j < fs.o_list.size
      → offset_at fs.o_list fs.heap m + length_at fs.o_list fs.heap m
        ≤ offset_at fs.o_list fs.heap j
  behind j q r =
      chain (offset_at fs.o_list fs.heap) (length_at fs.o_list fs.heap) fs.o_list.size v.apart m j q
        r

  abbrev moved_entry : FileEntry
  moved_entry = record (fs'.heap.cell p) { offset = e }

  abbrev moved_heap : Heap
  moved_heap = store p moved_entry fs'.heap

  abbrev moved_file : ℕ → ℕ
  moved_file =
      if ltb 0 (fs'.heap.cell p).length
      then memcpy fs'.file e fs'.file (fs'.heap.cell p).offset (fs'.heap.cell p).length
      else fs'.file

  offset_here : offset_at fs.o_list moved_heap m ≡ e
  offset_here = ap (λ (x : FileEntry). x.offset) (update_self fs'.heap.cell p moved_entry)

  offset_other :
      (j : ℕ)
      → j < fs.o_list.size
      → j ≢ m
      → offset_at fs.o_list moved_heap j ≡ offset_at fs.o_list fs'.heap j
  offset_other j q ne =
      ap (λ (x : FileEntry). x.offset)
        (update_ne fs'.heap.cell p (fs.o_list.list j) moved_entry
          (λ same. ne (v.distinct j m q inside same)))

  -- The bytes outside of the file's new place are kept, and its own bytes go there.
  file_outside :
      (a : ℕ) → (a < e) ⊎ (e + length_at fs.o_list fs.heap m ≤ a) → moved_file a ≡ fs'.file a
  file_outside a q = elim (Bool-cases (ltb 0 (fs'.heap.cell p).length)) [
    | inl t ↦ rw t (
        memcpy-outside fs'.file e fs'.file (fs'.heap.cell p).offset (fs'.heap.cell p).length a
          (rw (moved.lengths p) q))
    | inr t ↦ rw t refl
  ]

  file_inside :
      (b : ℕ)
      → b < length_at fs.o_list fs.heap m
      → moved_file (e + b) ≡ fs'.file (offset_at fs.o_list fs'.heap m + b)
  file_inside b q =
      let t : ltb 0 (fs'.heap.cell p).length ≡ true = ground (arith, moved.lengths p) in
      rw t (
        memcpy-inside fs'.file e fs'.file (fs'.heap.cell p).offset (fs'.heap.cell p).length b
          (rw (moved.lengths p) q))

  contents_moved :
      (j b : ℕ)
      → j < fs.o_list.size
      → b < length_at fs.o_list fs.heap j
      → moved_file (offset_at fs.o_list moved_heap j + b)
        ≡ fs.file (offset_at fs.o_list fs.heap j + b)
  contents_moved j b q r = elim (ℕ_discrete j m) [
    | yes here ↦
        rw here
          (rw offset_here (file_inside b (rw here at r) ∙ moved.contents m b inside (rw here at r)))
    | no ne ↦
        rw (offset_other j q ne) (
          file_outside (offset_at fs.o_list fs'.heap j + b) (elsewhere ne) ∙ moved.contents j b q r)
  ]
    where
      elsewhere :
          j ≢ m
          → (offset_at fs.o_list fs'.heap j + b < e)
            ⊎ (e + length_at fs.o_list fs.heap m ≤ offset_at fs.o_list fs'.heap j + b)
      elsewhere ne = elim (dec_lt j m) [
        | yes left ↦ inl (omega (arith, before j left))
        | no right ↦ inr (omega (arith, behind j (omega arith) q, moved.rest j (omega arith) q))
      ]

  repack_move-moved :
      (repack_move p e fs').heap ≡ moved_heap × ((repack_move p e fs').file ≡ moved_file)
  unfolding repack_move update_file_offset
  repack_move-moved = let whole : e % 2 ^ 32 ≡ e = omega arith in rw whole (refl, refl)

  repack_move-o_list : (repack_move p e fs').o_list ≡ fs'.o_list
  unfolding repack_move
  repack_move-o_list = refl

  lengths_moved : (q : Ptr) → (moved_heap.cell q).length ≡ (fs.heap.cell q).length
  lengths_moved q = elim (ℕ_discrete q p) [
    | yes here ↦ rw here (rw (update_self fs'.heap.cell p moved_entry) (moved.lengths p))
    | no ne ↦ rw (update_ne fs'.heap.cell p q moved_entry ne) (moved.lengths q)
  ]

  repack_move-Moved : Moved (suc m) fs (repack_move p e fs')
  repack_move-Moved = record {
    o_list = repack_move-o_list ∙ moved.o_list;
    lengths = λ q. rw repack_move-moved.0 (lengths_moved q);
    rest = λ j q r.
        rw repack_move-moved.0 (offset_other j r (omega arith) ∙ moved.rest j (omega arith) r);
    contents = λ j b q r. rw (repack_move-moved.0, repack_move-moved.1) (contents_moved j b q r);
  }

  -- What a round of the loop does with the file in slot `m`.
  pub record Step (fs'' : Filesys) : Type 0 where
    pub moved' : Moved (suc m) fs fs''
    pub here : offset_at fs.o_list fs''.heap m ≡ e
    pub others :
        (j : ℕ)
        → j < fs.o_list.size
        → j ≢ m
        → offset_at fs.o_list fs''.heap j ≡ offset_at fs.o_list fs'.heap j

  pub move_one-Step : Step (move_one p e fs')
  move_one-Step = elim (Bool-cases (ltb e (offset_at fs.o_list fs'.heap m))) [
    | inl t ↦ rw t (record {
      moved' = repack_move-Moved;
      here = rw repack_move-moved.0 offset_here;
      others = λ j q ne. rw repack_move-moved.0 (offset_other j q ne);
    })
    | inr t ↦
        (let same : offset_at fs.o_list fs'.heap m ≡ e =
            ground (arith, moved.rest m (omega arith) inside) in
          rw t (record {
            moved' = record {
              o_list = moved.o_list;
              lengths = moved.lengths;
              rest = λ j q r. moved.rest j (omega arith) r;
              contents = moved.contents;
            };
            here = same;
            others = λ j q ne. refl;
          }))
  ]
