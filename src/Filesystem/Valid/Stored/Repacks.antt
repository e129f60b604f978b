-- ===== src/Filesystem/Valid/Stored/Repacks.antt =====
-- A repack writes the new offsets into dir_table.
use native.Mathlib.Decide.{ℕ_discrete}
use virtual_file_system.Common.{
  is_nonpositive64, ℕ, zero, suc, ◌+◌, ◌-◌, ◌*◌, ◌%◌, ◌^◌, ◌≤◌, ◌≡◌, ◌≢◌, refl, sym, ap, ◌∙◌, inl,
  inr, ltb, leb, ◌==◌, ◌||◌, length, Bool-cases, ℤ, pos, negsuc, sub64, arith,
}
use virtual_file_system.Structs.{
  max_file_data_len, name_len, offset_len, meta_len, FileEntry, Ptr, Filesys,
}
use virtual_file_system.Helper.{update_file_offset}
use virtual_file_system.Hash.{compute_hash_block_range}
use virtual_file_system.Hash.Range.{compute_hash_block_range-frame}
use virtual_file_system.Arr.Shift.{update_self, update_ne}
use virtual_file_system.Arr.Member.{Member}
use virtual_file_system.Filesystem.Mount.Entries.{offset-inside, offset-outside}
use virtual_file_system.Filesystem.Repack.{repack_move, repack_loop, repack_helper, repack}
use virtual_file_system.Filesystem.Repack.Moves.{move_one}
use virtual_file_system.Filesystem.Repack.Rounds.{
  round, round_hash, end_before, repack_loop-stop, repack_loop-next,
}
use virtual_file_system.Filesystem.Repack.Kept.{Kept, Kept-refl, move_one-Kept}
use virtual_file_system.Filesystem.Valid.{IsValid}
use virtual_file_system.Filesystem.Valid.Stored.{IsEntry, IsStored, IsEntry-same, short_name}

module _ (fs fs' : Filesys) (w : IsValid fs) (kept : Kept fs fs') (s : IsStored fs') (p : Ptr)
    (m : Member fs.n_list p) (e : ℕ) where
  abbrev f : FileEntry
  f = record (fs'.heap.cell p) { offset = e % 2 ^ 32 }

  list_same : fs'.n_list ≡ fs.n_list
  list_same = ap (λ (z : Filesys). z.n_list) kept.rest

  table_same : fs'.index ≡ fs.index
  table_same = ap (λ (z : Filesys). z.index) kept.rest

  index_same : (q : Ptr) → (fs'.heap.cell q).index ≡ (fs.heap.cell q).index
  index_same q = ap (λ (z : FileEntry). z.index) (kept.cells q)

  name_same : (q : Ptr) → (fs'.heap.cell q).name ≡ (fs.heap.cell q).name
  name_same q = ap (λ (z : FileEntry). z.name) (kept.cells q)

  own : IsEntry (fs'.heap.cell p) fs'.dir
  own = s.entries p (rw list_same m)

  short : (q : Ptr) → Member fs.n_list q → length (fs'.heap.cell q).name ≤ name_len - 1
  short q m' = rw (name_same q) (short_name fs q w.catalog m')

  repack_move-IsStored : IsStored (repack_move p e fs')
  unfolding repack_move update_file_offset
  repack_move-IsStored = record {
    entries = λ q m'. elim (ℕ_discrete q p) [
      | yes here ↦ rw here (
          rw (update_self fs'.heap.cell p f) (record {
            name = λ k a.
                offset-outside f fs'.dir ((fs'.heap.cell p).index * meta_len + k)
                  (omega (arith, short p m))
                ∙ own.name k a;
            offset = λ k a small. offset-inside f fs'.dir k a small;
            length = λ k a.
                offset-outside f fs'.dir
                  ((fs'.heap.cell p).index * meta_len + name_len + offset_len + k) (omega arith)
                ∙ own.length k a;
          }))
      | no ne ↦
          (let old : Member fs.n_list q = rw list_same at m' in
            let other : (fs'.heap.cell q).index ≢ (fs'.heap.cell p).index =
              λ same. ne (w.owned.own q p old m (sym (index_same q) ∙ (same ∙ index_same p))) in
            rw (update_ne fs'.heap.cell p q f ne) (
              IsEntry-same (fs'.heap.cell q) (fs'.heap.cell q) fs'.dir _ (refl, refl, refl, refl)
                (short q old) (λ a low high. offset-outside f fs'.dir a (omega (arith, other)))
                (s.entries q m')))
    ];
    empties = λ i q free.
        let other : i ≢ (fs'.heap.cell p).index = λ same.
          w.owned.taken p m
            (sym (ap fs.index (same ∙ index_same p)) ∙ (ap (λ t. t i) (sym table_same) ∙ free)) in
        offset-outside f fs'.dir (i * meta_len) (omega (arith, other)) ∙ s.empties i q free;
  }

  move_one-IsStored : IsStored (move_one p e fs')
  move_one-IsStored = elim (Bool-cases (ltb e (fs'.heap.cell p).offset)) [
    | inl t ↦ rw t repack_move-IsStored
    | inr t ↦ rw t s
  ]

module _ (fs : Filesys) (w : IsValid fs) where
  repack_loop-IsStored :
      (k i : ℕ) (hash_offset : ℤ) (fs' : Filesys)
      → Kept fs fs'
      → IsStored fs'
      → i + k ≡ fs.o_list.size
      → IsStored (repack_loop k i hash_offset fs').1
  unfolding repack_loop
  repack_loop-IsStored zero i h fs' kept s e = s
  repack_loop-IsStored (suc k) i h fs' kept s e =
      let here : fs'.o_list ≡ fs.o_list = ap (λ (z : Filesys). z.o_list) kept.rest in
      let m : Member fs.n_list (fs'.o_list.list i) =
        (w.catalog.paired (fs'.o_list.list i)).1 (i, omega arith, ap (λ a. a.list i) (sym here)) in
      elim (Bool-cases (leb max_file_data_len (fs'.heap.cell (fs'.o_list.list i)).offset)) [
        | inl t ↦ rw (repack_loop-stop k i h fs' t) s
        | inr t ↦ rw (repack_loop-next k i h fs' t) (
            repack_loop-IsStored k (i + 1) (round_hash i h fs') (round i fs')
              (move_one-Kept fs fs' kept (fs'.o_list.list i) (end_before i fs'))
              (move_one-IsStored fs fs' w kept s (fs'.o_list.list i) m (end_before i fs'))
              (omega arith))
      ]

  pub repack_helper-IsStored : IsStored fs → IsStored (repack_helper fs).1
  unfolding repack_helper
  repack_helper-IsStored s = elim (Bool-cases (is_nonpositive64 fs.used || fs.o_list.size == 0)) [
    | inl t ↦ rw t s
    | inr t ↦
        (let first : Member fs.n_list (fs.o_list.list 0) =
            (w.catalog.paired (fs.o_list.list 0)).1 (0, ground arith, refl) in
          let moved = move_one-IsStored fs fs w (Kept-refl fs) s (fs.o_list.list 0) first 0 in
          rw t (
            repack_loop-IsStored (fs.o_list.size - 1) 1 _ (move_one (fs.o_list.list 0) 0 fs)
              (move_one-Kept fs fs (Kept-refl fs) (fs.o_list.list 0) 0) moved (ground arith)))
  ]

  pub repack-IsStored : IsStored fs → IsStored (repack fs)
  unfolding repack
  repack-IsStored s = go (repack_helper fs).0 (repack_helper-IsStored s)
    where
      go :
          (h : ℤ)
          → IsStored (repack_helper fs).1
          → IsStored (elim h [
            | negsuc _ ↦ (repack_helper fs).1
            | pos start ↦
                compute_hash_block_range start
                  (sub64 (repack_helper fs).1.used start)
                  (repack_helper fs).1
          ])
      go (negsuc n) t = t
      go (pos start) t =
          rw
            (compute_hash_block_range-frame start (sub64 (repack_helper fs).1.used start)
              (repack_helper fs).1)
            (record { entries = t.entries; empties = t.empties })
