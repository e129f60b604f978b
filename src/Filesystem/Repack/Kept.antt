-- ===== src/Filesystem/Repack/Kept.antt =====
-- What `repack_helper` leaves as it is: all but file_data, dir_table and the offsets of files.
use native.Mathlib.Decide.{ℕ_discrete}
use virtual_file_system.Common.{
  is_nonpositive64, ℕ, zero, suc, ◌+◌, ◌-◌, ◌≡◌, refl, ap, ◌∙◌, inl, inr, Bool-cases, ltb, leb,
  ◌==◌, ◌||◌, ◌%◌, ◌^◌, ℤ,
}
use virtual_file_system.Arr.{position}
use virtual_file_system.Structs.{
  ArrType, by_offset, by_name, FileEntry, Ptr, Arr, Filesys, max_file_data_len,
}
use virtual_file_system.Helper.{update_file_offset}
use virtual_file_system.Arr.Shift.{update_self, update_ne}
use virtual_file_system.Arr.Insert.{IsIndexed}
use virtual_file_system.Arr.Frame.{IsNameSorted-names}
use virtual_file_system.Filesystem.Catalog.{IsCatalog}
use virtual_file_system.Filesystem.Repack.{repack_move, repack_loop, repack_helper}
use virtual_file_system.Filesystem.Repack.Rounds.{
  round, round_hash, end_before, repack_loop-stop, repack_loop-next,
}
use virtual_file_system.Filesystem.Repack.Moves.{move_one}

-- From `fs` to `fs'`, nothing but file_data, dir_table and the offsets of files has changed.
pub record Kept (fs fs' : Filesys) : Type 0 where
  pub rest : fs' ≡ record fs { file = fs'.file; dir = fs'.dir; heap = fs'.heap }
  pub live : fs'.heap.live ≡ fs.heap.live
  pub next : fs'.heap.next ≡ fs.heap.next
  pub cells :
      (q : Ptr) → fs'.heap.cell q ≡ record (fs.heap.cell q) { offset = (fs'.heap.cell q).offset }

pub Kept-refl : (fs : Filesys) → Kept fs fs
Kept-refl fs = record { rest = refl; live = refl; next = refl; cells = λ q. refl }

position-offset :
    (type : ArrType) (offset : ℕ) (f : FileEntry)
    → position type (record f { offset = offset }) ≡ position type f
position-offset by_offset offset f = refl
position-offset by_name offset f = refl

module _ (fs fs' : Filesys) (k : Kept fs fs') where
  repack_move-Kept : (p : Ptr) (e : ℕ) → Kept fs (repack_move p e fs')
  unfolding repack_move update_file_offset
  repack_move-Kept p e = record {
    rest =
        ap
          (λ (z : Filesys). record z {
            file = (repack_move p e fs').file;
            dir = (repack_move p e fs').dir;
            heap = (repack_move p e fs').heap;
          })
          k.rest;
    live = k.live;
    next = k.next;
    cells = λ q. elim (ℕ_discrete q p) [
      | yes here ↦ rw here (
          rw (update_self fs'.heap.cell p (update_file_offset (e % 2 ^ 32) (fs'.heap.cell p)))
            (ap (λ (z : FileEntry). record z { offset = e % 2 ^ 32 }) (k.cells p)))
      | no ne ↦
          rw (update_ne fs'.heap.cell p q (update_file_offset (e % 2 ^ 32) (fs'.heap.cell p)) ne)
            (k.cells q)
    ];
  }

  pub move_one-Kept : (p : Ptr) (e : ℕ) → Kept fs (move_one p e fs')
  move_one-Kept p e = elim (Bool-cases (ltb e (fs'.heap.cell p).offset)) [
    | inl t ↦ rw t (repack_move-Kept p e)
    | inr t ↦ rw t k
  ]

  names-same : (q : Ptr) → (fs'.heap.cell q).name ≡ (fs.heap.cell q).name
  names-same q = ap (λ (z : FileEntry). z.name) (k.cells q)

  IsIndexed-Kept : (a : Arr) → IsIndexed a fs.heap → IsIndexed a fs'.heap
  IsIndexed-Kept a v i p q =
      rw (k.cells (a.list i)) (
        position-offset a.type (fs'.heap.cell (a.list i)).offset (fs.heap.cell (a.list i))
        ∙ v i p q)

  pub IsCatalog-Kept : IsCatalog fs → IsCatalog fs'
  IsCatalog-Kept v =
      let n_same : fs'.n_list ≡ fs.n_list = ap (λ (z : Filesys). z.n_list) k.rest in
      let o_same : fs'.o_list ≡ fs.o_list = ap (λ (z : Filesys). z.o_list) k.rest in
      let len_same : fs'.index_len ≡ fs.index_len = ap (λ (z : Filesys). z.index_len) k.rest in
      let count_same : fs'.index_count ≡ fs.index_count =
        ap (λ (z : Filesys). z.index_count) k.rest in
      record {
        sorted = rw n_same (
            IsNameSorted-names fs.n_list fs.heap fs'.heap (λ i q. names-same (fs.n_list.list i))
              v.sorted);
        n_indexed = rw n_same (IsIndexed-Kept fs.n_list v.n_indexed);
        o_type = rw o_same v.o_type;
        o_indexed = rw o_same (IsIndexed-Kept fs.o_list v.o_indexed);
        paired = rw (n_same, o_same) v.paired;
        sizes = rw (n_same, o_same) v.sizes;
        n_capacity = rw (n_same, len_same) v.n_capacity;
        o_capacity = rw (o_same, len_same) v.o_capacity;
        counted = rw (n_same, count_same) v.counted;
        limit = rw len_same v.limit;
        slot = λ q m. rw (k.cells q, len_same) (v.slot q (rw n_same at m));
        short = λ q m. rw (names-same q) (v.short q (rw n_same at m));
        allocated = λ q m. rw k.live (v.allocated q (rw n_same at m));
        below_next = λ q m. rw k.next (v.below_next q (rw n_same at m));
      }

repack_loop-Kept :
    (fs : Filesys) (k i : ℕ) (hash_offset : ℤ) (fs' : Filesys)
    → Kept fs fs'
    → Kept fs (repack_loop k i hash_offset fs').1
unfolding repack_loop
repack_loop-Kept fs zero i hash_offset fs' kept = kept
repack_loop-Kept fs (suc k) i hash_offset fs' kept =
    elim (Bool-cases (leb max_file_data_len (fs'.heap.cell (fs'.o_list.list i)).offset)) [
      | inl t ↦ rw (repack_loop-stop k i hash_offset fs' t) kept
      | inr t ↦ rw (repack_loop-next k i hash_offset fs' t) (
          repack_loop-Kept fs k (i + 1) (round_hash i hash_offset fs') (round i fs')
            (move_one-Kept fs fs' kept (fs'.o_list.list i) (end_before i fs')))
    ]

pub repack_helper-Kept : (fs : Filesys) → Kept fs (repack_helper fs).1
unfolding repack_helper
repack_helper-Kept fs = elim (Bool-cases (is_nonpositive64 fs.used || fs.o_list.size == 0)) [
  | inl t ↦ rw t (Kept-refl fs)
  | inr t ↦ rw t (
      repack_loop-Kept fs (fs.o_list.size - 1) 1 _ (move_one (fs.o_list.list 0) 0 fs)
        (move_one-Kept fs fs (Kept-refl fs) (fs.o_list.list 0) 0))
]
