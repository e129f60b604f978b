-- ===== src/Arr/Offsets.antt =====
-- Insertion into the array by offset.
use native.Mathlib.Decide.{ℕ_discrete}
use virtual_file_system.Common.{
  ℕ, ◌-◌, ◌≤◌, ◌<◌, ◌≡◌, ◌≢◌, refl, Ordering, true, false, ltb, ◌==◌, pos, ok, arith,
}
use virtual_file_system.Structs.{by_offset, Ptr, Heap, Arr}
use virtual_file_system.Arr.{cmp_key, arr_get_index, arr_sorted_insert}
use virtual_file_system.Arr.Search.{search_loop-miss}
use virtual_file_system.Arr.Insert.{IsIndexed, Inserted, arr_insert-Inserted}

module _ (k : ℕ) (file : Ptr) (a : Arr) (h : Heap) (type : a.type ≡ by_offset)
    (some_bytes : 0 < (h.cell file).length) (inside : k ≤ a.size)
    (before : (j : ℕ) → j < k → (h.cell (a.list j)).offset < (h.cell file).offset)
    (behind : (j : ℕ)
      → k ≤ j
      → j < a.size
      → (h.cell file).offset < (h.cell (a.list j)).offset) where
  compare_before :
      (j : ℕ) → j < k → cmp_key (h.cell file) (h.cell (a.list j)) by_offset ≡ Ordering.gt
  unfolding cmp_key
  compare_before j q = ground (arith, before j q)

  compare_behind :
      (j : ℕ)
      → k ≤ j
      → j < a.size
      → cmp_key (h.cell file) (h.cell (a.list j)) by_offset ≡ Ordering.lt
  unfolding cmp_key
  compare_behind j q r = ground (arith, behind j q r)

  arr_get_index-between : arr_get_index (h.cell file) a h true ≡ ok (pos k)
  unfolding arr_get_index
  arr_get_index-between = elim (ℕ_discrete a.size 0) [
    | yes e ↦ (let here : k ≡ 0 = omega arith in rw e (rw here refl))
    | no ne ↦
        (let t : (a.size == 0) ≡ false = ground arith in
          let t' : ((h.cell file).length == 0) ≡ false = ground arith in
          rw t (
            rw type (
              rw t' (
                search_loop-miss (λ m. cmp_key (h.cell file) (h.cell (a.list m)) by_offset) true
                  a.size 0 (a.size - 1) k (omega arith) (omega arith) (omega arith) (omega arith)
                  compare_before (λ m q r. compare_behind m q (omega arith))))))
  ]

  -- A file with bytes whose offset is above those before slot `k` and below the others is inserted
  -- into slot `k` of the array by offset.
  pub arr_sorted_insert-between :
      IsIndexed a h
      → a.size < a.capacity
      → ((j : ℕ) → j < a.size → file ≢ a.list j)
      → (r : Arr × Heap) × (arr_sorted_insert file a h ≡ ok (pos k, r.0, r.1))
        × Inserted k file a h r
  unfolding arr_sorted_insert
  arr_sorted_insert-between indexed room absent =
      let (r, e, ins) = arr_insert-Inserted k file a h indexed inside room absent in
      let t : ltb a.size a.capacity ≡ true = ground arith in
      (r, rw t (rw arr_get_index-between (rw e refl)), ins)
