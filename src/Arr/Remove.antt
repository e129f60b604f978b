-- ===== src/Arr/Remove.antt =====
-- `arr_remove` closes the gap that an element leaves, and keeps the positions of the others.
use native.Mathlib.Decide.{dec_lt}
use virtual_file_system.Common.{
  ℕ, ◌+◌, ◌-◌, ◌≤◌, ◌<◌, ◌≡◌, ◌≢◌, refl, ◌∙◌, true, false, ltb, if◌then◌else◌, update, pos,
  minus_one, ok, arith,
}
use virtual_file_system.Structs.{FileEntry, Ptr, Heap, Arr, store}
use virtual_file_system.Arr.{position, set_position, lshift_loop, arr_lshift, arr_get, arr_remove}
use virtual_file_system.Arr.Shift.{
  SameBut, update_self, update_ne, position-set_position, store-SameBut,
}
use virtual_file_system.Arr.ShiftDown.{ShiftedDown, lshift_loop-ShiftedDown}
use virtual_file_system.Arr.Insert.{IsIndexed, list-injective}

-- The element at `index` has been removed.
pub record Removed (index : ℕ) (a : Arr) (h : Heap) (r : Ptr × Arr × Heap) : Type 0 where
  pub file : r.0 ≡ a.list index
  pub size : r.1.size + 1 ≡ a.size
  pub capacity : r.1.capacity ≡ a.capacity
  pub type : r.1.type ≡ a.type
  pub before : (j : ℕ) → j < index → r.1.list j ≡ a.list j
  pub behind : (j : ℕ) → index ≤ j → j + 1 < a.size → r.1.list j ≡ a.list (j + 1)
  pub indexed : IsIndexed r.1 r.2
  pub unlisted : position a.type (r.2.cell (a.list index)) ≡ minus_one
  pub same : (q : Ptr) → SameBut a.type (r.2.cell q) (h.cell q)
  pub live : r.2.live ≡ h.live
  pub next : r.2.next ≡ h.next

module _ (index : ℕ) (a : Arr) (h : Heap) (inside : index < a.size) where
  -- The state after the elements behind `index` have moved.
  abbrev shifted : Arr × Heap
  shifted = lshift_loop (a.size - (index + 1)) (index + 1) a h

  abbrev removed : Ptr × Arr × Heap
  removed = (
    a.list index,
    record (shifted.0) { size = shifted.0.size - 1 },
    store (a.list index) (set_position a.type minus_one (shifted.1.cell (a.list index))) shifted.1,
  )

  arr_lshift-shifted :
      (if ltb index (a.size - 1) then arr_lshift (index + 1) (a.size - 1) a h else (a, h)) ≡ shifted
  unfolding arr_lshift lshift_loop
  arr_lshift-shifted = elim (dec_lt index (a.size - 1)) [
    | yes p ↦
        (let test : ltb index (a.size - 1) ≡ true = ground arith in
          let count : a.size - 1 + 1 - (index + 1) ≡ a.size - (index + 1) = omega arith in
          rw test (rw count))
    | no p ↦
        (let test : ltb index (a.size - 1) ≡ false = ground arith in
          let count : a.size - (index + 1) ≡ 0 = omega arith in rw test (rw (count, lshift_loop)))
  ]

  arr_remove-removed : arr_remove (pos index) a h ≡ ok removed
  unfolding arr_remove arr_get
  arr_remove-removed =
      let fits : ltb index a.size ≡ true = ground arith in
      let some_left : ltb 0 a.size ≡ true = ground arith in
      rw fits (rw some_left (rw arr_lshift-shifted))

  module _ (indexed : IsIndexed a h) where
    moved_down : ShiftedDown (a.size - (index + 1)) index a h shifted
    moved_down =
        lshift_loop-ShiftedDown (a.size - (index + 1)) index (index + 1) a h refl
          (λ j q r. indexed j (omega arith) (omega arith))

    abbrev entry : FileEntry
    entry = set_position a.type minus_one (shifted.1.cell (a.list index))

    position-kept :
        (j i : ℕ)
        → j < a.size
        → j ≢ index
        → position a.type (shifted.1.cell (a.list j)) ≡ pos i
        → position a.type (update shifted.1.cell (a.list index) entry (a.list j)) ≡ pos i
    position-kept j i q ne e =
        rw
          (update_ne shifted.1.cell (a.list index) (a.list j) entry
            (λ e'. ne (list-injective a h indexed j index q inside e')))
          e

    Indexed-removed : IsIndexed removed.1 removed.2
    Indexed-removed j q r =
        let r' : j + 1 < a.size = omega (arith, moved_down.size) in
        rw moved_down.type (elim (dec_lt j index) [
          | yes p ↦ rw (moved_down.low j p) (
              position-kept j j (omega arith) (omega arith) (
                rw
                  (moved_down.others (a.list j) (λ i s t e. absurd (
                    omega
                      (arith, list-injective a h indexed j (i + 1) (omega arith) (omega arith) e))))
                  (indexed j q (omega arith))))
          | no p ↦ rw (moved_down.moved j (omega arith) (omega arith)) (
              position-kept (j + 1) j r' (omega arith)
                (moved_down.positions j (omega arith) (omega arith)))
        ])

    removed-Removed : Removed index a h removed
    removed-Removed = record {
      file = refl;
      size = omega (arith, moved_down.size);
      capacity = moved_down.capacity;
      type = moved_down.type;
      before = moved_down.low;
      behind = λ j q r. moved_down.moved j q (omega arith);
      indexed = Indexed-removed;
      unlisted =
          rw (update_self shifted.1.cell (a.list index) entry)
            (position-set_position a.type minus_one (shifted.1.cell (a.list index)));
      same = λ q. store-SameBut a shifted.1 (a.list index) 0 0 minus_one q ∙ moved_down.same q;
      live = moved_down.live;
      next = moved_down.next;
    }

-- In an array where each element holds its own index, `arr_remove` of an index inside does not
-- abort and returns the element there: those before keep their slots, those behind move down by
-- one, every element left again holds its own index, the removed one holds -1, and no field of a
-- struct changes but its position in this array.
pub arr_remove-Removed :
    (index : ℕ) (a : Arr) (h : Heap)
    → IsIndexed a h
    → index < a.size
    → (r : Ptr × Arr × Heap) × (arr_remove (pos index) a h ≡ ok r) × Removed index a h r
arr_remove-Removed index a h indexed inside = (
  removed index a h inside,
  arr_remove-removed index a h inside,
  removed-Removed index a h inside indexed,
)
