-- ===== src/Arr/Insert.antt =====
-- `arr_insert` puts an element between those before and behind an index, and keeps the positions.
use native.Mathlib.Decide.{dec_lt}
use virtual_file_system.Common.{
  pos_injective, ℕ, ◌+◌, ◌-◌, ◌≤◌, ◌<◌, ◌≡◌, ◌≢◌, sym, ◌∙◌, true, false, ltb, leb, if◌then◌else◌,
  update, pos, ok, arith,
}
use virtual_file_system.Structs.{FileEntry, Ptr, Heap, Arr, store}
use virtual_file_system.Arr.{position, set_position, rshift_loop, arr_rshift, arr_insert}
use virtual_file_system.Arr.Shift.{
  store-SameBut, SameBut, Indexed, ShiftedUp, rshift_loop-ShiftedUp, update_self, update_ne,
  position-set_position,
}

-- Each element of the array holds its own index.
abbrev pub IsIndexed : Arr → Heap → Type 0
IsIndexed a h = Indexed 0 a.size a.type a.list h

-- So no element stands twice in it.
pub list-injective :
    (a : Arr) (h : Heap)
    → IsIndexed a h
    → (i j : ℕ) → i < a.size
    → j < a.size
    → a.list i ≡ a.list j
    → i ≡ j
list-injective a h at i j p q e =
    pos_injective (sym (at i (omega arith) (omega arith)) ∙ rw e (at j (omega arith) (omega arith)))

-- `file` has been inserted at `index`.
pub record Inserted (index : ℕ) (file : Ptr) (a : Arr) (h : Heap) (r : Arr × Heap) : Type 0 where
  pub inside : index ≤ a.size
  pub size : r.0.size ≡ a.size + 1
  pub capacity : r.0.capacity ≡ a.capacity
  pub type : r.0.type ≡ a.type
  pub before : (j : ℕ) → j < index → r.0.list j ≡ a.list j
  pub at : r.0.list index ≡ file
  pub behind : (j : ℕ) → index ≤ j → j < a.size → r.0.list (j + 1) ≡ a.list j
  pub indexed : IsIndexed r.0 r.1
  pub same : (q : Ptr) → SameBut a.type (r.1.cell q) (h.cell q)
  pub live : r.1.live ≡ h.live
  pub next : r.1.next ≡ h.next

module _ (index : ℕ) (file : Ptr) (a : Arr) (h : Heap) where
  -- The state after the elements from `index` on have moved.
  abbrev shifted : Arr × Heap
  shifted = rshift_loop (a.size - index) index a h

  -- The last two assignments.
  abbrev placed : Arr × Heap → Arr × Heap
  placed r = (
    record (r.0) { list = update r.0.list index file; size = r.0.size + 1 },
    store file (set_position a.type (pos index) (r.1.cell file)) r.1,
  )

  arr_rshift-shifted :
      (if ltb index a.size then arr_rshift index (a.size - 1) a h else (a, h)) ≡ shifted
  unfolding arr_rshift rshift_loop
  arr_rshift-shifted = elim (dec_lt index a.size) [
    | yes p ↦
        (let test : ltb index a.size ≡ true = ground arith in
          let count : a.size - 1 + 1 - index ≡ a.size - index = omega arith in rw test (rw count))
    | no p ↦
        (let test : ltb index a.size ≡ false = ground arith in
          let count : a.size - index ≡ 0 = omega arith in rw test (rw (count, rshift_loop)))
  ]

  arr_insert-placed :
      index ≤ a.size → a.size < a.capacity → arr_insert index file a h ≡ ok (placed shifted)
  unfolding arr_insert
  arr_insert-placed p q =
      let fits : leb index a.size ≡ true = ground arith in
      let room : ltb a.size a.capacity ≡ true = ground arith in
      rw fits (rw room (rw arr_rshift-shifted))

  module _ (indexed : IsIndexed a h) (inside : index ≤ a.size)
      (absent : (j : ℕ) → j < a.size → file ≢ a.list j) where
    moved_up : ShiftedUp (a.size - index) index a h shifted
    moved_up =
        rshift_loop-ShiftedUp (a.size - index) index a h
          (λ j q r. indexed j (omega arith) (omega arith))

    abbrev entry : FileEntry
    entry = set_position a.type (pos index) (shifted.1.cell file)

    position-kept :
        (j : ℕ)
        → j < a.size
        → (i : ℕ) → position a.type (shifted.1.cell (a.list j)) ≡ pos i
        → position a.type (update shifted.1.cell file entry (a.list j)) ≡ pos i
    position-kept j q i e =
        rw (update_ne shifted.1.cell file (a.list j) entry (λ e'. absent j q (sym e'))) e

    Indexed-placed : IsIndexed (placed shifted).0 (placed shifted).1
    Indexed-placed j q r = rw moved_up.type (elim (dec_lt j index) [
      | yes p ↦
          rw (update_ne shifted.0.list index j file (omega arith), moved_up.low j (omega arith))
            (position-kept j (omega arith) j (
              rw
                (moved_up.others (a.list j) (λ i s t e.
                  absurd
                    (omega (arith, list-injective a h indexed j i (omega arith) (omega arith) e))))
                (indexed j q (omega arith))))
      | no p ↦ elim (dec_lt index j) [
        | yes later ↦
            (let i : ℕ = j - 1 in
              let e : j ≡ i + 1 = omega arith in
              let old : i < a.size = omega (arith, moved_up.size) in
              rw e (
                rw
                  (
                    update_ne shifted.0.list index (i + 1) file (omega arith),
                    moved_up.moved i (omega arith) (omega arith),
                  )
                  (position-kept i old (i + 1) (moved_up.positions i (omega arith) (omega arith)))))
        | no now ↦
            (let e : j ≡ index = omega arith in
              rw e (
                rw (update_self shifted.0.list index file) (
                  rw (update_self shifted.1.cell file entry)
                    (position-set_position a.type (pos index) (shifted.1.cell file)))))
      ]
    ])

    placed-Inserted : Inserted index file a h (placed shifted)
    placed-Inserted = record {
      inside = inside;
      size = rw moved_up.size;
      capacity = moved_up.capacity;
      type = moved_up.type;
      before =
          λ j q. update_ne shifted.0.list index j file (omega arith) ∙ moved_up.low j (omega arith);
      at = update_self shifted.0.list index file;
      behind = λ j q r.
          update_ne shifted.0.list index (j + 1) file (omega arith)
          ∙ moved_up.moved j q (omega arith);
      indexed = Indexed-placed;
      same = λ q. store-SameBut a shifted.1 file 0 0 (pos index) q ∙ moved_up.same q;
      live = moved_up.live;
      next = moved_up.next;
    }

-- In an array that is not full, where each element holds its own index, `arr_insert` of an element
-- that is not in it neither aborts nor loses an element: the new one stands at the index, those
-- before keep their slots, those behind move up by one, every element again holds its own index,
-- and no field of a struct changes but its position in this array.
pub arr_insert-Inserted :
    (index : ℕ) (file : Ptr) (a : Arr) (h : Heap)
    → IsIndexed a h
    → index ≤ a.size
    → a.size < a.capacity
    → ((j : ℕ) → j < a.size → file ≢ a.list j)
    → (r : Arr × Heap) × (arr_insert index file a h ≡ ok r) × Inserted index file a h r
arr_insert-Inserted index file a h indexed inside room absent = (
  placed index file a h (shifted index file a h),
  arr_insert-placed index file a h inside room,
  placed-Inserted index file a h indexed inside absent,
)
