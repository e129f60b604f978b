-- ===== src/Arr/Sorted.antt =====
-- Sorted insertion into the array by name, and removal from it, keep it sorted.
use mathlib.Core.Logic.{ite, if_pos, if_neg}
use native.Mathlib.Decide.{dec_lt, ℕ_discrete}
use virtual_file_system.Common.{
  ℕ, ◌+◌, ◌-◌, ◌≤◌, ◌<◌, ◌≡◌, ◌≢◌, sym, ap, ◌∙◌, inl, inr, Ordering, true, ltb, none, [], pos, ok,
  arith,
}
use virtual_file_system.Structs.{ArrType, by_name, by_offset, FileEntry, Ptr, Heap, Arr}
use virtual_file_system.Memory.{strncmp}
use virtual_file_system.Memory.Order.{take_of_strncmp-eq, strncmp-lt_of_gt}
use virtual_file_system.Arr.{arr_sorted_insert, arr_remove}
use virtual_file_system.Arr.Shift.{SameBut}
use virtual_file_system.Arr.Insert.{IsIndexed, Inserted, arr_insert-Inserted}
use virtual_file_system.Arr.Remove.{Removed, arr_remove-Removed}
use virtual_file_system.Arr.Names.{
  name_at, IsNameSorted, Miss, compare_at, located, arr_get_index-Miss,
}
use virtual_file_system.Arr.Lookup.{Answers}

pub name-SameBut : (type : ArrType) (f g : FileEntry) → SameBut type f g → f.name ≡ g.name
name-SameBut by_offset f g e = ap (λ (x : FileEntry). x.name) e
name-SameBut by_name f g e = ap (λ (x : FileEntry). x.name) e

-- A name that stands in another slot after a change.
name-moved :
    (a a' : Arr) (h h' : Heap) (i j : ℕ)
    → ((q : Ptr) → SameBut a.type (h'.cell q) (h.cell q))
    → a'.list j ≡ a.list i
    → name_at a' h' j ≡ name_at a h i
name-moved a a' h h' i j same e =
    ap (λ q. (h'.cell q).name) e
    ∙ name-SameBut a.type (h'.cell (a.list i)) (h.cell (a.list i)) (same (a.list i))

module _ (k : ℕ) (file : Ptr) (a : Arr) (h : Heap) (r : Arr × Heap) where
  module _ (sorted : IsNameSorted a h) (miss : Miss (compare_at a h sorted (h.cell file)) a.size k)
      (ins : Inserted k file a h r) where
    name_before : (i : ℕ) → i < k → name_at r.0 r.1 i ≡ name_at a h i
    name_before i q = name-moved a r.0 h r.1 i i ins.same (ins.before i q)

    name_behind : (i : ℕ) → k ≤ i → i < a.size → name_at r.0 r.1 (i + 1) ≡ name_at a h i
    name_behind i p q = name-moved a r.0 h r.1 i (i + 1) ins.same (ins.behind i p q)

    name_new : name_at r.0 r.1 k ≡ (h.cell file).name
    name_new =
        ap (λ q. (r.1.cell q).name) ins.at
        ∙ name-SameBut a.type (r.1.cell file) (h.cell file) (ins.same file)

    rises-inserted :
        (i j : ℕ)
        → i < j
        → j < r.0.size
        → strncmp 63 (name_at r.0 r.1 i) (name_at r.0 r.1 j) ≡ Ordering.lt
    rises-inserted i j p q =
        let inside : j < a.size + 1 = omega (arith, ins.size) in
        elim (dec_lt j k) [
          | yes low ↦
              rw (name_before i (omega arith), name_before j low)
                (sorted.rises i j p (omega (arith, miss.inside)))
          | no high ↦ elim (ℕ_discrete j k) [
            | yes e ↦ rw e (
                rw (name_new, name_before i (omega arith))
                  (strncmp-lt_of_gt 63 (h.cell file).name (name_at a h i)
                    (miss.below i (omega arith))))
            | no ne ↦
                (let j' : ℕ = j - 1 in
                  let ej : j ≡ j' + 1 = omega arith in
                  rw ej (
                    rw (name_behind j' (omega arith) (omega arith))
                      (rises_behind i j' (omega arith) (omega arith) (omega arith))))
          ]
        ]
      where
        rises_behind :
            (i j' : ℕ)
            → i < j' + 1
            → k ≤ j'
            → j' < a.size
            → strncmp 63 (name_at r.0 r.1 i) (name_at a h j') ≡ Ordering.lt
        rises_behind i j' p c s = elim (dec_lt i k) [
          | yes low ↦ rw (name_before i low) (sorted.rises i j' (omega arith) s)
          | no high ↦ elim (ℕ_discrete i k) [
            | yes e ↦ rw e (rw name_new (miss.above j' c s))
            | no ne ↦
                (let i' : ℕ = i - 1 in
                  let ei : i ≡ i' + 1 = omega arith in
                  rw ei (
                    rw (name_behind i' (omega arith) (omega arith))
                      (sorted.rises i' j' (omega arith) s)))
          ]
        ]

    nonempty-inserted : (h.cell file).name ≢ [] → (i : ℕ) → i < r.0.size → name_at r.0 r.1 i ≢ []
    nonempty-inserted ne i q =
        let inside : i < a.size + 1 = omega (arith, ins.size) in
        elim (dec_lt i k) [
          | yes low ↦ rw (name_before i low) (sorted.nonempty i (omega (arith, miss.inside)))
          | no high ↦ elim (ℕ_discrete i k) [
            | yes e ↦ rw e (rw name_new ne)
            | no later ↦
                (let i' : ℕ = i - 1 in
                  let e : i ≡ i' + 1 = omega arith in
                  rw e (
                    rw (name_behind i' (omega arith) (omega arith))
                      (sorted.nonempty i' (omega arith))))
          ]
        ]

    IsNameSorted-inserted : (h.cell file).name ≢ [] → IsNameSorted r.0 r.1
    IsNameSorted-inserted ne = record {
      type = ins.type ∙ sorted.type;
      rises = rises-inserted;
      nonempty = nonempty-inserted ne;
    }

-- The insertion of an element into an array sorted by name that is not full and in which each
-- element knows its position. If the element is not in the array, and its name is not empty and no
-- element's name, then the binary search ends, nothing aborts, the element is inserted, and the
-- array stays sorted.
pub arr_sorted_insert-IsNameSorted :
    (file : Ptr) (a : Arr) (h : Heap)
    → IsNameSorted a h
    → IsIndexed a h
    → a.size < a.capacity
    → ((j : ℕ) → j < a.size → file ≢ a.list j)
    → (h.cell file).name ≢ []
    → Answers a h (h.cell file).name none
    → (k : ℕ) × (r : Arr × Heap) × (arr_sorted_insert file a h ≡ ok (pos k, r.0, r.1))
      × Inserted k file a h r
      × IsNameSorted r.0 r.1
unfolding arr_sorted_insert
arr_sorted_insert-IsNameSorted file a h sorted indexed room absent ne new =
    elim (located a h sorted (h.cell file)) [
      | inl (k, hit) ↦
          absurd (
            new k hit.inside
              (sym (take_of_strncmp-eq 63 (h.cell file).name (name_at a h k) hit.at)))
      | inr (k, miss) ↦
          (let (r, e, ins) = arr_insert-Inserted k file a h indexed miss.inside room absent in
            let test : ltb a.size a.capacity ≡ true = ground arith in
            (
              k,
              r,
              rw test (rw (arr_get_index-Miss a h sorted (h.cell file) true k miss) (rw e)),
              ins,
              IsNameSorted-inserted k file a h r sorted miss ins ne,
            ))
    ]

-- The removal of an element keeps an array sorted by name.
pub IsNameSorted-Removed :
    (index : ℕ) (a : Arr) (h : Heap) (r : Ptr × Arr × Heap)
    → IsNameSorted a h
    → Removed index a h r
    → IsNameSorted r.1 r.2
IsNameSorted-Removed index a h r sorted rem = record {
  type = rem.type ∙ sorted.type;
  rises = λ i j p q.
      let inside : j + 1 < a.size = omega (arith, rem.size) in
      rw (kept i (omega arith), kept j inside)
        (sorted.rises (old i) (old j) (old-mono i j p) (old-lt j inside));
  nonempty = λ i q.
      let inside : i + 1 < a.size = omega (arith, rem.size) in
      rw (kept i inside) (sorted.nonempty (old i) (old-lt i inside));
}
  where
    old : ℕ → ℕ
    old i = ite (dec_lt i index) i (i + 1)

    old-lt : (i : ℕ) → i + 1 < a.size → old i < a.size
    old-lt i q = ground arith

    old-mono : (i j : ℕ) → i < j → old i < old j
    old-mono i j q = ground arith

    kept : (i : ℕ) → i + 1 < a.size → name_at r.1 r.2 i ≡ name_at a h (old i)
    kept i q = elim (dec_lt i index) [
      | yes p ↦
          rw (if_pos (dec_lt i index) p) (name-moved a r.1 h r.2 i i rem.same (rem.before i p))
      | no p ↦
          rw (if_neg (dec_lt i index) p)
            (name-moved a r.1 h r.2 (i + 1) i rem.same (rem.behind i (omega arith) q))
    ]

-- The removal at an index of an array that is sorted by name, and where each element holds its own
-- index, does not abort and keeps the array sorted by name.
pub arr_remove-IsNameSorted :
    (index : ℕ) (a : Arr) (h : Heap)
    → IsNameSorted a h
    → IsIndexed a h
    → index < a.size
    → (r : Ptr × Arr × Heap) × (arr_remove (pos index) a h ≡ ok r) × IsNameSorted r.1 r.2
arr_remove-IsNameSorted index a h sorted indexed inside =
    let (r, e, rem) = arr_remove-Removed index a h indexed inside in
    (r, e, IsNameSorted-Removed index a h r sorted rem)
