-- ===== src/Arr/Member.antt =====
-- Which elements an array holds, before and after an insertion or a removal.
use native.Mathlib.Decide.{dec_lt, ℕ_discrete}
use virtual_file_system.Common.{
  ℕ, ◌+◌, ◌-◌, ◌≤◌, ◌<◌, ◌≡◌, ◌≢◌, sym, ap, ◌∙◌, ◌⊎◌, inl, inr, ◌↔◌, pos, arith,
}
use virtual_file_system.Structs.{by_offset, by_name, FileEntry, Ptr, Heap, Arr}
use virtual_file_system.Arr.{position}
use virtual_file_system.Arr.Shift.{SameBut}
use virtual_file_system.Arr.Insert.{IsIndexed, Inserted, list-injective}
use virtual_file_system.Arr.Remove.{Removed}

-- The array holds the element.
abbrev pub Member : Arr → Ptr → Type 0
Member a q = (i : ℕ) × (i < a.size) × (a.list i ≡ q)

-- A member stands at the index that its position names.
pub Member-position :
    (a : Arr) (h : Heap) (q : Ptr)
    → IsIndexed a h
    → Member a q
    → (i : ℕ) × (i < a.size) × (a.list i ≡ q) × (position a.type (h.cell q) ≡ pos i)
Member-position a h q indexed (i, p, e) =
    (i, p, e, rw (sym e) (indexed i (omega arith) (omega arith)))

module _ (index : ℕ) (a : Arr) (h : Heap) (inside : index < a.size) (indexed : IsIndexed a h)
    (r : Ptr × Arr × Heap) (rem : Removed index a h r) where
  Member-of_removed : (q : Ptr) → Member r.1 q → Member a q × (q ≢ a.list index)
  Member-of_removed q (i, p, e) =
      let bound : i + 1 < a.size = omega (arith, rem.size) in
      elim (dec_lt i index) [
        | yes low ↦ (
          (i, omega arith, sym (rem.before i low) ∙ e),
          λ e'. absurd (
              omega (
                arith,
                list-injective a h indexed i index (omega arith) inside
                    (sym (rem.before i low) ∙ (e ∙ e')),
              )),
        )
        | no high ↦ (
          (i + 1, bound, sym (rem.behind i (omega arith) bound) ∙ e),
          λ e'. absurd (
              omega (
                arith,
                list-injective a h indexed (i + 1) index bound inside
                    (sym (rem.behind i (omega arith) bound) ∙ (e ∙ e')),
              )),
        )
      ]

  Member-removed_of_ne : (q : Ptr) → Member a q → q ≢ a.list index → Member r.1 q
  Member-removed_of_ne q (i, p, e) ne = elim (dec_lt i index) [
    | yes low ↦ (i, omega (arith, rem.size), rem.before i low ∙ e)
    | no high ↦
        (let other : i ≢ index = λ e'. ne (sym e ∙ ap a.list e') in
          let i' : ℕ = i - 1 in
          let back : i' + 1 ≡ i = omega arith in
          (
            i',
            omega (arith, rem.size),
            rem.behind i' (omega arith) (omega arith) ∙ (ap a.list back ∙ e),
          ))
  ]

  -- After a removal the array holds the same elements but the removed one.
  pub Member-removed : (q : Ptr) → Member r.1 q ↔ (Member a q × (q ≢ a.list index))
  Member-removed q = (Member-of_removed q, λ m. Member-removed_of_ne q m.0 m.1)

module _ (k : ℕ) (file : Ptr) (a : Arr) (h : Heap) (inside : k ≤ a.size) (r : Arr × Heap)
    (ins : Inserted k file a h r) where
  Member-of_inserted : (q : Ptr) → Member r.0 q → Member a q ⊎ (q ≡ file)
  Member-of_inserted q (i, p, e) =
      let bound : i < a.size + 1 = omega (arith, ins.size) in
      elim (dec_lt i k) [
        | yes low ↦ inl (i, omega arith, sym (ins.before i low) ∙ e)
        | no high ↦ elim (ℕ_discrete i k) [
          | yes here ↦ inr (sym e ∙ (ap r.0.list here ∙ ins.at))
          | no later ↦
              (let i' : ℕ = i - 1 in
                let back : i' + 1 ≡ i = omega arith in
                inl (
                  i',
                  omega arith,
                  sym (ins.behind i' (omega arith) (omega arith)) ∙ (ap r.0.list back ∙ e),
                ))
        ]
      ]

  Member-inserted_old : (q : Ptr) → Member a q → Member r.0 q
  Member-inserted_old q (i, p, e) = elim (dec_lt i k) [
    | yes low ↦ (i, omega (arith, ins.size), ins.before i low ∙ e)
    | no high ↦ (i + 1, omega (arith, ins.size), ins.behind i (omega arith) p ∙ e)
  ]

  -- After an insertion the array holds the same elements and the new one.
  pub Member-inserted : (q : Ptr) → Member r.0 q ↔ (Member a q ⊎ (q ≡ file))
  Member-inserted q = (
    Member-of_inserted q,
    elim [ inl m ↦ Member-inserted_old q m | inr e ↦ (k, omega (arith, ins.size), ins.at ∙ sym e) ],
  )

-- The position in one array does not depend on the other's.
pub position-SameBut_name :
    (f g : FileEntry) → SameBut by_offset f g → position by_name f ≡ position by_name g
position-SameBut_name f g e = ap (λ (x : FileEntry). x.n_index) e

pub position-SameBut_offset :
    (f g : FileEntry) → SameBut by_name f g → position by_offset f ≡ position by_offset g
position-SameBut_offset f g e = ap (λ (x : FileEntry). x.o_index) e
