-- ===== src/Arr/Lookup.antt =====
-- Lookup and sorted insertion in the array by name.
use native.Mathlib.Decide.{dec_lt}
use virtual_file_system.Common.{
  ℕ, ◌<◌, ◌≡◌, ◌≢◌, refl, sym, ◌∙◌, inl, inr, Ordering, Bool-cases, true, false, ltb, Option, none,
  some, [], ◌∷◌, take, ok, arith,
}
use virtual_file_system.Structs.{CString, FileEntry, Ptr, Heap, Arr}
use virtual_file_system.Memory.Order.{strncmp-eq_of_take, take_of_strncmp-eq}
use virtual_file_system.Arr.{arr_get, arr_get_by_key, is_empty_name}
use virtual_file_system.Arr.Names.{
  name_at, IsNameSorted, Hit, Miss, compare_at, located, arr_get_index-Hit, arr_get_index-Miss,
}

-- What a lookup of a name answers: an element with the first 63 bytes of the name, or `none`
-- if there is no such element.
abbrev pub Answers : Arr → Heap → CString → Option Ptr → Type 0
Answers a h name none = (i : ℕ) → i < a.size → take 63 (name_at a h i) ≢ take 63 name
Answers a h name (some p) =
    (i : ℕ) × (i < a.size) × (a.list i ≡ p) × (take 63 (name_at a h i) ≡ take 63 name)

pub take-ne_nil : (s : CString) → s ≢ [] → take 63 s ≢ []
take-ne_nil [] h e = h refl
take-ne_nil (x ∷ s) h e = cc

take-empty : (s : CString) → is_empty_name s ≡ true → take 63 s ≡ []
take-empty [] e = refl
take-empty (x ∷ s) e = cc

module _ (a : Arr) (h : Heap) (len : ℕ) (sorted : IsNameSorted a h) (key : FileEntry) where
  lookup_empty : is_empty_name key.name ≡ true → arr_get_by_key key a h len ≡ ok none
  unfolding arr_get_by_key
  lookup_empty e = rw sorted.type (rw e)

  lookup-Hit :
      (k : ℕ)
      → Hit (compare_at a h sorted key) a.size k
      → is_empty_name key.name ≡ false
      → arr_get_by_key key a h len ≡ ok (some (a.list k))
  unfolding arr_get_by_key arr_get
  lookup-Hit k hit e =
      let inside : ltb k a.size ≡ true = ground (arith, hit.inside) in
      rw (arr_get_index-Hit a h sorted key false k hit) (rw inside (rw sorted.type (rw e)))

  lookup-Miss :
      (k : ℕ) → Miss (compare_at a h sorted key) a.size k → arr_get_by_key key a h len ≡ ok none
  unfolding arr_get_by_key
  lookup-Miss k miss =
      rw (arr_get_index-Miss a h sorted key false k miss) (rw sorted.type (ground arith))

  Miss-Answers : (k : ℕ) → Miss (compare_at a h sorted key) a.size k → Answers a h key.name none
  Miss-Answers k miss i q e =
      let same : compare_at a h sorted key i ≡ Ordering.eq =
        strncmp-eq_of_take 63 key.name (name_at a h i) (sym e) in
      elim (dec_lt i k) [ yes p ↦ cc (miss.below i p) | no p ↦ cc (miss.above i (omega arith) q) ]

  -- In an array sorted by name, `arr_get_by_key` never aborts and its binary search ends: it
  -- returns an element whose name has the first 63 bytes of the key's, or NULL if no element has.
  pub arr_get_by_key-Answers :
      (r : Option Ptr) × (arr_get_by_key key a h len ≡ ok r) × Answers a h key.name r
  arr_get_by_key-Answers = elim (located a h sorted key) [
    | inr (k, miss) ↦ (none, lookup-Miss k miss, Miss-Answers k miss)
    | inl (k, hit) ↦ elim (Bool-cases (is_empty_name key.name)) [
      | inl e ↦ (
        none,
        lookup_empty e,
        λ i q same.
            take-ne_nil (name_at a h i) (sorted.nonempty i q) (same ∙ take-empty key.name e),
      )
      | inr e ↦ (
        some (a.list k),
        lookup-Hit k hit e,
        (k, hit.inside, refl, sym (take_of_strncmp-eq 63 key.name (name_at a h k) hit.at)),
      )
    ]
  ]
