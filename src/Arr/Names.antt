-- ===== src/Arr/Names.antt =====
-- The array sorted by name: `arr_get_by_key` finds an entry exactly if one has the name.
use native.Mathlib.Decide.{dec_lt, ℕ_discrete}
use virtual_file_system.Common.{
  ℕ, zero, suc, ◌-◌, ◌≤◌, ◌<◌, ◌≡◌, ◌≢◌, ◌∙◌, ◌⊎◌, inl, inr, Ordering, Bool, true, false, ◌==◌,
  if◌then◌else◌, [], pos, minus_one, ok, arith,
}
use virtual_file_system.Structs.{CString, by_name, FileEntry, Heap, Arr}
use virtual_file_system.Memory.{strncmp}
use virtual_file_system.Memory.Order.{strncmp_trans, strncmp-lt_of_eq}
use virtual_file_system.Arr.{cmp_key, arr_get, arr_get_index, arr_get_by_key, is_empty_name}
use virtual_file_system.Arr.Search.{Ordering-cases, search_loop-miss, search_loop-hit}

-- The name of the element in a slot.
abbrev pub name_at : Arr → Heap → ℕ → CString
name_at a h i = (h.cell (a.list i)).name

-- The names of the elements rise strictly, and are not empty.
pub record IsNameSorted (a : Arr) (h : Heap) : Type 0 where
  pub type : a.type ≡ by_name
  pub rises :
      (i j : ℕ) → i < j → j < a.size → strncmp 63 (name_at a h i) (name_at a h j) ≡ Ordering.lt
  pub nonempty : (i : ℕ) → i < a.size → name_at a h i ≢ []

-- Where a key lies in a sorted array of `n` elements: at an element, or between two.
pub record Hit (cmp : ℕ → Ordering) (n k : ℕ) : Type 0 where
  pub inside : k < n
  pub below : (m : ℕ) → m < k → cmp m ≡ Ordering.gt
  pub at : cmp k ≡ Ordering.eq
  pub above : (m : ℕ) → k < m → m < n → cmp m ≡ Ordering.lt

pub record Miss (cmp : ℕ → Ordering) (n k : ℕ) : Type 0 where
  pub inside : k ≤ n
  pub below : (m : ℕ) → m < k → cmp m ≡ Ordering.gt
  pub above : (m : ℕ) → k ≤ m → m < n → cmp m ≡ Ordering.lt

abbrev pub Located : (ℕ → Ordering) → ℕ → Type 0
Located cmp n = ((k : ℕ) × Hit cmp n k) ⊎ ((k : ℕ) × Miss cmp n k)

module _ (cmp : ℕ → Ordering) (n : ℕ) where
  below_next : {o : Ordering} (m : ℕ) → m < suc n → (m < n → cmp m ≡ o) → cmp n ≡ o → cmp m ≡ o
  below_next m q early last = elim (dec_lt m n) [
    | yes p ↦ early p
    | no p ↦ (let e : m ≡ n = omega arith in rw e last)
  ]

  Hit-suc : (k : ℕ) → Hit cmp n k → cmp n ≡ Ordering.lt → Hit cmp (suc n) k
  Hit-suc k hit e = record {
    inside = omega arith;
    below = hit.below;
    at = hit.at;
    above = λ m p q. below_next m q (hit.above m p) e;
  }

  Miss-suc : (k : ℕ) → Miss cmp n k → cmp n ≡ Ordering.lt → Miss cmp (suc n) k
  Miss-suc k miss e = record {
    inside = omega arith;
    below = miss.below;
    above = λ m p q. below_next m q (miss.above m p) e;
  }

  -- All elements so far are below the key: it is settled by the next one.
  Located-last : Miss cmp n n → Located cmp (suc n)
  Located-last miss = elim (Ordering-cases (cmp n)) [
    | inl e ↦ inr (n, Miss-suc n miss e)
    | inr (inl e) ↦ inl (
      n,
      record {
        inside = omega arith;
        below = miss.below;
        at = e;
        above = λ m p q. absurd (omega arith);
      },
    )
    | inr (inr e) ↦ inr (
      suc n,
      record {
        inside = omega arith;
        below = λ m q. below_next m q (miss.below m) e;
        above = λ m p q. absurd (omega arith);
      },
    )
  ]

pub locate :
    (cmp : ℕ → Ordering) (n : ℕ)
    → ((i j : ℕ) → i < j → j < n → cmp i ≢ Ordering.gt → cmp j ≡ Ordering.lt)
    → Located cmp n
locate cmp zero up = inr (
  0,
  record {
    inside = omega arith;
    below = λ m q. absurd (omega arith);
    above = λ m p q. absurd (omega arith);
  },
)
locate cmp (suc n) up = extend (locate cmp n (λ i j p q. up i j p (omega arith)))
  where
    extend : Located cmp n → Located cmp (suc n)
    extend (inl (k, hit)) =
        inl (k, Hit-suc cmp n k hit (up k n hit.inside (omega arith) (λ e. cc hit.at)))
    extend (inr (k, miss)) = elim (dec_lt k n) [
      | yes p ↦ inr (
        k,
        Miss-suc cmp n k miss (up k n p (omega arith) (λ e. cc (miss.above k (omega arith) p))),
      )
      | no p ↦ (let e : k ≡ n = omega arith in Located-last cmp n (rw e at miss))
    ]

module _ (a : Arr) (h : Heap) (sorted : IsNameSorted a h) (key : FileEntry) where
  -- The comparison of the key with an element.
  abbrev pub compare_at : ℕ → Ordering
  compare_at m = strncmp 63 key.name (name_at a h m)

  compare_at-up :
      (i j : ℕ) → i < j → j < a.size → compare_at i ≢ Ordering.gt → compare_at j ≡ Ordering.lt
  compare_at-up i j p q ne = elim (Ordering-cases (compare_at i)) [
    | inl e ↦ strncmp_trans 63 key.name (name_at a h i) (name_at a h j) e (sorted.rises i j p q)
    | inr (inl e) ↦
        strncmp-lt_of_eq 63 key.name (name_at a h i) (name_at a h j) e (sorted.rises i j p q)
    | inr (inr e) ↦ absurd (ne e)
  ]

  pub located : Located compare_at a.size
  located = locate compare_at a.size compare_at-up

  arr_get_index-search :
      (insert : Bool)
      → 0 < a.size
      → arr_get_index key a h insert
        ≡ virtual_file_system.Arr.search_loop a.size compare_at insert 0 (a.size - 1)
  unfolding arr_get_index cmp_key
  arr_get_index-search insert p =
      let test : (a.size == 0) ≡ false = ground arith in rw test (rw sorted.type (ground arith))

  pub arr_get_index-Hit :
      (insert : Bool) (k : ℕ)
      → Hit compare_at a.size k
      → arr_get_index key a h insert ≡ ok (if insert then minus_one else pos k)
  arr_get_index-Hit insert k hit =
      arr_get_index-search insert (omega arith)
      ∙ search_loop-hit compare_at insert a.size 0 (a.size - 1) k (omega arith) (omega arith)
          (omega arith) hit.below hit.at (λ m p q. hit.above m p (omega arith))

  pub arr_get_index-Miss :
      (insert : Bool) (k : ℕ)
      → Miss compare_at a.size k
      → arr_get_index key a h insert ≡ ok (if insert then pos k else minus_one)
  unfolding arr_get_index
  arr_get_index-Miss insert k miss = elim (ℕ_discrete a.size 0) [
    | yes e ↦
        (let test : (a.size == 0) ≡ true = ground arith in
          let here : k ≡ 0 = omega arith in rw test (rw here))
    | no ne ↦
        arr_get_index-search insert (omega arith)
        ∙ search_loop-miss compare_at insert a.size 0 (a.size - 1) k (omega arith) (omega arith)
            (omega arith) (omega arith) miss.below (λ m p q. miss.above m p (omega arith))
  ]
