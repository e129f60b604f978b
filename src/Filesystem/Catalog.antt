-- ===== src/Filesystem/Catalog.antt =====
-- The invariant of the two arrays of a file system, and the lookup of a file by its name.
use native.Mathlib.Decide.{dec_lt}
use virtual_file_system.Common.{
  ℕ, ◌≤◌, ◌<◌, ◌≡◌, ◌≢◌, sym, ap, ◌∙◌, ◌↔◌, true, Option, none, some, take, ok, arith,
}
use virtual_file_system.Structs.{max_num_files, Bytes, CString, by_offset, Ptr, Filesys}
use virtual_file_system.Memory.Order.{strncmp-eq_self, take-take}
use virtual_file_system.Helper.{update_file_name}
use virtual_file_system.Arr.Names.{IsNameSorted, name_at}
use virtual_file_system.Arr.Insert.{IsIndexed}
use virtual_file_system.Arr.Member.{Member}
use virtual_file_system.Arr.Lookup.{Answers, arr_get_by_key-Answers}
use virtual_file_system.Filesystem.Create.{name_key, find_file}

-- The array by name is sorted, both arrays hold the same files, each file holds its index in
-- both, its name is cut to 63 bytes, its entry of dir_table exists and its struct is allocated.
pub record IsCatalog (fs : Filesys) : Type 0 where
  pub sorted : IsNameSorted fs.n_list fs.heap
  pub n_indexed : IsIndexed fs.n_list fs.heap
  pub o_type : fs.o_list.type ≡ by_offset
  pub o_indexed : IsIndexed fs.o_list fs.heap
  pub paired : (q : Ptr) → Member fs.n_list q ↔ Member fs.o_list q
  pub sizes : fs.o_list.size ≡ fs.n_list.size
  pub n_capacity : fs.n_list.capacity ≡ fs.index_len
  pub o_capacity : fs.o_list.capacity ≡ fs.index_len
  pub counted : fs.index_count ≡ fs.n_list.size
  pub limit : fs.index_len ≤ max_num_files
  pub slot : (q : Ptr) → Member fs.n_list q → (fs.heap.cell q).index < fs.index_len
  pub short : (q : Ptr) → Member fs.n_list q → take 63 (fs.heap.cell q).name ≡ (fs.heap.cell q).name
  pub allocated : (q : Ptr) → Member fs.n_list q → fs.heap.live q ≡ true
  pub below_next : (q : Ptr) → Member fs.n_list q → q < fs.heap.next

-- The arrays do not depend on the bytes of file_data and hash_data, nor on `used`.
pub IsCatalog-data :
    (fs : Filesys) (file hash : Bytes) (used : ℕ)
    → IsCatalog fs
    → IsCatalog (record fs { file = file; hash = hash; used = used })
IsCatalog-data fs file hash used v = record {
  sorted = v.sorted;
  n_indexed = v.n_indexed;
  o_type = v.o_type;
  o_indexed = v.o_indexed;
  paired = v.paired;
  sizes = v.sizes;
  n_capacity = v.n_capacity;
  o_capacity = v.o_capacity;
  counted = v.counted;
  limit = v.limit;
  slot = v.slot;
  short = v.short;
  allocated = v.allocated;
  below_next = v.below_next;
}

-- What a lookup of a name finds: the file whose name is the first 63 bytes of it, or none if
-- there is no such file.
abbrev pub Finds : Filesys → CString → Option Ptr → Type 0
Finds fs name none = (q : Ptr) → Member fs.n_list q → (fs.heap.cell q).name ≢ take 63 name
Finds fs name (some p) = Member fs.n_list p × ((fs.heap.cell p).name ≡ take 63 name)

module _ (fs : Filesys) (v : IsCatalog fs) where
  Answers→Finds :
      (name : CString) (r : Option Ptr)
      → Answers fs.n_list fs.heap (take 63 name) r
      → Finds fs name r
  Answers→Finds name none h = λ q (i, p, e) same.
      h i p (ap (λ x. take 63 (fs.heap.cell x).name) e ∙ ap (λ s. take 63 s) same)
  Answers→Finds name (some p) (i, q, e, same) = (
    (i, q, e),
    sym (v.short p (i, q, e))
        ∙ (ap (λ x. take 63 (fs.heap.cell x).name) (sym e) ∙ (same ∙ take-take 63 name)),
  )

  -- On a file system whose arrays are valid, `find_file` ends, never aborts, and finds the file with
  -- the name if there is one.
  pub find_file-Finds :
      (name : CString) → (r : Option Ptr) × (find_file name fs ≡ ok r) × Finds fs name r
  unfolding find_file name_key update_file_name
  find_file-Finds name =
      let (r, e, answers) =
        arr_get_by_key-Answers fs.n_list fs.heap fs.file_data_len v.sorted (name_key name) in
      (r, e, Answers→Finds name r answers)

  -- No two files have the same name.
  pub Member-unique :
      (p q : Ptr)
      → Member fs.n_list p
      → Member fs.n_list q
      → (fs.heap.cell p).name ≡ (fs.heap.cell q).name
      → p ≡ q
  Member-unique p q (i, a, e) (j, b, e') same = elim (dec_lt i j) [
    | yes l ↦ absurd (
        differ i j l b
          (ap (λ x. (fs.heap.cell x).name) e ∙ (same ∙ ap (λ x. (fs.heap.cell x).name) (sym e'))))
    | no l ↦ elim (dec_lt j i) [
      | yes l ↦ absurd (
          differ j i l a (
            ap (λ x. (fs.heap.cell x).name) e'
            ∙ (sym same ∙ ap (λ x. (fs.heap.cell x).name) (sym e))))
      | no k ↦ (let here : i ≡ j = omega arith in sym e ∙ (ap fs.n_list.list here ∙ e'))
    ]
  ]
    where
      differ :
          (i j : ℕ)
          → i < j
          → j < fs.n_list.size
          → name_at fs.n_list fs.heap i ≢ name_at fs.n_list fs.heap j
      differ i j l b e'' = cc (
        v.sorted.rises i j l b,
        ap (λ s. virtual_file_system.Memory.strncmp 63 s (name_at fs.n_list fs.heap j)) e'',
        strncmp-eq_self 63 (name_at fs.n_list fs.heap j),
      )

  -- The lookup of the name of a file in the arrays finds that file.
  pub find_file-Member :
      (name : CString) (p : Ptr)
      → Member fs.n_list p
      → (fs.heap.cell p).name ≡ take 63 name
      → find_file name fs ≡ ok (some p)
  find_file-Member name p m same = go (find_file-Finds name)
    where
      go :
          ((r : Option Ptr) × (find_file name fs ≡ ok r) × Finds fs name r)
          → find_file name fs ≡ ok (some p)
      go (none, e, f) = absurd (f p m same)
      go (some q, e, f) = rw (Member-unique q p f.0 m (f.1 ∙ sym same)) at e

  pub find_file-none : (name : CString) → Finds fs name none → find_file name fs ≡ ok none
  find_file-none name free = go (find_file-Finds name)
    where
      go :
          ((r : Option Ptr) × (find_file name fs ≡ ok r) × Finds fs name r)
          → find_file name fs ≡ ok none
      go (none, e, f) = e
      go (some q, e, f) = absurd (free q f.0 f.1)
