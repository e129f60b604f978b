-- ===== src/Filesystem/Rename/Order.antt =====
-- `rename_file`, and when the array by name stays sorted behind it.
use native.Mathlib.Decide.{ℕ_discrete}
use virtual_file_system.Common.{ℕ, ◌<◌, ◌≡◌, ◌≢◌, refl, ap, ◌∙◌, Ordering, take, [], arith}
use virtual_file_system.Structs.{CString, FileEntry, Ptr, Filesys, store}
use virtual_file_system.Memory.{strncmp}
use virtual_file_system.Memory.Order.{take-take}
use virtual_file_system.Helper.{update_file_name, update_dir_name}
use virtual_file_system.Arr.Shift.{update_self, update_ne}
use virtual_file_system.Arr.Insert.{list-injective}
use virtual_file_system.Arr.Names.{name_at}
use virtual_file_system.Arr.Lookup.{take-ne_nil}
use virtual_file_system.Arr.Member.{Member}
use virtual_file_system.Filesystem.Rename.{set_name}
use virtual_file_system.Filesystem.Catalog.{IsCatalog}

-- The name fits between the names before and behind the slot.
pub record FitsAt (k : ℕ) (name : CString) (fs : Filesys) : Type 0 where
  pub before : (i : ℕ) → i < k → strncmp 63 (name_at fs.n_list fs.heap i) name ≡ Ordering.lt
  pub behind :
      (i : ℕ)
      → k < i
      → i < fs.n_list.size
      → strncmp 63 name (name_at fs.n_list fs.heap i) ≡ Ordering.lt

module _ (fs : Filesys) (v : IsCatalog fs) (k : ℕ) (inside : k < fs.n_list.size)
    (name : CString) where
  abbrev pub p : Ptr
  p = fs.n_list.list k

  abbrev pub entry : FileEntry
  entry = record (fs.heap.cell p) { name = take 63 name }

  abbrev pub after : Filesys
  after = record fs { heap = store p entry fs.heap; dir = update_dir_name entry fs.dir }

  pub set_name-after : set_name p name fs ≡ after
  unfolding set_name update_file_name
  set_name-after = refl

  -- A field that is not the name is kept.
  kept {ℓ} :
      {A : Type ℓ} (g : FileEntry → A)
      → g entry ≡ g (fs.heap.cell p)
      → (q : Ptr) → g (after.heap.cell q) ≡ g (fs.heap.cell q)
  kept g e q = elim (ℕ_discrete q p) [
    | yes h ↦ rw h (rw (update_self fs.heap.cell p entry) e)
    | no ne ↦ ap g (update_ne fs.heap.cell p q entry ne)
  ]

  pub name_here : name_at fs.n_list after.heap k ≡ take 63 name
  name_here = ap (λ (x : FileEntry). x.name) (update_self fs.heap.cell p entry)

  name_other :
      (i : ℕ)
      → i < fs.n_list.size
      → i ≢ k
      → name_at fs.n_list after.heap i ≡ name_at fs.n_list fs.heap i
  name_other i q ne =
      ap (λ (x : FileEntry). x.name)
        (update_ne fs.heap.cell p (fs.n_list.list i) entry
          (λ e. ne (list-injective fs.n_list fs.heap v.n_indexed i k q inside e)))

  pub after-FitsAt : IsCatalog after → FitsAt k (take 63 name) fs
  after-FitsAt w = record {
    before = λ i q.
        rw (name_other i (omega arith) (omega arith), name_here) at (w.sorted.rises i k q inside);
    behind = λ i q r. rw (name_other i r (omega arith), name_here) at (w.sorted.rises k i q r);
  }

  rises-after :
      FitsAt k (take 63 name) fs
      → (i j : ℕ) → i < j
      → j < fs.n_list.size
      → strncmp 63 (name_at fs.n_list after.heap i) (name_at fs.n_list after.heap j) ≡ Ordering.lt
  rises-after fits i j q r = elim (ℕ_discrete i k) [
    | yes e ↦ rw e (rw (name_here, name_other j r (omega arith)) (fits.behind j (omega arith) r))
    | no ne ↦ elim (ℕ_discrete j k) [
      | yes e ↦ rw e (rw (name_here, name_other i (omega arith) ne) (fits.before i (omega arith)))
      | no ne' ↦ rw (name_other i (omega arith) ne, name_other j r ne') (v.sorted.rises i j q r)
    ]
  ]

  nonempty-after : name ≢ [] → (i : ℕ) → i < fs.n_list.size → name_at fs.n_list after.heap i ≢ []
  nonempty-after ne i q = elim (ℕ_discrete i k) [
    | yes e ↦ rw e (rw name_here (take-ne_nil name ne))
    | no other ↦ rw (name_other i q other) (v.sorted.nonempty i q)
  ]

  after-short :
      (q : Ptr) → Member fs.n_list q → take 63 (after.heap.cell q).name ≡ (after.heap.cell q).name
  after-short q m = elim (ℕ_discrete q p) [
    | yes h ↦ rw h (rw (update_self fs.heap.cell p entry) (take-take 63 name))
    | no ne ↦ rw (update_ne fs.heap.cell p q entry ne) (v.short q m)
  ]

  pub after-IsCatalog : name ≢ [] → FitsAt k (take 63 name) fs → IsCatalog after
  after-IsCatalog ne fits = record {
    sorted = record {
      type = v.sorted.type;
      rises = rises-after fits;
      nonempty = nonempty-after ne;
    };
    n_indexed = λ i q r. rw v.sorted.type (
        kept (λ (x : FileEntry). x.n_index) refl (fs.n_list.list i)
        ∙ (rw v.sorted.type at (v.n_indexed i q r)));
    o_type = v.o_type;
    o_indexed = λ i q r. rw v.o_type (
        kept (λ (x : FileEntry). x.o_index) refl (fs.o_list.list i)
        ∙ (rw v.o_type at (v.o_indexed i q r)));
    paired = v.paired;
    sizes = v.sizes;
    n_capacity = v.n_capacity;
    o_capacity = v.o_capacity;
    counted = v.counted;
    limit = v.limit;
    slot = λ q m. rw (kept (λ (x : FileEntry). x.index) refl q) (v.slot q m);
    short = after-short;
    allocated = v.allocated;
    below_next = v.below_next;
  }
