-- ===== src/Filesystem/Create/Inserts.antt =====
-- The arrays are valid after a new struct was inserted into both.
use virtual_file_system.Common.{
  ℕ, ◌+◌, ◌%◌, ◌^◌, ◌<◌, ◌≡◌, refl, ◌∙◌, ◌↔◌, ◌⊎◌, inl, inr, true, take, update, arith,
}
use virtual_file_system.Structs.{CString, by_name, Ptr, Heap, Arr, Filesys}
use virtual_file_system.Memory.Order.{take-take}
use virtual_file_system.Helper.{write_dir_file}
use virtual_file_system.Arr.Shift.{SameBut, update_self, update_ne}
use virtual_file_system.Arr.Insert.{Inserted}
use virtual_file_system.Arr.Names.{IsNameSorted}
use virtual_file_system.Arr.Member.{Member, Member-inserted}
use virtual_file_system.Arr.Frame.{SameFile, SameFile-SameBut, SameFile-trans, IsIndexed-o_list}
use virtual_file_system.Filesystem.Catalog.{IsCatalog}
use virtual_file_system.Filesystem.Create.Fresh.{
  fresh, fresh_heap, fresh_cell, old_cell, n_absent, same_file1,
}

-- A file with these fields has been added to the arrays, and the other files are the same.
pub record Created (name : CString) (offset length index : ℕ) (fs fs' : Filesys) : Type 0 where
  pub valid : IsCatalog fs'
  pub members : (q : Ptr) → Member fs'.n_list q ↔ (Member fs.n_list q ⊎ (q ≡ fs.heap.next))
  pub old : (q : Ptr) → Member fs.n_list q → SameFile (fs'.heap.cell q) (fs.heap.cell q)
  pub new_name : (fs'.heap.cell fs.heap.next).name ≡ take 63 name
  pub new_offset : (fs'.heap.cell fs.heap.next).offset ≡ offset
  pub new_length : (fs'.heap.cell fs.heap.next).length ≡ length % 2 ^ 32
  pub new_index : (fs'.heap.cell fs.heap.next).index ≡ index
  pub taken : fs'.index ≡ update fs.index index 1
  pub entry : fs'.dir ≡ write_dir_file (fs'.heap.cell fs.heap.next) fs.dir

module _ (fs : Filesys) (v : IsCatalog fs) (name : CString) (offset length index : ℕ)
    (in_table : index < fs.index_len) (k1 : ℕ) (r1 : Arr × Heap)
    (ins1 : Inserted k1 fs.heap.next fs.o_list (fresh_heap fs v name offset length index) r1)
    (k2 : ℕ) (r2 : Arr × Heap) (ins2 : Inserted k2 fs.heap.next fs.n_list r1.1 r2)
    (sorted2 : IsNameSorted r2.0 r2.1) where
  abbrev h1 : Heap
  h1 = fresh_heap fs v name offset length index

  abbrev pub inserted : Filesys
  inserted = record fs {
    o_list = r1.0;
    n_list = r2.0;
    heap = r2.1;
    dir = write_dir_file (r2.1.cell fs.heap.next) fs.dir;
    index = update fs.index index 1;
    index_count = fs.index_count + 1;
  }

  same2 : (q : Ptr) → SameBut by_name (r2.1.cell q) (r1.1.cell q)
  same2 q = rw v.sorted.type at (ins2.same q)

  pub same_file : (q : Ptr) → SameFile (r2.1.cell q) (h1.cell q)
  same_file q =
      SameFile-trans (r2.1.cell q) (r1.1.cell q) (h1.cell q)
        (SameFile-SameBut by_name (r2.1.cell q) (r1.1.cell q) (same2 q))
        (same_file1 fs v name offset length index k1 r1 ins1 q)

  old_same : (q : Ptr) → Member fs.n_list q → SameFile (r2.1.cell q) (fs.heap.cell q)
  old_same q m =
      rw (old_cell fs v name offset length index q (n_absent fs v name offset length index q m)) at
        (same_file q)

  new_same : SameFile (r2.1.cell fs.heap.next) (fresh fs v name offset length index)
  new_same = rw (fresh_cell fs v name offset length index) at (same_file fs.heap.next)

  n_members : (q : Ptr) → Member r2.0 q ↔ (Member fs.n_list q ⊎ (q ≡ fs.heap.next))
  n_members = Member-inserted k2 fs.heap.next fs.n_list r1.1 ins2.inside r2 ins2

  o_members : (q : Ptr) → Member r1.0 q ↔ (Member fs.o_list q ⊎ (q ≡ fs.heap.next))
  o_members = Member-inserted k1 fs.heap.next fs.o_list h1 ins1.inside r1 ins1

  -- A property of the members that the old ones had and the new one has.
  each {ℓ} :
      (P : Ptr → Type ℓ)
      → ((q : Ptr) → Member fs.n_list q → P q)
      → P fs.heap.next
      → (q : Ptr) → Member r2.0 q
      → P q
  each P old new q m = elim ((n_members q).0 m) [ inl m' ↦ old q m' | inr e ↦ rw e new ]

  inserted-IsCatalog : IsCatalog inserted
  inserted-IsCatalog = record {
    sorted = sorted2;
    n_indexed = ins2.indexed;
    o_type = ins1.type ∙ v.o_type;
    o_indexed = IsIndexed-o_list r1.0 r1.1 r2.1 (ins1.type ∙ v.o_type) same2 ins1.indexed;
    paired = λ q. (
      λ m.
          (o_members q).1
            (elim ((n_members q).0 m) [ inl m' ↦ inl ((v.paired q).0 m') | inr e ↦ inr e ]),
      λ m.
          (n_members q).1
            (elim ((o_members q).0 m) [ inl m' ↦ inl ((v.paired q).1 m') | inr e ↦ inr e ]),
    );
    sizes = omega (arith, ins1.size, ins2.size, v.sizes);
    n_capacity = ins2.capacity ∙ v.n_capacity;
    o_capacity = ins1.capacity ∙ v.o_capacity;
    counted = omega (arith, ins2.size, v.counted);
    limit = v.limit;
    slot =
        each (λ q. (r2.1.cell q).index < fs.index_len) (λ q m. rw ((old_same q m).3) (v.slot q m))
          (rw new_same.3 in_table);
    short =
        each (λ q. take 63 (r2.1.cell q).name ≡ (r2.1.cell q).name)
          (λ q m. rw ((old_same q m).0) (v.short q m)) (rw new_same.0 (take-take 63 name));
    allocated =
        each (λ q. r2.1.live q ≡ true)
          (λ q m. rw (ins2.live ∙ ins1.live) (
            update_ne fs.heap.live fs.heap.next q true (n_absent fs v name offset length index q m)
            ∙ v.allocated q m))
          (rw (ins2.live ∙ ins1.live) (update_self fs.heap.live fs.heap.next true));
    below_next =
        each (λ q. q < r2.1.next) (λ q m. omega (arith, v.below_next q m, ins2.next ∙ ins1.next))
          (omega (arith, ins2.next ∙ ins1.next));
  }

  pub inserted-Created : Created name offset length index fs inserted
  inserted-Created = record {
    valid = inserted-IsCatalog;
    members = n_members;
    old = old_same;
    new_name = new_same.0;
    new_offset = new_same.1;
    new_length = new_same.2;
    new_index = new_same.3;
    taken = refl;
    entry = refl;
  }
