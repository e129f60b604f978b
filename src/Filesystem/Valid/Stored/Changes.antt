-- ===== src/Filesystem/Valid/Stored/Changes.antt =====
-- What `delete_file`, `rename_file` and `write_file` do with dir_table.
use native.Mathlib.Decide.{ℕ_discrete}
use virtual_file_system.Common.{
  ℕ, ◌+◌, ◌-◌, ◌*◌, ◌≤◌, ◌<◌, ◌≡◌, ◌≢◌, refl, sym, ap, ◌∙◌, ◌⊎◌, arith, length,
}
use virtual_file_system.Structs.{name_len, offset_len, meta_len, CString, FileEntry, Ptr, Filesys}
use virtual_file_system.Memory.Copy.{memset-inside, memset-outside}
use virtual_file_system.Arr.Shift.{update_ne}
use virtual_file_system.Arr.Member.{Member}
use virtual_file_system.Filesystem.Catalog.{IsCatalog}
use virtual_file_system.Filesystem.Mount.Entries.{name-inside, name-outside}
use virtual_file_system.Filesystem.Delete.Removes.{Deleted}
use virtual_file_system.Filesystem.Rename.Renames.{Renamed}
use virtual_file_system.Filesystem.Valid.{IsValid}
use virtual_file_system.Filesystem.Valid.Renames.{field-Renamed}
use virtual_file_system.Filesystem.Valid.Stored.{IsEntry, IsStored, IsEntry-same, short_name}

-- `delete_file` marks the entry as free.
module _ (fs fs' : Filesys) (w : IsValid fs) (s : IsStored fs) (p : Ptr) (m : Member fs.n_list p)
    (d : Deleted p fs fs') where
  abbrev gone : ℕ
  gone = (fs.heap.cell p).index

  delete_outside :
      (i : ℕ)
      → i ≢ gone
      → (a : ℕ) → i * meta_len ≤ a
      → a < i * meta_len + meta_len
      → fs'.dir a ≡ fs.dir a
  delete_outside i other a low high =
      ap (λ t. t a) d.dir ∙ memset-outside fs.dir (gone * meta_len) 0 1 a (omega (arith, other))

  pub Deleted-IsStored : IsStored fs'
  Deleted-IsStored = record {
    entries = λ q m'.
        let (old, ne) = (d.members q).0 m' in
        IsEntry-same (fs.heap.cell q) (fs'.heap.cell q) fs.dir fs'.dir (d.same q)
          (short_name fs q w.catalog old)
          (delete_outside (fs.heap.cell q).index (λ e. ne (w.owned.own q p old m e)))
          (s.entries q old);
    empties = λ i q free. elim (ℕ_discrete i gone) [
      | yes here ↦
          (let start : gone * meta_len + 0 ≡ gone * meta_len = omega arith in
            rw here (
              ap (λ t. t (gone * meta_len)) d.dir
              ∙ rw start at (memset-inside fs.dir (gone * meta_len) 0 1 0 (omega arith))))
      | no other ↦
          (let same : fs'.index i ≡ fs.index i =
              ap (λ (z : Filesys). z.index i) d.rest ∙ update_ne fs.index gone i 0 other in
            delete_outside i other (i * meta_len) (omega arith) (omega arith)
            ∙ s.empties i (omega (arith, ap (λ (z : Filesys). z.index_len) d.rest))
                (sym same ∙ free))
    ];
  }

-- `rename_file` writes the new name into the entry.
module _ (k : ℕ) (new : CString) (fs fs' : Filesys) (w : IsValid fs) (s : IsStored fs)
    (v' : IsCatalog fs') (inside : k < fs.n_list.size) (r : Renamed k new fs fs') where
  abbrev p : Ptr
  p = fs.n_list.list k

  abbrev f : FileEntry
  f = fs'.heap.cell p

  list_same : fs'.n_list ≡ fs.n_list
  list_same = ap (λ (z : Filesys). z.n_list) r.rest

  p-Member : Member fs.n_list p
  p-Member = (k, inside, refl)

  index_same : (q : Ptr) → (fs'.heap.cell q).index ≡ (fs.heap.cell q).index
  index_same = field-Renamed k new fs fs' r (λ x. x.index) (λ x y. refl)

  short : length f.name ≤ name_len - 1
  short = short_name fs' p v' (rw list_same p-Member)

  name_outside :
      (a : ℕ)
      → (a < f.index * meta_len) ⊎ (f.index * meta_len + name_len ≤ a)
      → fs'.dir a ≡ fs.dir a
  name_outside a q = ap (λ t. t a) r.dir ∙ name-outside f fs.dir a (omega (arith, short))

  renamed-IsEntry : IsEntry f fs'.dir
  renamed-IsEntry =
      let old = s.entries p p-Member in
      let same_offset = field-Renamed k new fs fs' r (λ x. x.offset) (λ x y. refl) p in
      let same_length = field-Renamed k new fs fs' r (λ x. x.length) (λ x y. refl) p in
      record {
        name = λ i q. ap (λ t. t (f.index * meta_len + i)) r.dir ∙ name-inside f fs.dir i q;
        offset = λ i q small.
            name_outside (f.index * meta_len + name_len + i) (omega arith)
            ∙ (rw (index_same p, same_offset) (old.offset i q (rw same_offset at small)));
        length = λ i q.
            name_outside (f.index * meta_len + name_len + offset_len + i) (omega arith)
            ∙ rw (index_same p, same_length) (old.length i q);
      }

  pub Renamed-IsStored : IsStored fs'
  Renamed-IsStored = record {
    entries = λ q m'. elim (ℕ_discrete q p) [
      | yes here ↦ rw here renamed-IsEntry
      | no ne ↦
          (let old : Member fs.n_list q = rw list_same at m' in
            let other : (fs.heap.cell q).index ≢ f.index =
              λ e. ne (w.owned.own q p old p-Member (e ∙ index_same p)) in
            rw (r.others q ne) (
              IsEntry-same (fs.heap.cell q) (fs.heap.cell q) fs.dir fs'.dir (refl, refl, refl, refl)
                (short_name fs q w.catalog old)
                (λ a low high. name_outside a (omega (arith, other))) (s.entries q old)))
    ];
    empties = λ i q free.
        let was : fs.index i ≡ 0 = ap (λ (z : Filesys). z.index i) (sym r.rest) ∙ free in
        let other : i ≢ f.index =
          λ e. w.owned.taken p p-Member (ap fs.index (sym (index_same p) ∙ sym e) ∙ was) in
        name_outside (i * meta_len) (omega (arith, other))
        ∙ s.empties i (omega (arith, ap (λ (z : Filesys). z.index_len) r.rest)) was;
  }
