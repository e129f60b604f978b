-- ===== src/Filesystem/Valid/Renames.antt =====
-- `rename_file` to a name that keeps the order of the array keeps the invariant.
use native.Mathlib.Decide.{ℕ_discrete}
use virtual_file_system.Common.{ℕ, ◌≡◌, refl, sym, ap, ◌∙◌, take}
use virtual_file_system.Structs.{CString, FileEntry, Ptr, Filesys}
use virtual_file_system.Filesystem.Catalog.{IsCatalog}
use virtual_file_system.Filesystem.Layout.{IsSolid-same}
use virtual_file_system.Filesystem.Rename.Renames.{Renamed}
use virtual_file_system.Filesystem.Create.Based.{IsHashed-same}
use virtual_file_system.Filesystem.Valid.{IsValid}

module _ (k : ℕ) (new : CString) (fs fs' : Filesys) (r : Renamed k new fs fs') where
  -- A field that is not the name.
  pub field-Renamed :
      (field : FileEntry → ℕ)
      → ((f : FileEntry) (name : CString) → field (record f { name = name }) ≡ field f)
      → (q : Ptr) → field (fs'.heap.cell q) ≡ field (fs.heap.cell q)
  field-Renamed field same q = elim (ℕ_discrete q (fs.n_list.list k)) [
    | yes e ↦ rw e (ap field r.renamed ∙ same (fs.heap.cell (fs.n_list.list k)) (take 63 new))
    | no ne ↦ ap field (r.others q ne)
  ]

  pub Renamed-IsValid : IsValid fs → IsCatalog fs' → IsValid fs'
  Renamed-IsValid w catalog =
      let list_same : fs'.n_list ≡ fs.n_list = ap (λ (z : Filesys). z.n_list) r.rest in
      let index_same : fs'.index ≡ fs.index = ap (λ (z : Filesys). z.index) r.rest in
      let index_len : fs'.index_len ≡ fs.index_len = ap (λ (z : Filesys). z.index_len) r.rest in
      let count : fs'.index_count ≡ fs.index_count = ap (λ (z : Filesys). z.index_count) r.rest in
      let len_same : fs'.file_data_len ≡ fs.file_data_len =
        ap (λ (z : Filesys). z.file_data_len) r.rest in
      let leaf_same : fs'.leaf_offset ≡ fs.leaf_offset =
        ap (λ (z : Filesys). z.leaf_offset) r.rest in
      let entry = field-Renamed (λ f. f.index) (λ f name. refl) in
      record {
        catalog = catalog;
        solid =
            IsSolid-same fs fs' (ap (λ (z : Filesys). z.o_list) r.rest)
              (field-Renamed (λ f. f.offset) (λ f name. refl))
              (field-Renamed (λ f. f.length) (λ f name. refl)) (ap (λ (z : Filesys). z.used) r.rest)
              len_same w.solid;
        counted = rw (index_same, index_len, count) w.counted;
        owned = record {
          taken = rw (index_same, list_same) (λ q m. rw (entry q) (w.owned.taken q m));
          own = rw list_same (λ p q m m' e. w.owned.own p q m m' (sym (entry p) ∙ (e ∙ entry q)));
        };
        hashed =
            IsHashed-same fs fs' (ap (λ (z : Filesys). z.file) r.rest)
              (ap (λ (z : Filesys). z.hash) r.rest) leaf_same w.hashed;
        sized = record {
          blocks = rw (len_same, leaf_same) w.sized.blocks;
          limit = rw len_same w.sized.limit;
        };
      }
