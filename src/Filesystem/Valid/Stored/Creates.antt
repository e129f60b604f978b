-- ===== src/Filesystem/Valid/Stored/Creates.antt =====
-- `create_file` writes the new file's entry of dir_table, and no other but behind a repack.
use virtual_file_system.Common.{
  ℕ, ◌+◌, ◌-◌, ◌*◌, ◌≤◌, ◌<◌, ◌≡◌, ◌≢◌, refl, sym, ap, ◌∙◌, inl, inr, update, subst, arith, length,
}
use virtual_file_system.Structs.{name_len, meta_len, CString, FileEntry, Ptr, Filesys}
use virtual_file_system.Arr.Shift.{update_ne}
use virtual_file_system.Arr.Member.{Member}
use virtual_file_system.Filesystem.Repack.Kept.{Kept, Kept-refl, repack_helper-Kept}
use virtual_file_system.Filesystem.Mount.Entries.{write_dir_file-outside}
use virtual_file_system.Filesystem.Create.Files.{CreatedFile}
use virtual_file_system.Filesystem.Valid.{IsValid}
use virtual_file_system.Filesystem.Valid.Stored.{
  IsEntry, IsStored, IsEntry-same, short_name, write_dir_file-IsEntry,
}
use virtual_file_system.Filesystem.Valid.Stored.Repacks.{repack_helper-IsStored}

module _ (name : CString) (size : ℕ) (fs fs' : Filesys) (w : IsValid fs) (s : IsStored fs)
    (c : CreatedFile name size fs fs') where
  base-Kept : Kept fs c.base
  base-Kept = elim c.origin [
    | inl e ↦ subst (Kept fs) (sym e) (Kept-refl fs)
    | inr e ↦ subst (Kept fs) (sym e) (repack_helper-Kept fs)
  ]

  base-IsStored : IsStored c.base
  base-IsStored = elim c.origin [
    | inl e ↦ subst IsStored (sym e) s
    | inr e ↦ subst IsStored (sym e) (repack_helper-IsStored fs w s)
  ]

  abbrev new : FileEntry
  new = fs'.heap.cell c.p

  new_short : length new.name ≤ name_len - 1
  new_short = short_name fs' c.p c.valid.catalog ((c.members c.p).1 (inr refl))

  outside :
      (i : ℕ)
      → i ≢ new.index
      → (a : ℕ) → i * meta_len ≤ a
      → a < i * meta_len + meta_len
      → fs'.dir a ≡ c.base.dir a
  outside i other a low high =
      ap (λ d. d a) c.entry
      ∙ write_dir_file-outside new c.base.dir new_short a (omega (arith, other))

  old-IsEntry : (q : Ptr) → Member fs.n_list q → IsEntry (fs'.heap.cell q) fs'.dir
  old-IsEntry q m =
      let kept = base-Kept in
      let index_same : (c.base.heap.cell q).index ≡ (fs.heap.cell q).index =
        ap (λ (z : FileEntry). z.index) (kept.cells q) in
      let name_same : (c.base.heap.cell q).name ≡ (fs.heap.cell q).name =
        ap (λ (z : FileEntry). z.name) (kept.cells q) in
      let other : (c.base.heap.cell q).index ≢ new.index =
        λ e. w.owned.taken q m (ap fs.index (sym index_same ∙ e) ∙ c.was_free) in
      IsEntry-same (c.base.heap.cell q) (fs'.heap.cell q) c.base.dir fs'.dir (c.same q m)
        (rw name_same (short_name fs q w.catalog m)) (outside (c.base.heap.cell q).index other)
        (base-IsStored.entries q (rw (ap (λ (z : Filesys). z.n_list) kept.rest) m))

  new-IsEntry : IsEntry new fs'.dir
  new-IsEntry = rw c.entry (write_dir_file-IsEntry new c.base.dir new_short)

  pub CreatedFile-IsStored : IsStored fs'
  CreatedFile-IsStored = record {
    entries =
        λ q m. elim ((c.members q).0 m) [ inl old ↦ old-IsEntry q old | inr e ↦ rw e new-IsEntry ];
    empties = λ i q free.
        let kept = base-Kept in
        let free' : update fs.index new.index 1 i ≡ 0 = ap (λ t. t i) (sym c.taken) ∙ free in
        let other : i ≢ new.index = λ e. ground (arith, free', e) in
        let was : fs.index i ≡ 0 = sym (update_ne fs.index new.index i 1 other) ∙ free' in
        outside i other (i * meta_len) (omega arith) (omega arith)
        ∙ base-IsStored.empties i
            (omega (arith, c.table, ap (λ (z : Filesys). z.index_len) kept.rest))
            (ap (λ (z : Filesys). z.index i) kept.rest ∙ was);
  }
