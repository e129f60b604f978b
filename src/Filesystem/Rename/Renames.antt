-- ===== src/Filesystem/Rename/Renames.antt =====
-- What `rename_file` does in each case.
use virtual_file_system.Common.{
  ℕ, ◌<◌, ◌≡◌, ◌≢◌, refl, sym, ap, ◌∙◌, ◌↔◌, ◌⊎◌, inl, inr, Ordering, true, false, Bool-cases,
  if◌then◌else◌, Option, none, some, take, [], ok, arith, compare, ltb,
}
use virtual_file_system.Structs.{CString, Ptr, Filesys}
use virtual_file_system.Memory.{strcmp}
use virtual_file_system.Memory.Order.{strcmp-eq}
use virtual_file_system.Helper.{update_dir_name}
use virtual_file_system.Arr.Shift.{update_ne}
use virtual_file_system.Arr.Names.{name_at}
use virtual_file_system.Filesystem.Create.{find_file}
use virtual_file_system.Filesystem.Rename.{is_same_name, rename_file}
use virtual_file_system.Filesystem.Rename.Order.{
  FitsAt, after, set_name-after, after-FitsAt, after-IsCatalog,
}
use virtual_file_system.Filesystem.Catalog.{
  IsCatalog, Finds, find_file-Finds, find_file-Member, find_file-none,
}

-- Only the name of the file in slot `k` of the array by name has changed, and its entry.
pub record Renamed (k : ℕ) (name : CString) (fs fs' : Filesys) : Type 0 where
  pub renamed :
      fs'.heap.cell (fs.n_list.list k)
      ≡ record (fs.heap.cell (fs.n_list.list k)) { name = take 63 name }
  pub others : (q : Ptr) → q ≢ fs.n_list.list k → fs'.heap.cell q ≡ fs.heap.cell q
  pub dir : fs'.dir ≡ update_dir_name (fs'.heap.cell (fs.n_list.list k)) fs.dir
  pub rest : fs' ≡ record fs { heap = fs'.heap; dir = fs'.dir }

is_same_name-eq : (a b : CString) → is_same_name a b ≡ true → a ≡ b
is_same_name-eq a b h = go (strcmp a b) refl h
  where
    go :
        (o : Ordering)
        → strcmp a b ≡ o
        → elim o as (λ _. virtual_file_system.Common.Bool) [ Ordering.eq ↦ true | _ ↦ false ] ≡ true
        → a ≡ b
    go Ordering.eq e h' = strcmp-eq a b e
    go Ordering.lt e h' = ground arith
    go Ordering.gt e h' = ground arith

module _ (old new : CString) (fs : Filesys) (v : IsCatalog fs) (k : ℕ) (inside : k < fs.n_list.size)
    (name : name_at fs.n_list fs.heap k ≡ take 63 old) (free : Finds fs new none) where
  finds_old : find_file old fs ≡ ok (some (fs.n_list.list k))
  finds_old = find_file-Member fs v old (fs.n_list.list k) (k, inside, refl) name

  finds_new : find_file new fs ≡ ok none
  finds_new = find_file-none fs v new free

  differ : is_same_name old new ≡ false
  differ = elim (Bool-cases (is_same_name old new)) [
    | inl e ↦ absurd (
        free (fs.n_list.list k) (k, inside, refl)
          (name ∙ ap (λ s. take 63 s) (is_same_name-eq old new e)))
    | inr e ↦ e
  ]

  renames : rename_file old new fs ≡ ok (0, after fs v k inside new)
  unfolding rename_file
  renames = rw finds_old (
      rw differ (rw finds_new (ap (λ (x : Filesys). ok (0, x)) (set_name-after fs v k inside new))))

  after-Renamed : Renamed k new fs (after fs v k inside new)
  after-Renamed = record {
    renamed = virtual_file_system.Arr.Shift.update_self fs.heap.cell (fs.n_list.list k) _;
    others = λ q ne. update_ne fs.heap.cell (fs.n_list.list k) q _ ne;
    dir =
        ap (λ f. update_dir_name f fs.dir)
          (sym (virtual_file_system.Arr.Shift.update_self fs.heap.cell (fs.n_list.list k) _));
    rest = refl;
  }

-- On a file system whose arrays are valid, if the file in slot `k` of the array by name has the old name and no file has the new one, which
-- is not empty, `rename_file` returns 0, changes the name of that file and no other field of a
-- struct, and leaves it in its slot. So the arrays are valid afterwards exactly if the new
-- name happens to lie between the names before and behind the slot.
pub rename_file-IsCatalog_iff :
    (old new : CString) (fs : Filesys) (k : ℕ)
    → IsCatalog fs
    → k < fs.n_list.size
    → name_at fs.n_list fs.heap k ≡ take 63 old
    → Finds fs new none
    → new ≢ []
    → (fs' : Filesys) × (rename_file old new fs ≡ ok (0, fs'))
      × Renamed k new fs fs'
      × (IsCatalog fs' ↔ FitsAt k (take 63 new) fs)
rename_file-IsCatalog_iff old new fs k v inside name free ne = (
  after fs v k inside new,
  renames old new fs v k inside name free,
  after-Renamed old new fs v k inside name free,
  (after-FitsAt fs v k inside new, after-IsCatalog fs v k inside new ne),
)

-- What `rename_file` can do.
abbrev pub RenameOutcome : CString → CString → Filesys → Type 0
RenameOutcome old new fs =
    ((rename_file old new fs ≡ ok (1, fs)) × Finds fs old none)
    ⊎ (((p : Ptr) × Finds fs old (some p) × (rename_file old new fs ≡ ok (0, fs)) × (old ≡ new))
        ⊎ (((p : Ptr) × Finds fs old (some p)
              × ((q : Ptr) × Finds fs new (some q) × (rename_file old new fs ≡ ok (1, fs))))
            ⊎ ((k : ℕ) × (k < fs.n_list.size)
                × (name_at fs.n_list fs.heap k ≡ take 63 old)
                × Finds fs new none
                × ((fs' : Filesys) × (rename_file old new fs ≡ ok (0, fs'))
                    × Renamed k new fs fs'))))

-- On a file system whose arrays are valid, `rename_file` never aborts, and where it renames nothing
-- it changes nothing: it returns 1 if no file has the old name, 0 if the two names are the same,
-- and 1 if a file has the new name. Else it returns 0, and only the name of the
-- file changes, in its struct and by `update_dir_name` in its entry of dir_table.
pub rename_file-cases : (old new : CString) (fs : Filesys) → IsCatalog fs → RenameOutcome old new fs
unfolding rename_file
rename_file-cases old new fs v =
    go (find_file-Finds fs v old) (find_file-Finds fs v new) (Bool-cases (is_same_name old new))
  where
    go :
        ((r : Option Ptr) × (find_file old fs ≡ ok r) × Finds fs old r)
        → ((r : Option Ptr) × (find_file new fs ≡ ok r) × Finds fs new r)
        → (is_same_name old new ≡ true) ⊎ (is_same_name old new ≡ false)
        → RenameOutcome old new fs
    go (none, e, f) s d = inl (rw e, f)
    go (some p, e, f) s (inl d) = inr (inl (p, f, rw e (rw d), is_same_name-eq old new d))
    go (some p, e, f) (some q, e', f') (inr d) =
        inr (inr (inl (p, f, (q, f', rw e (rw d (rw e'))))))
    go (some p, e, f) (none, e', f') (inr d) =
        (let (k, inside, at) = f.0 in
          let name : name_at fs.n_list fs.heap k ≡ take 63 old =
            ap (λ x. (fs.heap.cell x).name) at ∙ f.1 in
          inr (
            inr (
              inr (
                k,
                inside,
                name,
                f',
                (
                  after fs v k inside new,
                  renames old new fs v k inside name f',
                  after-Renamed old new fs v k inside name f',
                ),
              ))))
