-- ===== src/Filesystem/View/Renames.antt =====
-- `rename_file` moves the bytes of a name to another name.
use native.Mathlib.Decide.{ℕ_discrete}
use virtual_file_system.Common.{
  ℕ, ◌<◌, ◌≡◌, ◌≢◌, refl, sym, ap, ◌∙◌, ◌⊎◌, inl, inr, none, some, List, [], take, ok,
}
use virtual_file_system.Structs.{CString, FileEntry, Ptr, Filesys}
use virtual_file_system.Arr.Names.{name_at}
use virtual_file_system.Arr.Member.{Member}
use virtual_file_system.Filesystem.Catalog.{IsCatalog, Finds, Member-unique}
use virtual_file_system.Filesystem.Rename.{rename_file}
use virtual_file_system.Filesystem.Rename.Renames.{
  Renamed, rename_file-cases, rename_file-IsCatalog_iff,
}
use virtual_file_system.Filesystem.Valid.{IsValid}
use virtual_file_system.Filesystem.Valid.Renames.{field-Renamed}
use virtual_file_system.Filesystem.Valid.Steps.{KeepsOrder}
use virtual_file_system.Filesystem.View.{
  list_discrete, file_bytes, view, MovedTo, view-some, view-none,
}
use virtual_file_system.Filesystem.View.Operations.{view-same}

module _ (old new : CString) (k : ℕ) (fs fs' : Filesys) (v : IsCatalog fs) (v' : IsCatalog fs')
    (inside : k < fs.n_list.size) (name : name_at fs.n_list fs.heap k ≡ take 63 old)
    (free : Finds fs new none) (r : Renamed k new fs fs') where
  abbrev p : Ptr
  p = fs.n_list.list k

  p-Member : Member fs.n_list p
  p-Member = (k, inside, refl)

  list_same : fs'.n_list ≡ fs.n_list
  list_same = ap (λ (z : Filesys). z.n_list) r.rest

  p_name : (fs'.heap.cell p).name ≡ take 63 new
  p_name = ap (λ (f : FileEntry). f.name) r.renamed

  same_bytes : (q : Ptr) → file_bytes fs' q ≡ file_bytes fs q
  same_bytes q =
      rw
        (
          ap (λ (z : Filesys). z.file) r.rest,
          field-Renamed k new fs fs' r (λ f. f.offset) (λ f s. refl) q,
          field-Renamed k new fs fs' r (λ f. f.length) (λ f s. refl) q,
        )
        refl

  other_name : (q : Ptr) → q ≢ p → (fs'.heap.cell q).name ≡ (fs.heap.cell q).name
  other_name q ne = ap (λ (f : FileEntry). f.name) (r.others q ne)

  -- No file has the old name any more.
  gone : (x : CString) → take 63 x ≢ take 63 new → take 63 x ≡ take 63 old → Finds fs' x none
  gone x ne e q m same = elim (ℕ_discrete q p) [
    | yes here ↦ ne (sym same ∙ (ap (λ z. (fs'.heap.cell z).name) here ∙ p_name))
    | no other ↦ other (
        Member-unique fs v q p (rw list_same at m) p-Member
          (sym (other_name q other) ∙ (same ∙ (e ∙ sym name))))
  ]

  -- The other names find what they found.
  stays : (x : CString) → take 63 x ≢ take 63 new → take 63 x ≢ take 63 old → view fs' x ≡ view fs x
  stays x ne ne' =
      view-same fs fs' v v' x
        (λ q f.
          let other : q ≢ p =
            λ here. ne' (sym f.1 ∙ (ap (λ z. (fs.heap.cell z).name) here ∙ name)) in
          ((rw list_same f.0, other_name q other ∙ f.1), same_bytes q))
        (λ absent q m same. elim (ℕ_discrete q p) [
          | yes here ↦ ne (sym same ∙ (ap (λ z. (fs'.heap.cell z).name) here ∙ p_name))
          | no other ↦ absent q (rw list_same at m) (sym (other_name q other) ∙ same)
        ])

  pub Renamed-MovedTo : MovedTo old new (some (file_bytes fs p)) (view fs) (view fs')
  Renamed-MovedTo x = elim (list_discrete (take 63 x) (take 63 new)) [
    | yes e ↦
        inl
          (e, view-some fs' v' x p (rw list_same p-Member, p_name ∙ sym e) ∙ ap some (same_bytes p))
    | no ne ↦ elim (list_discrete (take 63 x) (take 63 old)) [
      | yes e ↦ inr (inl (ne, e, view-none fs' v' x (gone x ne e)))
      | no ne' ↦ inr (inr (ne, ne', stays x ne ne'))
    ]
  ]

some_ne_none : {bytes : List ℕ} → some bytes ≢ none
some_ne_none e = cc

-- A name that a file has shows bytes.
pub view-found :
    (name : CString) (fs : Filesys) (p : Ptr)
    → IsCatalog fs
    → Finds fs name (some p)
    → view fs name ≢ none
view-found name fs p v f absent = some_ne_none (sym (view-some fs v name p f) ∙ absent)

-- `rename_file` on a valid file system, to a name that is not empty and keeps the order: it returns
-- 1 and changes nothing if no file has the old name or a file has the new one, 0 if they are the
-- same, and else 0 and moves the bytes of the old name to the new one.
pub rename_file-view :
    (old new : CString) (fs : Filesys)
    → IsValid fs
    → new ≢ []
    → KeepsOrder old new fs
    → ((rename_file old new fs ≡ ok (1, fs)) × ((view fs old ≡ none) ⊎ (view fs new ≢ none)))
      ⊎ (((rename_file old new fs ≡ ok (0, fs)) × (view fs old ≢ none) × (old ≡ new))
          ⊎ ((fs' : Filesys) × (rename_file old new fs ≡ ok (0, fs'))
              × (view fs new ≡ none)
              × ((bytes : List ℕ) × (view fs old ≡ some bytes)
                  × MovedTo old new (some bytes) (view fs) (view fs'))))
rename_file-view old new fs w ne ordered = elim (rename_file-cases old new fs w.catalog) [
  | inl (e, f) ↦ inl (e, inl (view-none fs w.catalog old f))
  | inr (inl (p, f, e, same)) ↦ inr (inl (e, view-found old fs p w.catalog f, same))
  | inr (inr (inl (p, f, (q, f', e)))) ↦ inl (e, inr (view-found new fs q w.catalog f'))
  | inr (inr (inr (k, inside, name, free, _))) ↦
      (let (fs', e, r, valid) =
          rename_file-IsCatalog_iff old new fs k w.catalog inside name free ne in
        inr (
          inr (
            fs',
            e,
            view-none fs w.catalog new free,
            (
              file_bytes fs (fs.n_list.list k),
              view-some fs w.catalog old (fs.n_list.list k) ((k, inside, refl), name),
              Renamed-MovedTo old new k fs fs' w.catalog (valid.1 (ordered k inside name free))
                  inside name free r,
            ),
          )))
]
