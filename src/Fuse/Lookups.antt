-- ===== src/Fuse/Lookups.antt =====
-- `myfuse_getattr` and `myfuse_open` see the files of the arrays, also behind a creation or removal.
use virtual_file_system.Common.{
  ◌≤◌, ◌≡◌, ◌≢◌, refl, sym, ap, ◌<◌, ◌∙◌, ◌⊎◌, inl, inr, Option, none, some, take, [], Ordering, ok,
  arith,
}
use virtual_file_system.Structs.{CString, Ptr, Filesys}
use virtual_file_system.Memory.{strncmp}
use virtual_file_system.Arr.Member.{Member}
use virtual_file_system.Arr.Frame.{SameFile}
use virtual_file_system.Filesystem.Catalog.{
  IsCatalog, Finds, find_file-Finds, find_file-Member, find_file-none, Member-unique,
}
use virtual_file_system.Filesystem.Create.{find_file}
use virtual_file_system.Filesystem.Create.Empty.{CreatedEmpty, create_file-CreatedEmpty}
use virtual_file_system.Filesystem.Delete.{file_size}
use virtual_file_system.Filesystem.Delete.Removes.{Deleted, delete_file-Deleted}
use virtual_file_system.Filesystem.Space.Counted.{IsCounted}
use virtual_file_system.Fuse.{
  success, error, Errno.enoent, Stat, Mode.regular, Mode.unset, to_size, root, filesystem,
  path_name, myfuse_getattr, myfuse_open, myfuse_unlink, myfuse_create,
}
use virtual_file_system.Fuse.Paths.{path_of, is_root-path_of}

module _ (name : CString) (ne : name ≢ []) (fs : Filesys) where
  slash : strncmp 1 (path_of name) root ≡ Ordering.eq
  unfolding strncmp
  slash = refl

  getattr_some :
      (stat : Stat) (p : Ptr)
      → find_file name fs ≡ ok (some p)
      → myfuse_getattr (path_of name) stat (some fs)
        ≡ ok (success, record { size = (fs.heap.cell p).length; mode = regular })
  unfolding myfuse_getattr filesystem path_name file_size to_size
  getattr_some stat p e = rw slash (rw (is_root-path_of name ne) (rw e refl))

  getattr_none :
      (stat : Stat)
      → find_file name fs ≡ ok none
      → myfuse_getattr (path_of name) stat (some fs)
        ≡ ok (error enoent, record { size = 0; mode = unset })
  unfolding myfuse_getattr filesystem path_name file_size to_size
  getattr_none stat e = rw slash (rw (is_root-path_of name ne) (rw e refl))

  open_some :
      (p : Ptr)
      → find_file name fs ≡ ok (some p)
      → myfuse_open (some (path_of name)) (some fs) ≡ ok success
  unfolding myfuse_open filesystem path_name file_size
  open_some p e = rw (is_root-path_of name ne) (rw e refl)

  open_none :
      find_file name fs ≡ ok none → myfuse_open (some (path_of name)) (some fs) ≡ ok (error enoent)
  unfolding myfuse_open filesystem path_name file_size
  open_none e = rw (is_root-path_of name ne) (rw e refl)

-- On a file system whose arrays are valid, `myfuse_getattr` and `myfuse_open` of the path of a name
-- that is not empty do not abort and agree: if a file has the name, they return 0 and the length of
-- the file as its size, and else ENOENT.
pub myfuse_getattr-Finds :
    (name : CString) (stat : Stat) (fs : Filesys)
    → name ≢ []
    → IsCatalog fs
    → ((p : Ptr) × Finds fs name (some p)
        × (myfuse_getattr (path_of name) stat (some fs)
            ≡ ok (success, record { size = (fs.heap.cell p).length; mode = regular }))
        × (myfuse_open (some (path_of name)) (some fs) ≡ ok success))
      ⊎ (Finds fs name none
          × (myfuse_getattr (path_of name) stat (some fs)
              ≡ ok (error enoent, record { size = 0; mode = unset }))
          × (myfuse_open (some (path_of name)) (some fs) ≡ ok (error enoent)))
myfuse_getattr-Finds name stat fs ne v = go (find_file-Finds fs v name)
  where
    go :
        ((r : Option Ptr) × (find_file name fs ≡ ok r) × Finds fs name r)
        → ((p : Ptr) × Finds fs name (some p)
            × (myfuse_getattr (path_of name) stat (some fs)
                ≡ ok (success, record { size = (fs.heap.cell p).length; mode = regular }))
            × (myfuse_open (some (path_of name)) (some fs) ≡ ok success))
          ⊎ (Finds fs name none
              × (myfuse_getattr (path_of name) stat (some fs)
                  ≡ ok (error enoent, record { size = 0; mode = unset }))
              × (myfuse_open (some (path_of name)) (some fs) ≡ ok (error enoent)))
    go (none, e, f) = inr (f, getattr_none name ne fs stat e, open_none name ne fs e)
    go (some p, e, f) = inl (p, f, getattr_some name ne fs stat p e, open_some name ne fs p e)

module _ (fs fs' : Filesys) (v : IsCatalog fs) (v' : IsCatalog fs') (name : CString) where
  -- The files with the name, and their lengths, are the same in both states.
  pub record SameUnder : Type 0 where
    pub kept :
        (q : Ptr)
        → Member fs.n_list q
        → (fs.heap.cell q).name ≡ take 63 name
        → Member fs'.n_list q × SameFile (fs'.heap.cell q) (fs.heap.cell q)
    pub old :
        (q : Ptr)
        → Member fs'.n_list q
        → (fs'.heap.cell q).name ≡ take 63 name
        → Member fs.n_list q × SameFile (fs'.heap.cell q) (fs.heap.cell q)

  getattr_same :
      (stat : Stat)
      → name ≢ []
      → SameUnder
      → myfuse_getattr (path_of name) stat (some fs') ≡ myfuse_getattr (path_of name) stat (some fs)
  getattr_same stat ne same = go (find_file-Finds fs v name) (find_file-Finds fs' v' name)
    where
      go :
          ((r : Option Ptr) × (find_file name fs ≡ ok r) × Finds fs name r)
          → ((r : Option Ptr) × (find_file name fs' ≡ ok r) × Finds fs' name r)
          → myfuse_getattr (path_of name) stat (some fs')
            ≡ myfuse_getattr (path_of name) stat (some fs)
      go (none, e, f) (none, e', f') =
          getattr_none name ne fs' stat e' ∙ sym (getattr_none name ne fs stat e)
      go (none, e, f) (some q, e', f') =
          (let (m, s) = same.old q f'.0 f'.1 in absurd (f q m (sym s.0 ∙ f'.1)))
      go (some p, e, f) (none, e', f') =
          (let (m, s) = same.kept p f.0 f.1 in absurd (f' p m (s.0 ∙ f.1)))
      go (some p, e, f) (some q, e', f') =
          (let (m, s) = same.kept p f.0 f.1 in
            let here : find_file name fs' ≡ ok (some p) =
              find_file-Member fs' v' name p m (s.0 ∙ f.1) in
            getattr_some name ne fs' stat p here
            ∙ (rw s.2 (sym (getattr_some name ne fs stat p e))))

module _ (fs fs' : Filesys) (v : IsCatalog fs) (name : CString) (p : Ptr)
    (f : Finds fs name (some p)) (d : Deleted p fs fs') where
  unlinked-Finds : Finds fs' name none
  unlinked-Finds q m e =
      let (m', ne) = (d.members q).0 m in
      ne (Member-unique fs v q p m' f.0 (sym (d.same q).0 ∙ (e ∙ sym f.1)))

  unlinked-SameUnder :
      (other : CString) → take 63 other ≢ take 63 name → SameUnder fs fs' v d.valid other
  unlinked-SameUnder other differ = record {
    kept = λ q m e. (
      (d.members q).1 (m, λ same. differ (sym e ∙ (ap (λ x. (fs.heap.cell x).name) same ∙ f.1))),
      d.same q,
    );
    old = λ q m e. (((d.members q).0 m).0, d.same q);
  }

-- On a file system whose arrays are valid, after `myfuse_unlink` of the path of a file with a
-- name that is not empty, which returns 0, `myfuse_getattr` of the path returns ENOENT, and of
-- the path of any other name, which is not empty and differs in the first 63 bytes, it returns
-- what it did before.
pub myfuse_getattr-myfuse_unlink :
    (name : CString) (stat : Stat) (fs : Filesys) (p : Ptr)
    → name ≢ []
    → IsCatalog fs
    → Finds fs name (some p)
    → (fs' : Filesys) × (myfuse_unlink (some (path_of name)) (some fs) ≡ ok (success, fs'))
      × (myfuse_getattr (path_of name) stat (some fs')
          ≡ ok (error enoent, record { size = 0; mode = unset }))
      × ((other : CString)
          → other ≢ []
          → take 63 other ≢ take 63 name
          → myfuse_getattr (path_of other) stat (some fs')
            ≡ myfuse_getattr (path_of other) stat (some fs))
unfolding myfuse_unlink filesystem path_name
myfuse_getattr-myfuse_unlink name stat fs p ne v f = elim (delete_file-Deleted name fs v) [
  | inl (e, free) ↦ absurd (free p f.0 f.1)
  | inr (q, g, (fs', e, d)) ↦ (
    fs',
    rw (is_root-path_of name ne) (rw e refl),
    getattr_none name ne fs' stat
        (find_file-none fs' d.valid name (unlinked-Finds fs fs' v name q g d)),
    λ other ne' differ.
        getattr_same fs fs' v d.valid other stat ne'
          (unlinked-SameUnder fs fs' v name q g d other differ),
  )
]

module _ (fs fs' : Filesys) (v : IsCatalog fs) (name : CString) (c : CreatedEmpty name fs fs') where
  created-SameUnder :
      (other : CString) → take 63 other ≢ take 63 name → SameUnder fs fs' v c.created.valid other
  created-SameUnder other differ = record {
    kept = λ q m e. ((c.created.members q).1 (inl m), c.created.old q m);
    old = λ q m e. elim ((c.created.members q).0 m) [
      | inl m' ↦ (m', c.created.old q m')
      | inr same ↦
          absurd (differ (sym e ∙ (ap (λ x. (fs'.heap.cell x).name) same ∙ c.created.new_name)))
    ];
  }

-- On a file system whose arrays and entry count are valid and whose files fit in file_data,
-- `myfuse_create` of the path of a name that is not empty and that no file has, with an entry of
-- dir_table free, returns 0. Then `myfuse_getattr` of the path returns a regular file of size 0,
-- and of the path of any other name, which is not empty and differs in the first 63 bytes, what
-- it did before.
pub myfuse_getattr-myfuse_create :
    (name : CString) (stat : Stat) (fs : Filesys)
    → name ≢ []
    → IsCatalog fs
    → IsCounted fs
    → fs.used ≤ fs.file_data_len
    → Finds fs name none
    → fs.index_count < fs.index_len
    → (fs' : Filesys) × (myfuse_create (some (path_of name)) (some fs) ≡ ok (success, fs'))
      × (myfuse_getattr (path_of name) stat (some fs')
          ≡ ok (success, record { size = 0; mode = regular }))
      × ((other : CString)
          → other ≢ []
          → take 63 other ≢ take 63 name
          → myfuse_getattr (path_of other) stat (some fs')
            ≡ myfuse_getattr (path_of other) stat (some fs))
unfolding myfuse_create filesystem path_name
myfuse_getattr-myfuse_create name stat fs ne v counted fits free spare =
    elim (create_file-CreatedEmpty name fs v counted ne fits) [
      | inl (e, (p, f)) ↦ absurd (free p f.0 f.1)
      | inr (inl (e, f, full)) ↦ absurd (omega arith)
      | inr (inr (f, (fs', e, c))) ↦
          (let empty : (fs'.heap.cell fs.heap.next).length ≡ 0 = c.created.new_length in
            (
              fs',
              rw (is_root-path_of name ne) (rw e refl),
              rw empty at (getattr_some name ne fs' stat fs.heap.next c.found),
              λ other ne' differ.
                  getattr_same fs fs' v c.created.valid other stat ne'
                    (created-SameUnder fs fs' v name c other differ),
            ))
    ]
