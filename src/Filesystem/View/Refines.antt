-- ===== src/Filesystem/View/Refines.antt =====
-- What create, delete, write and repack do with the dictionary from names to byte lists.
use virtual_file_system.Common.{
  ℕ, ◌+◌, ◌^◌, ◌≤◌, ◌<◌, ◌≡◌, ◌≢◌, sym, ◌∙◌, ◌⊎◌, inl, inr, none, some, List, [], ok, subst,
}
use virtual_file_system.Structs.{CString, Ptr, Filesys, Bytes}
use virtual_file_system.Filesystem.Create.{create_file}
use virtual_file_system.Filesystem.Create.Outcome.{create_file-CreatedFile}
use virtual_file_system.Filesystem.Delete.{delete_file}
use virtual_file_system.Filesystem.Write.{write_file}
use virtual_file_system.Filesystem.Repack.{repack}
use virtual_file_system.Filesystem.Catalog.{Finds}
use virtual_file_system.Filesystem.Valid.{IsValid}
use virtual_file_system.Filesystem.Valid.Deletes.{delete_file-IsValid}
use virtual_file_system.Filesystem.Valid.Writes.{write_file-IsValid}
use virtual_file_system.Filesystem.Valid.Repacks.{repack-Repacked}
use virtual_file_system.Filesystem.View.{
  bytes_from, file_bytes, view, Updated, null_bytes, overwrite, view-some, view-none,
}
use virtual_file_system.Filesystem.View.Renames.{view-found}
use virtual_file_system.Filesystem.View.Operations.{
  view-same, CreatedFile-Updated, Deleted-Updated, written-Updated, KeepsContents-file_bytes,
}

-- `create_file` on a valid file system and with a name that is not empty adds the name with
-- `length` null bytes to the dictionary and returns 0, if the dictionary has no such name, the
-- bytes are free and dir_table is not full. If the name is there it returns 1, and else 2, and
-- changes nothing.
pub create_file-view :
    (name : CString) (length : ℕ) (fs : Filesys)
    → IsValid fs
    → name ≢ []
    → length < 2 ^ 32
    → (((create_file name length fs ≡ ok (1, fs)) × (view fs name ≢ none))
        ⊎ ((create_file name length fs ≡ ok (2, fs))
            × (view fs name ≡ none)
            × ((fs.file_data_len < fs.used + length) ⊎ (fs.index_len ≤ fs.index_count))))
      ⊎ ((fs' : Filesys) × (create_file name length fs ≡ ok (0, fs'))
          × (view fs name ≡ none)
          × Updated name (some (null_bytes length)) (view fs) (view fs'))
create_file-view name length fs w ne small =
    elim (create_file-CreatedFile name length fs w ne small) [
      | inl (e, (p, f)) ↦ inl (inl (e, view-found name fs p w.catalog f))
      | inr (inl (e, f, full)) ↦ inl (inr (e, view-none fs w.catalog name f, full))
      | inr (inr (f, _, _, (fs', e, made))) ↦
          inr (fs', e, view-none fs w.catalog name f, CreatedFile-Updated name length fs fs' w made)
    ]

-- `delete_file` on a valid file system removes the name from the dictionary and returns 0, or
-- returns 1 and changes nothing if the name is not there.
pub delete_file-view :
    (name : CString) (fs : Filesys)
    → IsValid fs
    → ((delete_file name fs ≡ ok (1, fs)) × (view fs name ≡ none))
      ⊎ ((fs' : Filesys) × (delete_file name fs ≡ ok (0, fs'))
          × ((bytes : List ℕ) × (view fs name ≡ some bytes))
          × Updated name none (view fs) (view fs'))
delete_file-view name fs w = elim (delete_file-IsValid name fs w) [
  | inl (e, f) ↦ inl (e, view-none fs w.catalog name f)
  | inr (p, f, (fs', e, d, _)) ↦ inr (
    fs',
    e,
    (file_bytes fs p, view-some fs w.catalog name p f),
    Deleted-Updated name fs fs' w p f d,
  )
]

-- `write_file` of `count` > 0 bytes inside the bounds of a file of a valid file system returns 0,
-- and overwrites these bytes of the file in the dictionary.
pub write_file-view :
    (name : CString) (offset count : ℕ) (buf : Bytes) (fs : Filesys) (p : Ptr)
    → IsValid fs
    → Finds fs name (some p)
    → offset + count ≤ (fs.heap.cell p).length
    → 0 < count
    → (fs' : Filesys) × (write_file name offset count buf fs ≡ ok (0, fs'))
      × (view fs name ≡ some (file_bytes fs p))
      × Updated name
          (some (overwrite offset (bytes_from buf 0 count) (file_bytes fs p)))
          (view fs)
          (view fs')
write_file-view name offset count buf fs p w f inside positive =
    let (fs', run, e, w') = write_file-IsValid name offset count buf fs p w f inside positive in
    (
      fs',
      run,
      view-some fs w.catalog name p f,
      subst
          (λ z.
            Updated name (some (overwrite offset (bytes_from buf 0 count) (file_bytes fs p)))
              (view fs) (view z))
          (sym e)
          (written-Updated name offset count buf fs w p f inside fs'.hash (rw e at w'.catalog)),
    )

-- `repack` on a valid file system changes nothing in the dictionary.
pub repack-view : (fs : Filesys) → IsValid fs → (x : CString) → view (repack fs) x ≡ view fs x
repack-view fs w x =
    let r = repack-Repacked fs w in
    view-same fs (repack fs) w.catalog r.valid.catalog x
      (λ p f. (
        (rw r.n_list f.0, r.names p ∙ f.1),
        KeepsContents-file_bytes fs (repack fs) p r.contents f.0,
      ))
      (λ absent q m same. absent q (rw r.n_list at m) (sym (r.names q) ∙ same))
