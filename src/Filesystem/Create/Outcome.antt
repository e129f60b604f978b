-- ===== src/Filesystem/Create/Outcome.antt =====
-- `create_file` on a valid file system: all its outcomes.
use native.Mathlib.Decide.{dec_lt, ℕ_discrete}
use virtual_file_system.Common.{
  ℕ, ◌+◌, ◌^◌, ◌≤◌, ◌<◌, ◌≡◌, ◌≢◌, refl, sym, ◌⊎◌, inl, inr, true, ltb, leb, ◌||◌, Option, none,
  some, [], add64, ok, subst, arith,
}
use virtual_file_system.Structs.{CString, Ptr, Filesys}
use virtual_file_system.Filesystem.Layout.{IsSolid-used}
use virtual_file_system.Filesystem.Valid.{IsValid}
use virtual_file_system.Filesystem.Catalog.{Finds, find_file-Finds}
use virtual_file_system.Filesystem.Create.{find_file, create_file}
use virtual_file_system.Filesystem.Create.Empty
use virtual_file_system.Filesystem.Create.Files.{CreatedFile}
use virtual_file_system.Filesystem.Create.Nonempty.{create_new}
use virtual_file_system.Filesystem.Create.Append.{CreatedEmpty-CreatedFile}

-- The new file, empty or not.
created :
    (name : CString) (length : ℕ) (fs : Filesys)
    → IsValid fs
    → name ≢ []
    → length < 2 ^ 32
    → Finds fs name none
    → find_file name fs ≡ ok none
    → fs.used + length ≤ fs.file_data_len
    → fs.index_count < fs.index_len
    → (fs' : Filesys) × (create_file name length fs ≡ ok (0, fs')) × CreatedFile name length fs fs'
created name length fs w ne small f e room spare = elim (ℕ_discrete length 0) [
  | yes empty ↦
      (let (fs', run, d) =
          Empty.create_new name fs w.catalog w.counted ne (omega arith) f e spare in
        subst
          (λ k. (fs' : Filesys) × (create_file name k fs ≡ ok (0, fs')) × CreatedFile name k fs fs')
          (sym empty) (fs', run, CreatedEmpty-CreatedFile name fs fs' w d))
  | no some_bytes ↦
      create_new name length (omega arith) small fs w.counted w.hashed w.sized w.owned ne room f e
        spare w.catalog w.solid
]

-- What the creation of a file can do.
abbrev pub FileOutcome : CString → ℕ → Filesys → Type 0
FileOutcome name length fs =
    ((create_file name length fs ≡ ok (1, fs)) × ((p : Ptr) × Finds fs name (some p)))
    ⊎ (((create_file name length fs ≡ ok (2, fs))
          × Finds fs name none
          × ((fs.file_data_len < fs.used + length) ⊎ (fs.index_len ≤ fs.index_count)))
        ⊎ (Finds fs name none
            × (fs.used + length ≤ fs.file_data_len)
            × (fs.index_count < fs.index_len)
            × ((fs' : Filesys) × (create_file name length fs ≡ ok (0, fs'))
                × CreatedFile name length fs fs')))

-- The creation of a file of less than 2^32 bytes with a name that is not empty, on a file
-- system whose arrays, layout, entries and hash tree are valid, never aborts, and its searches and
-- loops end. It returns 1 and changes nothing if a file has the name, and else 2 if `length` bytes
-- are not free or dir_table is full. Else it returns 0, also where the free bytes are not in one
-- piece: all parts are valid, there is one file more, it is found by its name and has `length` null
-- bytes, `used` is greater by `length`, and each other file has the name, length and bytes that it
-- had.
pub create_file-CreatedFile :
    (name : CString) (length : ℕ) (fs : Filesys)
    → IsValid fs
    → name ≢ []
    → length < 2 ^ 32
    → FileOutcome name length fs
unfolding create_file
create_file-CreatedFile name length fs w ne small = go (find_file-Finds fs w.catalog name)
  where
    go :
        ((r : Option Ptr) × (find_file name fs ≡ ok r) × Finds fs name r)
        → FileOutcome name length fs
    go (some p, e, f) = inl (rw e refl, (p, f))
    go (none, e, f) = elim (dec_lt fs.file_data_len (fs.used + length)) [
      | yes large ↦
          (let t : (ltb fs.file_data_len (add64 fs.used length) || leb fs.index_len fs.index_count)
                ≡ true =
              ground (arith, IsSolid-used fs w.solid, w.solid.limit) in
            inr (inl (rw e (rw t refl), f, inl large)))
      | no room ↦ elim (dec_lt fs.index_count fs.index_len) [
        | yes spare ↦
            inr (
              inr
                (f, omega arith, spare, created name length fs w ne small f e (omega arith) spare))
        | no full ↦
            (let t : (ltb fs.file_data_len (add64 fs.used length)
                    || leb fs.index_len fs.index_count)
                  ≡ true =
                ground arith in
              inr (inl (rw e (rw t refl), f, inr (omega arith))))
      ]
    ]
