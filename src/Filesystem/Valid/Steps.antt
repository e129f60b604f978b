-- ===== src/Filesystem/Valid/Steps.antt =====
-- Sequences of operations on a valid file system.
use virtual_file_system.Common.{
  ℕ, ◌+◌, ◌^◌, ◌≤◌, ◌<◌, ◌≡◌, ◌≢◌, inl, inr, take, none, some, List, [], ◌∷◌, Run, ok, subst, sym,
  ◌∙◌, arith,
}
use virtual_file_system.Structs.{CString, Ptr, Filesys, Bytes}
use virtual_file_system.Memory.{memcpy}
use virtual_file_system.Filesystem.Repack.{repack}
use virtual_file_system.Filesystem.Create.{create_file}
use virtual_file_system.Filesystem.Create.Outcome.{create_file-CreatedFile}
use virtual_file_system.Filesystem.Delete.{delete_file}
use virtual_file_system.Hash.Verify.{InReach}
use virtual_file_system.Filesystem.Read.{read_file}
use virtual_file_system.Filesystem.Read.Reads.{read_file-bytes}
use virtual_file_system.Filesystem.Write.{write_file}
use virtual_file_system.Filesystem.Catalog.{Finds}
use virtual_file_system.Filesystem.View.{bytes_from}
use virtual_file_system.Arr.Names.{name_at}
use virtual_file_system.Filesystem.Rename.{rename_file}
use virtual_file_system.Filesystem.Rename.Order.{FitsAt}
use virtual_file_system.Filesystem.Rename.Renames.{rename_file-cases, rename_file-IsCatalog_iff}
use virtual_file_system.Filesystem.Valid.Renames.{Renamed-IsValid}
use virtual_file_system.Filesystem.Valid.{IsValid}
use virtual_file_system.Filesystem.Valid.Deletes.{delete_file-IsValid}
use virtual_file_system.Filesystem.Valid.Writes.{IsValid-IsPlaced, write_file-IsValid}
use virtual_file_system.Filesystem.Valid.Repacks.{repack-Repacked}
use virtual_file_system.Filesystem.Valid.Stored.{IsStored}
use virtual_file_system.Filesystem.Valid.Stored.Repacks.{repack-IsStored}
use virtual_file_system.Filesystem.Valid.Stored.Creates.{CreatedFile-IsStored}
use virtual_file_system.Filesystem.Valid.Stored.Changes.{Deleted-IsStored, Renamed-IsStored}

-- A call of an operation, with the code that it returned.
pub data Event : Type 0 where
  created : CString → ℕ → ℕ → Event
  deleted : CString → ℕ → Event
  wrote : CString → ℕ → List ℕ → ℕ → Event
  renamed : CString → CString → ℕ → Event
  packed : Event

-- If no file has the new name, it lies between the names around the file that has the old name.
abbrev pub KeepsOrder : CString → CString → Filesys → Type 0
KeepsOrder old new fs =
    (k : ℕ)
    → k < fs.n_list.size
    → name_at fs.n_list fs.heap k ≡ take 63 old
    → Finds fs new none
    → FitsAt k (take 63 new) fs

-- The call leads from `fs` to the other state. A write is inside the bounds of a file, and a new
-- name keeps the order of the names.
pub data Step (fs : Filesys) : Event → Filesys → Type 0 where
  creates :
      (name : CString) (length code : ℕ) (fs' : Filesys)
      → name ≢ []
      → length < 2 ^ 32
      → create_file name length fs ≡ ok (code, fs')
      → Step fs (created name length code) fs'
  deletes :
      (name : CString) (code : ℕ) (fs' : Filesys)
      → delete_file name fs ≡ ok (code, fs')
      → Step fs (deleted name code) fs'
  writes :
      (name : CString) (offset count code : ℕ) (buf : Bytes) (p : Ptr) (fs' : Filesys)
      → Finds fs name (some p)
      → offset + count ≤ (fs.heap.cell p).length
      → 0 < count
      → write_file name offset count buf fs ≡ ok (code, fs')
      → Step fs (wrote name offset (bytes_from buf 0 count) code) fs'
  renames :
      (old new : CString) (code : ℕ) (fs' : Filesys)
      → new ≢ []
      → KeepsOrder old new fs
      → rename_file old new fs ≡ ok (code, fs')
      → Step fs (renamed old new code) fs'
  repacks : Step fs packed (repack fs)

-- A sequence of calls, the last one first.
pub data Steps (fs : Filesys) : List Event → Filesys → Type 0 where
  start : Steps fs [] fs
  next :
      (events : List Event) (event : Event) (fs1 fs2 : Filesys)
      → Steps fs events fs1
      → Step fs1 event fs2
      → Steps fs (event ∷ events) fs2

-- Two results of the same call have the same state.
pub same_state :
    {run : Run (ℕ × Filesys)} {code code' : ℕ} {fs fs' : Filesys}
    → run ≡ ok (code, fs)
    → run ≡ ok (code', fs')
    → fs ≡ fs'
same_state e e' = cc

-- And the same code.
pub same_code :
    {run : Run (ℕ × Filesys)} {code code' : ℕ} {fs fs' : Filesys}
    → run ≡ ok (code, fs)
    → run ≡ ok (code', fs')
    → code' ≡ code
same_code e e' = cc

Step-IsValid : (event : Event) (fs fs' : Filesys) → IsValid fs → Step fs event fs' → IsValid fs'
Step-IsValid _ fs fs' w (creates name length code _ ne small e) =
    elim (create_file-CreatedFile name length fs w ne small) [
      | inl (e', _) ↦ subst IsValid (same_state e' e) w
      | inr (inl (e', _, _)) ↦ subst IsValid (same_state e' e) w
      | inr (inr (_, _, _, (fs'', e', made))) ↦ subst IsValid (same_state e' e) made.valid
    ]
Step-IsValid _ fs fs' w (deletes name code _ e) = elim (delete_file-IsValid name fs w) [
  | inl (e', _) ↦ subst IsValid (same_state e' e) w
  | inr (_, _, (fs'', e', _, w')) ↦ subst IsValid (same_state e' e) w'
]
Step-IsValid _ fs fs' w (writes name offset count code buf p _ f inside positive e) =
    let (fs'', e', _, w') = write_file-IsValid name offset count buf fs p w f inside positive in
    subst IsValid (same_state e' e) w'
Step-IsValid _ fs fs' w (renames old new code _ ne ordered e) =
    elim (rename_file-cases old new fs w.catalog) [
      | inl (e', _) ↦ subst IsValid (same_state e' e) w
      | inr (inl (p, f, e', _)) ↦ subst IsValid (same_state e' e) w
      | inr (inr (inl (p, f, (q, f', e')))) ↦ subst IsValid (same_state e' e) w
      | inr (inr (inr (k, inside, name, free, _))) ↦
          (let (fs'', e', r, valid) =
              rename_file-IsCatalog_iff old new fs k w.catalog inside name free ne in
            subst IsValid (same_state e' e)
              (Renamed-IsValid k new fs fs'' r w (valid.1 (ordered k inside name free))))
    ]
Step-IsValid _ fs _ w repacks = (repack-Repacked fs w).valid

Step-IsStored :
    (event : Event) (fs fs' : Filesys) → IsValid fs → IsStored fs → Step fs event fs' → IsStored fs'
Step-IsStored _ fs fs' w s (creates name length code _ ne small e) =
    elim (create_file-CreatedFile name length fs w ne small) [
      | inl (e', _) ↦ subst IsStored (same_state e' e) s
      | inr (inl (e', _, _)) ↦ subst IsStored (same_state e' e) s
      | inr (inr (_, _, _, (fs'', e', made))) ↦
          subst IsStored (same_state e' e) (CreatedFile-IsStored name length fs fs'' w s made)
    ]
Step-IsStored _ fs fs' w s (deletes name code _ e) = elim (delete_file-IsValid name fs w) [
  | inl (e', _) ↦ subst IsStored (same_state e' e) s
  | inr (p, f, (fs'', e', d, _)) ↦
      subst IsStored (same_state e' e) (Deleted-IsStored fs fs'' w s p f.0 d)
]
Step-IsStored _ fs fs' w s (writes name offset count code buf p _ f inside positive e) =
    let (fs'', e', r, _) = write_file-IsValid name offset count buf fs p w f inside positive in
    subst IsStored (sym r ∙ same_state e' e) (record { entries = s.entries; empties = s.empties })
Step-IsStored _ fs fs' w s (renames old new code _ ne ordered e) =
    elim (rename_file-cases old new fs w.catalog) [
      | inl (e', _) ↦ subst IsStored (same_state e' e) s
      | inr (inl (p, f, e', _)) ↦ subst IsStored (same_state e' e) s
      | inr (inr (inl (p, f, (q, f', e')))) ↦ subst IsStored (same_state e' e) s
      | inr (inr (inr (k, inside, name, free, _))) ↦
          (let (fs'', e', r, valid) =
              rename_file-IsCatalog_iff old new fs k w.catalog inside name free ne in
            subst IsStored (same_state e' e)
              (Renamed-IsStored k new fs fs'' w s (valid.1 (ordered k inside name free)) inside r))
    ]
Step-IsStored _ fs _ w s repacks = repack-IsStored fs w s

-- All but dir_table stays valid in a sequence of calls.
pub IsValid-Steps :
    (fs : Filesys) (events : List Event) (fs' : Filesys)
    → IsValid fs
    → Steps fs events fs'
    → IsValid fs'
IsValid-Steps fs _ _ w start = w
IsValid-Steps fs _ _ w (next events event fs1 fs2 before step) =
    Step-IsValid event fs1 fs2 (IsValid-Steps fs events fs1 w before) step

-- Whatever files with names that are not empty and less than 2^32 bytes are created, deleted, written
-- inside their bounds, renamed to such names without a change of their order, and packed, in any
-- sequence and with any results, from a valid file system on: the arrays, the layout of file_data,
-- the marks of taken entries and the hash tree stay valid. So do the bytes of dir_table: each file's
-- entry holds its name with the terminator, its length and, if it is below 2^32, its offset, and
-- each free entry begins with a null byte.
pub Steps-IsValid :
    (fs : Filesys) (events : List Event) (fs' : Filesys)
    → IsValid fs
    → IsStored fs
    → Steps fs events fs'
    → IsValid fs' × IsStored fs'
Steps-IsValid fs _ _ w s start = (w, s)
Steps-IsValid fs _ _ w s (next events event fs1 fs2 before step) =
    let (w', s') = Steps-IsValid fs events fs1 w s before in
    (Step-IsValid event fs1 fs2 w' step, Step-IsStored event fs1 fs2 w' s' step)

-- From a valid file system on, after any sequence of creations and renamings with a new name that
-- is not empty, where a creation has less than 2^32 bytes and a renaming keeps the order, of
-- deletions, writes inside the bounds of files, and packings: a read inside the bounds of a file,
-- and inside the first 2^31 bytes of file_data (with at most 2^24 leaves in the tree), returns 0 and
-- the bytes of the file. It never returns 3 for a wrong hash.
pub read_file-Steps :
    (events : List Event) (name : CString) (offset count : ℕ) (buf : Bytes) (fs fs' : Filesys)
    (p : Ptr)
    → IsValid fs
    → Steps fs events fs'
    → Finds fs' name (some p)
    → InReach fs' ((fs'.heap.cell p).offset + offset) count
    → offset + count ≤ (fs'.heap.cell p).length
    → 0 < count
    → (read_file name offset count buf fs'
        ≡ ok (0, memcpy buf 0 fs'.file ((fs'.heap.cell p).offset + offset) count))
read_file-Steps events name offset count buf fs fs' p w steps f reach inside positive =
    let w' = IsValid-Steps fs events fs' w steps in
    read_file-bytes name offset count buf fs' p w'.catalog w'.hashed w'.sized f
      (IsValid-IsPlaced fs' w' p f.0 (omega arith)) reach inside positive
