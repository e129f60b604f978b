-- ===== src/Fuse/Transfers.antt =====
-- What `myfuse_read` and `myfuse_write` transfer.
use native.Mathlib.Decide.{ℕ_discrete}
use virtual_file_system.Common.{
  ℕ, ◌+◌, ◌-◌, ◌^◌, ◌%◌, ◌≤◌, ◌<◌, ◌≡◌, ◌≢◌, refl, ap, ◌∙◌, true, false, ltb, leb, Bool-cases, inl,
  inr, if◌then◌else◌, some, [], pos, add64, sub64, ok, ◌>>=◌, subst, arith,
}
use virtual_file_system.Structs.{CString, Bytes, Ptr, Filesys}
use virtual_file_system.Memory.{memcpy}
use virtual_file_system.Memory.Copy.{memcpy-inside, memcpy-front, memcpy-none}
use virtual_file_system.Hash.{verify_hash_range}
use virtual_file_system.Hash.Range.{IsHashed}
use virtual_file_system.Hash.Verify.{InReach}
use virtual_file_system.Filesystem.Catalog.{IsCatalog, Finds}
use virtual_file_system.Filesystem.Create.{find_file}
use virtual_file_system.Filesystem.Delete.{file_size}
use virtual_file_system.Filesystem.Read.{read_file}
use virtual_file_system.Filesystem.Read.Reads.{IsSized, IsPlaced, find_file-some, read_file-bytes}
use virtual_file_system.Filesystem.Write.{to_int32, write_file}
use virtual_file_system.Filesystem.Write.InPlace.{write_file-IsHashed}
use virtual_file_system.Fuse.{value, to_size, filesystem, path_name, myfuse_read, myfuse_write}
use virtual_file_system.Fuse.Paths.{path_of, is_root-path_of}

pub to_int32-small : (n : ℕ) → n < 2 ^ 31 → to_int32 (pos n) ≡ pos n
unfolding to_int32
to_int32-small n h =
    let e : n % 2 ^ 32 ≡ n = omega arith in
    rw e (let t : ltb n (2 ^ 31) ≡ true = ground arith in rw t refl)

-- A read of no bytes, in a file that is not read behind its end.
read_file-none :
    (name : CString) (offset : ℕ) (buf : Bytes) (fs : Filesys) (p : Ptr)
    → find_file name fs ≡ ok (some p)
    → add64 offset 0 ≤ (fs.heap.cell p).length
    → read_file name offset 0 buf fs ≡ ok (0, buf)
unfolding read_file verify_hash_range
read_file-none name offset buf fs p e inside =
    let t : ltb (fs.heap.cell p).length (add64 offset 0) ≡ false = ground arith in rw e (rw t refl)

-- `read_file-bytes`, also for no bytes.
read_file-range :
    (name : CString) (offset count : ℕ) (buf : Bytes) (fs : Filesys) (p : Ptr)
    → IsCatalog fs
    → IsHashed fs
    → IsSized fs
    → Finds fs name (some p)
    → IsPlaced fs p
    → InReach fs ((fs.heap.cell p).offset + offset) count
    → offset + count ≤ (fs.heap.cell p).length
    → (read_file name offset count buf fs
        ≡ ok (0, memcpy buf 0 fs.file ((fs.heap.cell p).offset + offset) count))
read_file-range name offset count buf fs p v hashed sized f placed reach inside =
    elim (ℕ_discrete count 0) [
      | yes e ↦
          (let whole : add64 offset 0 ≤ (fs.heap.cell p).length = omega (arith, sized.limit) in
            rw e (
              rw (memcpy-none buf 0 fs.file ((fs.heap.cell p).offset + offset) 0)
                (read_file-none name offset buf fs p (find_file-some name fs p v f) whole)))
      | no ne ↦
          read_file-bytes name offset count buf fs p v hashed sized f placed reach inside
            (omega arith)
    ]

-- The smaller number.
abbrev pub at_most : ℕ → ℕ → ℕ
at_most n limit = if ltb limit n then limit else n

-- On a file system whose arrays, hash tree and sizes are valid, with at most 2^24 leaves,
-- `myfuse_read` of up to 2^31 - 1 bytes at any offset in or behind a file that lies in the first
-- 2^31 bytes of file_data returns the number of bytes that are both asked for and in the file
-- from the offset on, which is 0 at the end and behind it, and copies these bytes to the front of
-- the buffer, and no others.
pub myfuse_read-bytes :
    (name : CString) (length offset : ℕ) (buf : Bytes) (fs : Filesys) (p : Ptr)
    → name ≢ []
    → IsCatalog fs
    → IsHashed fs
    → IsSized fs
    → Finds fs name (some p)
    → IsPlaced fs p
    → InReach fs (fs.heap.cell p).offset (fs.heap.cell p).length
    → length < 2 ^ 31
    → myfuse_read (some (path_of name)) (some buf) length (pos offset) (some fs)
      ≡ ok (
        value (pos (at_most length ((fs.heap.cell p).length - offset))),
        some (
            memcpy buf 0 fs.file
              ((fs.heap.cell p).offset + offset)
              (at_most length ((fs.heap.cell p).length - offset))),
      )
unfolding myfuse_read filesystem path_name file_size to_size
myfuse_read-bytes name length offset buf fs p ne v hashed sized f placed reach small =
    rw (is_root-path_of name ne) (
      rw found (elim (Bool-cases (leb size offset)) [
        | inl behind ↦
            (let nothing : at_most length (size - offset) ≡ 0 = ground arith in
              rw behind (rw nothing (rw (memcpy-none buf 0 fs.file (start + offset) 0) refl)))
        | inr before ↦
            (let rest : sub64 size offset ≡ size - offset = ground (arith, sized.limit) in
              rw before (
                rw rest (
                  rw
                    (read_file-range name offset (at_most length (size - offset)) buf fs p v hashed
                      sized f placed
                      (record { range = ground (arith, reach.range); leaves = reach.leaves })
                      (ground arith))
                    (rw (to_int32-small (at_most length (size - offset)) (ground arith)) refl))))
      ]))
  where
    size : ℕ
    size = (fs.heap.cell p).length

    start : ℕ
    start = (fs.heap.cell p).offset

    found : find_file name fs ≡ ok (some p)
    found = find_file-some name fs p v f

module _ (name : CString) (length offset : ℕ) (buf : Bytes) (fs : Filesys) (p : Ptr)
    (ne : name ≢ []) (v : IsCatalog fs) (f : Finds fs name (some p)) where
  write_called :
      (written : ℕ)
      → offset ≤ (fs.heap.cell p).length
      → (if ltb
            (sub64 fs.file_data_len fs.used)
            (sub64 (add64 offset length) (fs.heap.cell p).length)
          then sub64 fs.file_data_len fs.used
          else length)
        ≡ written
      → myfuse_write (some (path_of name)) (some buf) length (pos offset) (some fs) ≡ (do
        (_, fs') ← write_file name offset written (memcpy (λ _. 0) 0 buf 0 written) fs
        ok (value (to_int32 (pos written)), fs'))
  unfolding myfuse_write filesystem path_name file_size to_size
  write_called written inside e =
      let t : ltb (fs.heap.cell p).length offset ≡ false = ground arith in
      rw (is_root-path_of name ne) (rw (find_file-some name fs p v f) (rw t (rw e refl)))

-- On a file system whose arrays, hash tree and sizes are valid, with at most 2^24 leaves, and
-- where `used` counts at least the bytes of the file and is at most the length of file_data, what
-- `myfuse_write` writes, 1 to 2^31 - 1 bytes up to exactly the end of a file that lies in the
-- first 2^31 bytes of file_data, is read back: both calls return the number of bytes, and the
-- buffer of `myfuse_read` begins with the bytes that were written.
pub myfuse_read-myfuse_write :
    (name : CString) (length offset : ℕ) (buf dst : Bytes) (fs : Filesys) (p : Ptr)
    → name ≢ []
    → IsCatalog fs
    → IsHashed fs
    → IsSized fs
    → Finds fs name (some p)
    → IsPlaced fs p
    → InReach fs (fs.heap.cell p).offset (fs.heap.cell p).length
    → offset + length ≡ (fs.heap.cell p).length
    → 0 < length
    → length < 2 ^ 31
    → (fs.heap.cell p).length ≤ fs.used
    → fs.used ≤ fs.file_data_len
    → (fs' : Filesys) × (myfuse_write (some (path_of name)) (some buf) length (pos offset) (some fs)
        ≡ ok (value (pos length), fs'))
      × ((dst' : Bytes) × (myfuse_read
              (some (path_of name))
              (some dst)
              length
              (pos offset)
              (some fs')
            ≡ ok (value (pos length), some dst'))
          × ((k : ℕ) → k < length → dst' k ≡ buf k))
myfuse_read-myfuse_write name length offset buf dst fs p ne v hashed sized f placed reach ends
      positive small counted used =
    let temp : Bytes = memcpy (λ _. 0) 0 buf 0 length in
    let (fs', e, frame, v', hashed') =
      write_file-IsHashed name offset length temp fs p v hashed sized f placed (omega arith)
        positive counted used in
    let start : ℕ = (fs.heap.cell p).offset + offset in
    let written : Bytes = memcpy fs.file start temp 0 length in
    let after : Filesys = record fs { file = written; hash = fs'.hash } in
    let fits : ltb (sub64 fs.file_data_len fs.used)
          (sub64 (add64 offset length) (fs.heap.cell p).length)
        ≡ false =
      ground (arith, sized.limit) in
    let all : at_most length ((fs.heap.cell p).length - offset) ≡ length = ground arith in
    (
      after,
      write_called name length offset buf fs p ne v f length (omega arith) (rw fits refl)
          ∙ rw e (rw (to_int32-small length small) (ap (λ x. ok (value (pos length), x)) frame)),
      (
        memcpy dst 0 written start length,
        rw all at (
            myfuse_read-bytes name length offset dst after p ne (subst IsCatalog frame v')
              (subst IsHashed frame hashed') (record { blocks = sized.blocks; limit = sized.limit })
              f placed (record { range = reach.range; leaves = reach.leaves }) small),
        λ k h.
            memcpy-front dst written start length k h
            ∙ memcpy-inside fs.file start temp 0 length k h
            ∙ memcpy-front (λ _. 0) buf 0 length (0 + k) (omega arith)
            ∙ ap buf (omega arith),
      ),
    )
