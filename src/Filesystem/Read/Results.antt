-- ===== src/Filesystem/Read/Results.antt =====
-- What the results of `read_file` and `file_size` mean.
use native.Mathlib.Decide.{ℕ_discrete}
use virtual_file_system.Common.{
  ℕ, ◌+◌, ◌-◌, ◌/◌, ◌^◌, ◌<◌, ◌≤◌, ◌≡◌, ◌≢◌, refl, ◌⊎◌, inl, inr, ltb, ◌==◌, true, false,
  Bool-cases, Option, none, some, pos, minus_one, add64, ok, arith,
}
use virtual_file_system.Structs.{block_len, CString, Bytes, Ptr, Filesys}
use virtual_file_system.Memory.{memcpy}
use virtual_file_system.Hash.{verify_hash_range}
use virtual_file_system.Hash.Verify.{
  OnPath, NodeValid, InReach, verify_hash_range_iff, verify_hash_range-empty,
}
use virtual_file_system.Filesystem.Create.{find_file}
use virtual_file_system.Filesystem.Delete.{file_size}
use virtual_file_system.Filesystem.Read.{read_file}
use virtual_file_system.Filesystem.Catalog.{IsCatalog, Finds, find_file-Finds}

-- `file_size` never aborts on a file system whose arrays are valid: it returns the length of the
-- file that has the name, or -1 if no file has it.
pub file_size-Finds :
    (name : CString) (fs : Filesys)
    → IsCatalog fs
    → ((file_size name fs ≡ ok minus_one) × Finds fs name none)
      ⊎ ((p : Ptr) × Finds fs name (some p)
          × (file_size name fs ≡ ok (pos (fs.heap.cell p).length)))
unfolding file_size
file_size-Finds name fs v = go (find_file-Finds fs v name)
  where
    go :
        ((r : Option Ptr) × (find_file name fs ≡ ok r) × Finds fs name r)
        → ((file_size name fs ≡ ok minus_one) × Finds fs name none)
          ⊎ ((p : Ptr) × Finds fs name (some p)
              × (file_size name fs ≡ ok (pos (fs.heap.cell p).length)))
    go (none, e, f) = inl (rw e refl, f)
    go (some p, e, f) = inr (p, f, rw e refl)

-- A read that returned 0: the range is in the file, its hashes were right, and it was copied.
pub record HasRead (name : CString) (offset count : ℕ) (buf : Bytes) (fs : Filesys) (buf' : Bytes)
    : Type 0 where
  pub p : Ptr
  pub finds : Finds fs name (some p)
  pub inside : offset + count ≤ (fs.heap.cell p).length
  pub verified :
      0 < count
      → (b m : ℕ) → ((fs.heap.cell p).offset + offset) / block_len ≤ b
      → b ≤ ((fs.heap.cell p).offset + offset + count - 1) / block_len
      → OnPath (fs.leaf_offset + b) m
      → NodeValid fs m
  pub copied : 0 < count → buf' ≡ memcpy buf 0 fs.file ((fs.heap.cell p).offset + offset) count
  pub nothing : count ≡ 0 → buf' ≡ buf

-- The file with the name lies in the first 2^31 bytes of file_data, if it has bytes.
abbrev pub FileInReach : CString → Filesys → Type 0
FileInReach name fs =
    (p : Ptr)
    → Finds fs name (some p)
    → 0 < (fs.heap.cell p).length
    → InReach fs (fs.heap.cell p).offset (fs.heap.cell p).length

-- What `read_file` can do.
abbrev pub ReadOutcome : CString → ℕ → ℕ → Bytes → Filesys → Type 0
ReadOutcome name offset count buf fs =
    ((code : ℕ) × (code ≢ 0) × (read_file name offset count buf fs ≡ ok (code, buf)))
    ⊎ ((buf' : Bytes) × (read_file name offset count buf fs ≡ ok (0, buf'))
        × HasRead name offset count buf fs buf')

-- On a file system whose arrays are valid, `read_file` of a range whose end is below 2^64 never
-- aborts, if the file that has the name, if one has and is not empty, lies in the first 2^31
-- bytes of file_data and the tree has at most 2^24 leaves. Either it returns a code other than 0
-- and leaves the buffer as it is, or it returns 0, a file has the name, the range is inside of
-- it, every node of the hash tree from a block of the range up to the root holds the right hash,
-- and the bytes of the range are in the buffer.
pub read_file-HasRead :
    (name : CString) (offset count : ℕ) (buf : Bytes) (fs : Filesys)
    → IsCatalog fs
    → FileInReach name fs
    → offset + count < 2 ^ 64
    → ReadOutcome name offset count buf fs
unfolding read_file
read_file-HasRead name offset count buf fs v reach whole = go (find_file-Finds fs v name)
  where
    go :
        ((r : Option Ptr) × (find_file name fs ≡ ok r) × Finds fs name r)
        → ReadOutcome name offset count buf fs
    go (none, e, f) = inl (1, omega arith, rw e refl)
    go (some p, e, f) = elim (Bool-cases (ltb (fs.heap.cell p).length (add64 offset count))) [
      | inl t ↦ inl (2, omega arith, rw e (rw t refl))
      | inr t ↦
          (let end : add64 offset count ≡ offset + count = omega (arith, whole) in
            let inside : offset + count ≤ (fs.heap.cell p).length = ground (arith, end) in
            elim (ℕ_discrete count 0) [
              | yes z ↦
                  (let unverified : (verify_hash_range (add64 (fs.heap.cell p).offset offset) count
                            fs
                          == 0)
                        ≡ true =
                      rw
                        (verify_hash_range-empty fs (add64 (fs.heap.cell p).offset offset) count
                          (ground arith))
                        refl in
                    let zero_count : (count == 0) ≡ true = ground arith in
                    inr (
                      buf,
                      rw e (rw t (rw unverified (rw zero_count refl))),
                      record {
                        p = p;
                        finds = f;
                        inside = inside;
                        verified = λ positive. absurd (omega arith);
                        copied = λ positive. absurd (omega arith);
                        nothing = λ _. refl;
                      },
                    ))
              | no ne ↦
                  (let at = reach p f (omega arith) in
                    let start : ℕ = (fs.heap.cell p).offset + offset in
                    let sum : add64 (fs.heap.cell p).offset offset
                        ≡ (fs.heap.cell p).offset + offset =
                      omega (arith, at.range) in
                    let some_count : (count == 0) ≡ false = ground arith in
                    elim (Bool-cases (verify_hash_range start count fs == 0)) [
                      | inr t' ↦ inl (3, omega arith, rw e (rw t (rw sum (rw t' refl))))
                      | inl t' ↦ inr (
                        memcpy buf 0 fs.file start count,
                        rw e (rw t (rw sum (rw t' (rw some_count refl)))),
                        record {
                          p = p;
                          finds = f;
                          inside = inside;
                          verified = λ positive.
                              (verify_hash_range_iff fs start count positive (record {
                                range = omega (arith, at.range);
                                leaves = at.leaves;
                              })).0
                                (ground arith);
                          copied = λ _. refl;
                          nothing = λ z. absurd (ne z);
                        },
                      )
                    ])
            ])
    ]
