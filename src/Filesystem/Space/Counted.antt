-- ===== src/Filesystem/Space/Counted.antt =====
-- The number of entries of dir_table that are taken, which `index_count` holds.
use virtual_file_system.Common.{
  ℕ, zero, suc, ◌+◌, ◌≤◌, ◌<◌, ◌≡◌, ◌≢◌, refl, ◌==◌, inl, inr, true, false, Bool-cases, update, ok,
  if◌then◌else◌, arith,
}
use virtual_file_system.Structs.{Filesys}
use virtual_file_system.Filesystem.Space.{new_file_index}
use virtual_file_system.Filesystem.Space.Index.{new_file_index-lowest}

-- How many of the first `n` entries are taken.
abbrev pub count_taken : (ℕ → ℕ) → ℕ → ℕ
count_taken index zero = 0
count_taken index (suc n) = count_taken index n + (if index n == 0 then 0 else 1)

-- `index_count` is the number of taken entries.
abbrev pub IsCounted : Filesys → Type 0
IsCounted fs = count_taken fs.index fs.index_len ≡ fs.index_count

pub count_taken-all :
    (index : ℕ → ℕ) (n : ℕ) → ((j : ℕ) → j < n → index j ≢ 0) → count_taken index n ≡ n
count_taken-all index zero h = refl
count_taken-all index (suc n) h =
    let test : (index n == 0) ≡ false = ground (arith, h n (omega arith)) in
    let rest : count_taken index n ≡ n = count_taken-all index n (λ j q. h j (omega arith)) in
    rw test (omega arith)

count_taken-later :
    (index : ℕ → ℕ) (n i x : ℕ) → n ≤ i → count_taken (update index i x) n ≡ count_taken index n
count_taken-later index zero i x q = refl
count_taken-later index (suc n) i x q =
    let other : (n == i) ≡ false = ground arith in
    let rest : count_taken (update index i x) n ≡ count_taken index n =
      count_taken-later index n i x (omega arith) in
    rw other (rw rest refl)

-- An entry that was free is counted once when it is taken.
pub count_taken-update :
    (index : ℕ → ℕ) (n i : ℕ)
    → i < n
    → index i ≡ 0
    → count_taken (update index i 1) n ≡ count_taken index n + 1
count_taken-update index zero i q free = absurd (omega arith)
count_taken-update index (suc n) i q free = elim (Bool-cases (n == i)) [
  | inl e ↦
      (let here : n ≡ i = ground arith in
        let rest : count_taken (update index i 1) n ≡ count_taken index n =
          count_taken-later index n i 1 (omega arith) in
        let test : (index n == 0) ≡ true = ground arith in rw (e, test) (rw rest (omega arith)))
  | inr e ↦
      (let rest : count_taken (update index i 1) n ≡ count_taken index n + 1 =
          count_taken-update index n i (ground arith) free in
        rw e (rw rest (omega arith)))
]

-- An entry that was taken is no longer counted when it is released.
pub count_taken-release :
    (index : ℕ → ℕ) (n i : ℕ)
    → i < n
    → index i ≢ 0
    → count_taken (update index i 0) n + 1 ≡ count_taken index n
count_taken-release index zero i q taken = absurd (omega arith)
count_taken-release index (suc n) i q taken = elim (Bool-cases (n == i)) [
  | inl e ↦
      (let here : n ≡ i = ground arith in
        let rest : count_taken (update index i 0) n ≡ count_taken index n =
          count_taken-later index n i 0 (omega arith) in
        let test : (index n == 0) ≡ false = ground arith in rw (e, test) (rw rest (omega arith)))
  | inr e ↦
      (let rest : count_taken (update index i 0) n + 1 ≡ count_taken index n =
          count_taken-release index n i (ground arith) taken in
        rw e (omega (arith, rest)))
]

-- If `index_count` counts the taken entries and is below their number, there is a free entry.
pub new_file_index-free :
    (fs : Filesys)
    → IsCounted fs
    → fs.index_count < fs.index_len
    → (i : ℕ) × (new_file_index fs ≡ ok i)
      × (i < fs.index_len)
      × (fs.index i ≡ 0)
      × ((j : ℕ) → j < i → fs.index j ≢ 0)
new_file_index-free fs c spare = elim (new_file_index-lowest fs) [
  | inl found ↦ found
  | inr (_, all) ↦ absurd (omega (arith, count_taken-all fs.index fs.index_len all, c))
]
