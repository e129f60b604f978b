-- ===== src/Filesystem/Space/Index.antt =====
-- `new_file_index` takes the lowest free entry of dir_table.
use virtual_file_system.Common.{
  ℕ, zero, suc, ◌+◌, ◌≤◌, ◌<◌, ◌≡◌, ◌≢◌, refl, ◌⊎◌, inl, inr, ◌==◌, false, Bool-cases, Option, none,
  some, Run, ok, abort, arith,
}
use virtual_file_system.Structs.{Filesys}
use virtual_file_system.Filesystem.Space.{index_loop, new_file_index}

-- What the search for a free entry finds from entry `i` on, up to entry `n`.
abbrev pub FindsFree : (ℕ → ℕ) → ℕ → ℕ → Option ℕ → Type 0
FindsFree index i n none = (j : ℕ) → i ≤ j → j < n → index j ≢ 0
FindsFree index i n (some k) =
    (i ≤ k) × (k < n) × (index k ≡ 0) × ((j : ℕ) → i ≤ j → j < k → index j ≢ 0)

FindsFree-step :
    (index : ℕ → ℕ) (i n : ℕ) (r : Option ℕ)
    → (index i == 0) ≡ false
    → FindsFree index (i + 1) n r
    → FindsFree index i n r
FindsFree-step index i n none e rest = λ j p q. elim (Bool-cases (j == i)) [
  | inl same ↦ (let here : j ≡ i = ground arith in rw here (ground arith))
  | inr other ↦ rest j (ground arith) q
]
FindsFree-step index i n (some k) e (p, q, free, rest) = (
  omega arith,
  q,
  free,
  λ j p' q'. elim (Bool-cases (j == i)) [
    | inl same ↦ (let here : j ≡ i = ground arith in rw here (ground arith))
    | inr other ↦ rest j (ground arith) q'
  ],
)

index_loop-FindsFree : (k i : ℕ) (index : ℕ → ℕ) → FindsFree index i (i + k) (index_loop k i index)
unfolding index_loop
index_loop-FindsFree zero i index = λ j p q. absurd (omega arith)
index_loop-FindsFree (suc k) i index = elim (Bool-cases (index i == 0)) [
  | inl e ↦ rw e (omega arith, omega arith, ground arith, λ j p q. absurd (omega arith))
  | inr e ↦
      (let next : i + suc k ≡ i + 1 + k = omega arith in
        rw e (
          rw next (
            FindsFree-step index i (i + 1 + k) (index_loop k (i + 1) index) e
              (index_loop-FindsFree k (i + 1) index))))
]

-- `new_file_index` returns the lowest entry that is free if there is one, and aborts if none is.
pub new_file_index-lowest :
    (fs : Filesys)
    → ((i : ℕ) × (new_file_index fs ≡ ok i)
        × (i < fs.index_len)
        × (fs.index i ≡ 0)
        × ((j : ℕ) → j < i → fs.index j ≢ 0))
      ⊎ ((new_file_index fs ≡ abort) × ((j : ℕ) → j < fs.index_len → fs.index j ≢ 0))
unfolding new_file_index
new_file_index-lowest fs =
    go (index_loop fs.index_len 0 fs.index) (index_loop-FindsFree fs.index_len 0 fs.index)
  where
    go :
        (r : Option ℕ)
        → FindsFree fs.index 0 (0 + fs.index_len) r
        → ((i : ℕ) × (elim r as (λ _. Run ℕ) [ none ↦ abort | some k ↦ ok k ] ≡ ok i)
            × (i < fs.index_len)
            × (fs.index i ≡ 0)
            × ((j : ℕ) → j < i → fs.index j ≢ 0))
          ⊎ ((elim r as (λ _. Run ℕ) [ none ↦ abort | some k ↦ ok k ] ≡ abort)
              × ((j : ℕ) → j < fs.index_len → fs.index j ≢ 0))
    go none all = inr (refl, λ j q. all j (omega arith) (omega arith))
    go (some i) (p, q, free, rest) = inl (i, refl, omega arith, free, λ j l. rest j (omega arith) l)
