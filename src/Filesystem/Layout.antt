-- ===== src/Filesystem/Layout.antt =====
-- The layout of file_data: files with bytes in the order of their offsets, then the empty ones.
pub mod Splice
use native.Mathlib.Decide.{dec_lt, ℕ_discrete}
use virtual_file_system.Common.{
  ℕ, zero, suc, ◌+◌, ◌-◌, ◌≤◌, ◌<◌, ◌≡◌, ◌≢◌, refl, sym, ap, ◌∙◌, ◌⊎◌, inl, inr, true, false, ltb,
  leb, if◌then◌else◌, none, some, arith,
}
use virtual_file_system.Structs.{max_file_data_len, Ptr, Heap, Arr, Filesys}
use virtual_file_system.Helper.{nonzero_loop, find_next_nonzero_file}
use virtual_file_system.Arr.Insert.{IsIndexed, list-injective}
use virtual_file_system.Filesystem.Repack.Moves.{offset_at, length_at, IsLaidOut, chain}

-- f 0 + ... + f (n - 1)
abbrev pub sum_below : (ℕ → ℕ) → ℕ → ℕ
sum_below f zero = 0
sum_below f (suc n) = sum_below f n + f n

pub sum_below-le : (f : ℕ → ℕ) (i n : ℕ) → i ≤ n → sum_below f i ≤ sum_below f n
sum_below-le f i zero q = let e : i ≡ 0 = omega arith in rw e (omega arith)
sum_below-le f i (suc n) q = elim (ℕ_discrete i (suc n)) [
  | yes e ↦ rw e (omega arith)
  | no ne ↦ omega (arith, sum_below-le f i n (omega arith))
]

pub sum_below-zero : (f : ℕ → ℕ) (n : ℕ) → ((j : ℕ) → j < n → f j ≡ 0) → sum_below f n ≡ 0
sum_below-zero f zero h = refl
sum_below-zero f (suc n) h =
    omega (arith, sum_below-zero f n (λ j q. h j (omega arith)), h n (omega arith))

pub sum_below-last : (f : ℕ → ℕ) (i : ℕ) → 0 < i → sum_below f i ≡ sum_below f (i - 1) + f (i - 1)
sum_below-last f zero q = absurd (omega arith)
sum_below-last f (suc i) q = let e : suc i - 1 ≡ i = omega arith in rw e refl

pub sum_below-same :
    (f g : ℕ → ℕ) (n : ℕ) → ((j : ℕ) → j < n → f j ≡ g j) → sum_below f n ≡ sum_below g n
sum_below-same f g zero h = refl
sum_below-same f g (suc n) h =
    rw (sum_below-same f g n (λ j q. h j (omega arith)), h n (omega arith)) refl

-- A file has bytes inside file_data, or is empty and stands at 2^32.
abbrev pub Lies : Filesys → ℕ → Type 0
Lies fs i =
    ((offset_at fs.o_list fs.heap i < max_file_data_len)
      × (0 < length_at fs.o_list fs.heap i)
      × (offset_at fs.o_list fs.heap i + length_at fs.o_list fs.heap i ≤ fs.file_data_len))
    ⊎ ((offset_at fs.o_list fs.heap i ≡ max_file_data_len) × (length_at fs.o_list fs.heap i ≡ 0))

-- The files stand in the order of their offsets and do not overlap, none was resized to 0 bytes,
-- and `used` is the number of their bytes.
pub record IsSolid (fs : Filesys) : Type 0 where
  pub apart :
      (i : ℕ)
      → i + 1 < fs.o_list.size
      → offset_at fs.o_list fs.heap i + length_at fs.o_list fs.heap i
        ≤ offset_at fs.o_list fs.heap (i + 1)
  pub lies : (i : ℕ) → i < fs.o_list.size → Lies fs i
  pub total : sum_below (length_at fs.o_list fs.heap) fs.o_list.size ≡ fs.used
  pub limit : fs.file_data_len ≤ max_file_data_len

-- The layout depends on the offsets and lengths of the files in their order, and on `used`.
pub IsSolid-same :
    (fs fs' : Filesys)
    → fs'.o_list ≡ fs.o_list
    → ((q : Ptr) → (fs'.heap.cell q).offset ≡ (fs.heap.cell q).offset)
    → ((q : Ptr) → (fs'.heap.cell q).length ≡ (fs.heap.cell q).length)
    → fs'.used ≡ fs.used
    → fs'.file_data_len ≡ fs.file_data_len
    → IsSolid fs
    → IsSolid fs'
IsSolid-same fs fs' o_same offset length used len v = record {
  apart = rw o_same (λ i q.
      rw (offset (fs.o_list.list i), length (fs.o_list.list i), offset (fs.o_list.list (i + 1)))
        (v.apart i q));
  lies =
      rw o_same
        (λ i q. rw (offset (fs.o_list.list i), length (fs.o_list.list i), len) (v.lies i q));
  total =
      rw (o_same, used)
        (sum_below-same (length_at fs.o_list fs'.heap) (length_at fs.o_list fs.heap) fs.o_list.size
            (λ j q. length (fs.o_list.list j))
          ∙ v.total);
  limit = rw len v.limit;
}

module _ (fs : Filesys) (v : IsSolid fs) where
  pub apart_all :
      (i j : ℕ)
      → i < j
      → j < fs.o_list.size
      → offset_at fs.o_list fs.heap i + length_at fs.o_list fs.heap i
        ≤ offset_at fs.o_list fs.heap j
  apart_all i j p q =
      chain (offset_at fs.o_list fs.heap) (length_at fs.o_list fs.heap) fs.o_list.size v.apart i j p
        q

  -- The files before a file end in front of it.
  sum_below-offset :
      (n : ℕ)
      → n < fs.o_list.size
      → sum_below (length_at fs.o_list fs.heap) n ≤ offset_at fs.o_list fs.heap n
  sum_below-offset zero q = omega arith
  sum_below-offset (suc n) q =
      let next : suc n ≡ n + 1 = omega arith in
      let apart : offset_at fs.o_list fs.heap n + length_at fs.o_list fs.heap n
          ≤ offset_at fs.o_list fs.heap (suc n) =
        rw next (v.apart n (omega arith)) in
      omega (arith, sum_below-offset n (omega arith), apart)

  sum_below-len :
      (n : ℕ) → n ≤ fs.o_list.size → sum_below (length_at fs.o_list fs.heap) n ≤ fs.file_data_len
  sum_below-len zero q = omega arith
  sum_below-len (suc n) q = elim (v.lies n (omega arith)) [
    | inl (_, _, fits) ↦ omega (arith, sum_below-offset n (omega arith))
    | inr (_, empty) ↦ omega (arith, sum_below-len n (omega arith))
  ]

  -- `used` is no greater than file_data.
  pub IsSolid-used : fs.used ≤ fs.file_data_len
  IsSolid-used = omega (arith, sum_below-len fs.o_list.size (omega arith), v.total)

  pub IsSolid-IsLaidOut : IsIndexed fs.o_list fs.heap → IsLaidOut fs
  IsSolid-IsLaidOut indexed = record {
    apart = v.apart;
    bounded = λ i q. elim (v.lies i q) [
      | inl (small, some_bytes, fits) ↦ omega (arith, v.limit)
      | inr (end, empty) ↦ omega arith
    ];
    distinct = λ i j p q e. list-injective fs.o_list fs.heap indexed i j p q e;
  }

  -- The first `m` files have bytes, and the others are empty.
  pub record IsFilled (m : ℕ) : Type 0 where
    pub inside : m ≤ fs.o_list.size
    pub filled :
        (i : ℕ)
        → i < m
        → (offset_at fs.o_list fs.heap i < max_file_data_len)
          × (0 < length_at fs.o_list fs.heap i)
          × (offset_at fs.o_list fs.heap i + length_at fs.o_list fs.heap i ≤ fs.file_data_len)
    pub empty :
        (i : ℕ)
        → m ≤ i
        → i < fs.o_list.size
        → (offset_at fs.o_list fs.heap i ≡ max_file_data_len) × (length_at fs.o_list fs.heap i ≡ 0)

  -- Among the first `n` files.
  split_below :
      (n : ℕ)
      → n ≤ fs.o_list.size
      → (m : ℕ) × (m ≤ n)
        × ((i : ℕ)
            → i < m
            → (offset_at fs.o_list fs.heap i < max_file_data_len)
              × (0 < length_at fs.o_list fs.heap i)
              × (offset_at fs.o_list fs.heap i + length_at fs.o_list fs.heap i ≤ fs.file_data_len))
        × ((i : ℕ)
            → m ≤ i
            → i < n
            → (offset_at fs.o_list fs.heap i ≡ max_file_data_len)
              × (length_at fs.o_list fs.heap i ≡ 0))
  split_below zero q = (0, omega arith, λ i p. absurd (omega arith), λ i p r. absurd (omega arith))
  split_below (suc n) q =
      let (m, inside, filled, empty) = split_below n (omega arith) in
      elim (v.lies n (omega arith)) [
        | inr e ↦ (
          m,
          omega arith,
          filled,
          λ i p r. elim (ℕ_discrete i n) [ yes same ↦ rw same e | no ne ↦ empty i p (omega arith) ],
        )
        | inl f ↦ (
          suc n,
          omega arith,
          λ i p. elim (ℕ_discrete i n) [
            | yes same ↦ rw same f
            | no ne ↦ elim (dec_lt i m) [
              | yes low ↦ filled i low
              | no high ↦
                  (let e = empty i (omega arith) (omega arith) in
                    absurd (omega (arith, apart_all i n (omega arith) (omega arith), f.0, e.0)))
            ]
          ],
          λ i p r. absurd (omega arith),
        )
      ]

  pub some-IsFilled : (m : ℕ) × IsFilled m
  some-IsFilled =
      let (m, inside, filled, empty) = split_below fs.o_list.size (omega arith) in
      (m, record { inside = inside; filled = filled; empty = empty })

  module _ (m : ℕ) (f : IsFilled m) where
    pub find_next-some :
        (i : ℕ) → i < m → find_next_nonzero_file i fs.o_list fs.heap ≡ some (fs.o_list.list i)
    unfolding find_next_nonzero_file nonzero_loop
    find_next-some i q =
        let rounds : fs.o_list.size - i ≡ suc (fs.o_list.size - i - 1) = omega (arith, f.inside) in
        let t : leb max_file_data_len (offset_at fs.o_list fs.heap i) ≡ false =
          ground (arith, f.filled i q) in
        let t' : ltb 0 (length_at fs.o_list fs.heap i) ≡ true = ground (arith, f.filled i q) in
        rw rounds (rw t (rw t' refl))

    pub find_next-none : (i : ℕ) → m ≤ i → find_next_nonzero_file i fs.o_list fs.heap ≡ none
    unfolding find_next_nonzero_file nonzero_loop
    find_next-none i q = elim (dec_lt i fs.o_list.size) [
      | yes p ↦
          (let rounds : fs.o_list.size - i ≡ suc (fs.o_list.size - i - 1) = omega arith in
            let t : leb max_file_data_len (offset_at fs.o_list fs.heap i) ≡ true =
              ground (arith, (f.empty i q p).0) in
            rw rounds (rw t refl))
      | no p ↦ (let rounds : fs.o_list.size - i ≡ 0 = omega arith in rw rounds refl)
    ]
