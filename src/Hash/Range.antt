-- ===== src/Hash/Range.antt =====
-- `compute_hash_block_helper` and `compute_hash_block_range` restore the hash tree after a change
-- of file_data.
use virtual_file_system.Common.{
  ℕ, zero, suc, ◌+◌, ◌-◌, ◌*◌, ◌/◌, ◌^◌, ◌≤◌, ◌<◌, ◌≡◌, ◌≢◌, refl, ◌∙◌, sym, ◌⊎◌, inl, inr, true,
  Bool-cases, pos, arith,
}
use native.Mathlib.Decide.{ℕ_discrete, dec_lt}
use virtual_file_system.Structs.{hash_len, block_len, Bytes, Filesys}
use virtual_file_system.Helper.{p_index}
use virtual_file_system.Hash.{
  fletcher, compute_hash_block_helper, block_loop, compute_hash_block_range, is_positive64,
}
use virtual_file_system.Hash.Reads.{
  fletcher_sums_cong, fletcher-inside, fletcher-outside, children_cong,
}
use virtual_file_system.Hash.Tree.{
  InnerValid, LeafValid, apart, children_apart, fletcher_cong, ancestor_loop-InnerValid,
}

-- Every inner node is valid, and so are the leaves of the blocks in `Fresh`. The leaves are the
-- nodes from `leaf_offset` to `2 * leaf_offset`.
pub record TreeValid (Fresh : ℕ → Type 0) (fs : Filesys) : Type 0 where
  pub inner : (m : ℕ) → m < fs.leaf_offset → InnerValid fs.hash m
  pub leaves : (b : ℕ) → b ≤ fs.leaf_offset → Fresh b → LeafValid fs.file fs.hash fs.leaf_offset b

-- Every node of the tree holds the right hash.
abbrev pub IsHashed : Filesys → Type 0
IsHashed = TreeValid (λ _. Unit {0})

-- The write of a leaf.
module _ (file : Bytes) (leaf_offset b : ℕ) (hash : Bytes) where
  abbrev pub leaf_hash : Bytes
  leaf_hash = fletcher file (b * block_len) block_len hash ((leaf_offset + b) * hash_len)

  pub leaf_hash-InnerValid :
      (m : ℕ)
      → m < leaf_offset
      → p_index (leaf_offset + b) ≢ pos m
      → InnerValid hash m
      → InnerValid leaf_hash m
  leaf_hash-InnerValid m q parent v k h =
      fletcher-outside file (b * block_len) block_len hash _ _
        (apart m (leaf_offset + b) k (λ e. absurd (omega arith)) h)
      ∙ (v k h
          ∙ fletcher_cong _ _ 0 0 32 k (
              children_cong m hash leaf_hash (λ j r. sym (
                fletcher-outside file (b * block_len) block_len hash _ _
                  (children_apart m (leaf_offset + b) j parent r)))))

  pub leaf_hash-LeafValid_self : LeafValid file leaf_hash leaf_offset b
  leaf_hash-LeafValid_self k h =
      fletcher-inside file (b * block_len) block_len hash ((leaf_offset + b) * hash_len) k h

  pub leaf_hash-LeafValid :
      (c : ℕ) → c ≢ b → LeafValid file hash leaf_offset c → LeafValid file leaf_hash leaf_offset c
  leaf_hash-LeafValid c ne v k h =
      fletcher-outside file (b * block_len) block_len hash _ _
        (apart (leaf_offset + c) (leaf_offset + b) k (λ e. ne (omega arith)) h)
      ∙ v k h

module _ {Fresh : ℕ → Type 0} where
  -- `compute_hash_block_helper` makes the leaf of its block valid too.
  compute_hash_block_helper-TreeValid :
      (b : ℕ) {fs : Filesys}
      → b ≤ fs.leaf_offset
      → TreeValid Fresh fs
      → TreeValid (λ c. (c ≡ b) ⊎ Fresh c) (compute_hash_block_helper b fs)
  unfolding compute_hash_block_helper
  compute_hash_block_helper-TreeValid b {fs} q v =
      let n = fs.leaf_offset + b in
      let loop =
        ancestor_loop-InnerValid n n fs.leaf_offset (leaf_hash fs.file fs.leaf_offset b fs.hash)
          (omega arith) (omega arith)
          (λ m r parent.
            leaf_hash-InnerValid fs.file fs.leaf_offset b fs.hash m r parent (v.inner m r)) in
      record {
        inner = loop.0;
        leaves = λ c r fresh k h.
            loop.1 ((fs.leaf_offset + c) * hash_len + k) (omega arith)
            ∙ leaf c (ℕ_discrete c b) r fresh k h;
      }
    where
      leaf :
          (c : ℕ)
          → Dec (c ≡ b)
          → c ≤ fs.leaf_offset
          → (c ≡ b) ⊎ Fresh c
          → LeafValid fs.file (leaf_hash fs.file fs.leaf_offset b fs.hash) fs.leaf_offset c
      leaf c (yes e) r fresh = rw e (leaf_hash-LeafValid_self fs.file fs.leaf_offset b fs.hash)
      leaf c (no ne) r (inl e) = absurd (ne e)
      leaf c (no ne) r (inr f) =
          leaf_hash-LeafValid fs.file fs.leaf_offset b fs.hash c ne (v.leaves c r f)

weaken :
    {P Q : ℕ → Type 0} {fs : Filesys}
    → ((b : ℕ) → b ≤ fs.leaf_offset → Q b → P b)
    → TreeValid P fs
    → TreeValid Q fs
weaken f v = record { inner = v.inner; leaves = λ b r q. v.leaves b r (f b r q) }

leaf_offset-helper :
    (b : ℕ) (fs : Filesys) → (compute_hash_block_helper b fs).leaf_offset ≡ fs.leaf_offset
unfolding compute_hash_block_helper
leaf_offset-helper b fs = refl

-- The loop over `k` blocks from block `i` on makes their leaves valid.
block_loop-TreeValid :
    {Fresh : ℕ → Type 0} (k i : ℕ) (fs : Filesys)
    → i + k ≤ fs.leaf_offset + 1
    → TreeValid Fresh fs
    → TreeValid (λ c. ((i ≤ c) × (c < i + k)) ⊎ Fresh c) (block_loop k i fs)
unfolding block_loop
block_loop-TreeValid zero i fs q v =
    weaken (λ b r. elim [ inl e ↦ absurd (omega arith) | inr f ↦ f ]) v
block_loop-TreeValid {Fresh} (suc k) i fs q v =
    let once = compute_hash_block_helper-TreeValid i (omega arith) v in
    weaken
      (λ b r. elim [
        | inl e ↦ (elim (dec_lt i b) [ yes p ↦ inl (omega arith) | no p ↦ inr (inl (omega arith)) ])
        | inr f ↦ inr (inr f)
      ])
      (block_loop-TreeValid k (i + 1) (compute_hash_block_helper i fs)
        (rw leaf_offset-helper (omega arith)) once)

pub positive64 : (n : ℕ) → 0 < n → n < 2 ^ 63 → is_positive64 n ≡ true
positive64 n p q = ground arith

-- Two memories differ at most in the `length` bytes from `offset` on.
abbrev pub SameOutside : ℕ → ℕ → Bytes → Bytes → Type 0
SameOutside offset length x y = (a : ℕ) → (a < offset) ⊎ (offset + length ≤ a) → x a ≡ y a

-- The block lies before or behind the range.
abbrev Untouched : ℕ → ℕ → ℕ → Type 0
Untouched offset length b = (b * block_len + block_len ≤ offset) ⊎ (offset + length ≤ b * block_len)

-- A change of file_data leaves the hashes of the other blocks right.
change-TreeValid :
    (offset length : ℕ) (file : Bytes) {fs : Filesys}
    → SameOutside offset length file fs.file
    → IsHashed fs
    → TreeValid (Untouched offset length) (record fs { file = file })
change-TreeValid offset length file {fs} same v = record {
  inner = v.inner;
  leaves = λ b r untouched k h.
      v.leaves b r tt k h
      ∙ fletcher_cong fs.file file (b * block_len) (b * block_len) block_len k (
          fletcher_sums_cong fs.file file (b * block_len) (b * block_len) block_len
            (λ j q. sym (same (b * block_len + j) (outside b j q untouched))));
}
  where
    outside :
        (b j : ℕ)
        → j < block_len
        → Untouched offset length b
        → (b * block_len + j < offset) ⊎ (offset + length ≤ b * block_len + j)
    outside b j q (inl e) = inl (omega arith)
    outside b j q (inr e) = inr (omega arith)

-- If every node of the hash tree is right, and then at most the `length` bytes of file_data from
-- `offset` on change, `compute_hash_block_range` of this range makes every node right again. The
-- range is not empty and ends inside the blocks that have a leaf.
pub compute_hash_block_range-IsHashed :
    (offset length : ℕ) (file : Bytes) {fs : Filesys}
    → 0 < length
    → offset + length ≤ (fs.leaf_offset + 1) * block_len
    → length < 2 ^ 63
    → SameOutside offset length file fs.file
    → IsHashed fs
    → IsHashed (compute_hash_block_range offset length (record fs { file = file }))
unfolding compute_hash_block_range
compute_hash_block_range-IsHashed offset length file {fs} positive fits small same v =
    rw (positive64 length positive small) (
      weaken (λ b r _. cover b)
        (block_loop-TreeValid ((offset + length - 1) / block_len + 1 - offset / block_len)
          (offset / block_len) (record fs { file = file }) (omega arith)
          (change-TreeValid offset length file same v)))
  where
    cover :
        (b : ℕ)
        → ((offset / block_len ≤ b)
            × (b
                < offset / block_len
                  + ((offset + length - 1) / block_len + 1 - offset / block_len)))
          ⊎ Untouched offset length b
    cover b = elim (dec_lt b (offset / block_len)) [
      | yes p ↦ inr (inl (omega arith))
      | no p ↦ elim (dec_lt ((offset + length - 1) / block_len) b) [
        | yes q ↦ inr (inr (omega arith))
        | no q ↦ inl (omega arith)
      ]
    ]

block_loop-frame :
    (k i : ℕ) (fs : Filesys) → block_loop k i fs ≡ record fs { hash = (block_loop k i fs).hash }
unfolding block_loop compute_hash_block_helper
block_loop-frame zero i fs = refl
block_loop-frame (suc k) i fs = block_loop-frame k (i + 1) (compute_hash_block_helper i fs)

-- `compute_hash_block_range` changes nothing but `hash_data`.
pub compute_hash_block_range-frame :
    (offset length : ℕ) (fs : Filesys)
    → compute_hash_block_range offset length fs
      ≡ record fs { hash = (compute_hash_block_range offset length fs).hash }
unfolding compute_hash_block_range
compute_hash_block_range-frame offset length fs = elim (Bool-cases (is_positive64 length)) [
  | inl e ↦ rw e (
      block_loop-frame ((offset + length - 1) / block_len + 1 - offset / block_len)
        (offset / block_len) fs)
  | inr e ↦ rw e
]
