-- ===== src/Hash/Tree.antt =====
-- The hash tree as a whole: which nodes hold the hash of what they stand for, and how the updates
-- of `compute_hash_block_helper` and `compute_hash_block_range` restore that.
use native.Mathlib.Decide.{dec_lt, ℕ_discrete}
use virtual_file_system.Common.{
  ℕ, zero, suc, ◌+◌, ◌*◌, ◌≤◌, ◌<◌, ◌≡◌, ◌≢◌, refl, ◌∙◌, sym, ◌⊎◌, inl, inr, ℤ-cases, pos_injective,
  pos, negsuc, arith,
}
use virtual_file_system.Structs.{Bytes, hash_len, block_len}
use virtual_file_system.Helper.{p_index}
use virtual_file_system.Hash.{fletcher_sums, fletcher, concat_children, rehash, ancestor_loop}
use virtual_file_system.Hash.Reads.{fletcher-inside, fletcher-outside, children_cong}

-- The 16 bytes of a hash with the sums `s` stand at node `n`.
abbrev pub Holds : Bytes → ℕ → Bytes → Type 0
Holds hash n value = (k : ℕ) → k < hash_len → hash (n * hash_len + k) ≡ value k

-- The hash of an inner node is that of its children's hashes.
abbrev pub InnerValid : Bytes → ℕ → Type 0
InnerValid hash n = Holds hash n (fletcher (concat_children n hash) 0 32 (λ _. 0) 0)

-- The hash of a leaf is that of its block of file_data.
abbrev pub LeafValid : Bytes → Bytes → ℕ → ℕ → Type 0
LeafValid file hash leaf_offset b =
    Holds hash (leaf_offset + b) (fletcher file (b * block_len) block_len (λ _. 0) 0)

pub fletcher_cong :
    (x y : Bytes) (a b n : ℕ) (k : ℕ)
    → fletcher_sums x a n ≡ fletcher_sums y b n
    → fletcher x a n (λ _. 0) 0 k ≡ fletcher y b n (λ _. 0) 0 k
unfolding fletcher
fletcher_cong x y a b n k e = rw e

pub p_index-children : (n p : ℕ) → p_index n ≡ pos p → (n ≡ 2 * p + 1) ⊎ (n ≡ 2 * p + 2)
unfolding p_index
p_index-children n p h = ground arith

p_index-left : (p : ℕ) → p_index (2 * p + 1) ≡ pos p
unfolding p_index
p_index-left p = ground arith

p_index-right : (p : ℕ) → p_index (2 * p + 2) ≡ pos p
unfolding p_index
p_index-right p = ground arith

p_index-neg : (n k : ℕ) → p_index n ≡ negsuc k → n ≡ 0
unfolding p_index
p_index-neg n k h = ground arith

-- The hashes of different nodes do not overlap.
pub apart :
    (m p k : ℕ)
    → m ≢ p
    → k < hash_len
    → (m * hash_len + k < p * hash_len) ⊎ (p * hash_len + hash_len ≤ m * hash_len + k)
apart m p k ne h = elim (dec_lt m p) [ yes q ↦ inl (omega arith) | no q ↦ inr (omega arith) ]

-- A node that is not a child of `m` does not overlap the children of `m`.
pub children_apart :
    (m p j : ℕ)
    → p_index p ≢ pos m
    → j < 32
    → ((2 * m + 1) * hash_len + j < p * hash_len)
      ⊎ (p * hash_len + hash_len ≤ (2 * m + 1) * hash_len + j)
children_apart m p j parent h =
    let left : p ≢ 2 * m + 1 = λ e. parent (rw e (p_index-left m)) in
    let right : p ≢ 2 * m + 2 = λ e. parent (rw e (p_index-right m)) in
    elim (dec_lt p (2 * m + 1)) [ yes q ↦ inr (omega arith) | no q ↦ inl (omega arith) ]

module _ (p : ℕ) (hash : Bytes) where
  rehash-inside :
      (k : ℕ)
      → k < hash_len
      → rehash p hash (p * hash_len + k) ≡ fletcher (concat_children p hash) 0 32 (λ _. 0) 0 k
  unfolding rehash
  rehash-inside k h = fletcher-inside (concat_children p hash) 0 32 hash (p * hash_len) k h

  pub rehash-outside :
      (a : ℕ) → (a < p * hash_len) ⊎ (p * hash_len + hash_len ≤ a) → rehash p hash a ≡ hash a
  unfolding rehash
  rehash-outside a h = fletcher-outside (concat_children p hash) 0 32 hash (p * hash_len) a h

  pub rehash-InnerValid_self : InnerValid (rehash p hash) p
  rehash-InnerValid_self k h =
      rehash-inside k h
      ∙ fletcher_cong _ _ 0 0 32 k (
          children_cong p hash (rehash p hash)
            (λ j q. sym (rehash-outside ((2 * p + 1) * hash_len + j) (inr (omega arith)))))

  pub rehash-InnerValid :
      (m : ℕ) → m ≢ p → p_index p ≢ pos m → InnerValid hash m → InnerValid (rehash p hash) m
  rehash-InnerValid m ne parent v k h =
      rehash-outside (m * hash_len + k) (apart m p k ne h)
      ∙ (v k h
          ∙ fletcher_cong _ _ 0 0 32 k (
              children_cong m hash (rehash p hash)
                (λ j q. sym (rehash-outside _ (children_apart m p j parent q)))))

  -- One round: the parent of `n` becomes valid, and only its own parent may be invalid after it.
  rehash-all :
      (n leaf_offset : ℕ)
      → p_index n ≡ pos p
      → ((m : ℕ) → m < leaf_offset → p_index n ≢ pos m → InnerValid hash m)
      → (m : ℕ) → m < leaf_offset
      → p_index p ≢ pos m
      → InnerValid (rehash p hash) m
  rehash-all n leaf_offset e v m q parent = elim (ℕ_discrete m p) [
    | yes same ↦ rw same rehash-InnerValid_self
    | no ne ↦ rehash-InnerValid m ne parent (v m q (λ e'. ne (pos_injective (sym e' ∙ e))))
  ]

ancestor_loop-pos :
    (fuel n p : ℕ) (hash : Bytes)
    → p_index n ≡ pos p
    → ancestor_loop (suc fuel) n hash ≡ ancestor_loop fuel p (rehash p hash)
unfolding ancestor_loop
ancestor_loop-pos fuel n p hash e = rw (e, ancestor_loop)

-- The loop over the ancestors of `n` makes all inner nodes valid, if only the parent of `n` may
-- be invalid before it, and writes inner nodes only.
pub ancestor_loop-InnerValid :
    (fuel n leaf_offset : ℕ) (hash : Bytes)
    → n ≤ fuel
    → n ≤ 2 * leaf_offset
    → ((m : ℕ) → m < leaf_offset → p_index n ≢ pos m → InnerValid hash m)
    → ((m : ℕ) → m < leaf_offset → InnerValid (ancestor_loop fuel n hash) m)
      × ((a : ℕ) → leaf_offset * hash_len ≤ a → ancestor_loop fuel n hash a ≡ hash a)
unfolding ancestor_loop
ancestor_loop-InnerValid zero n leaf_offset hash f b v =
    (λ m q. v m q (λ e. absurd (omega (arith, p_index-children n m e))), λ a q. refl)
ancestor_loop-InnerValid (suc fuel) n leaf_offset hash f b v = elim (ℤ-cases (p_index n)) [
  | inl (p, e) ↦
      let child = p_index-children n p e in
      let ih =
        ancestor_loop-InnerValid fuel p leaf_offset (rehash p hash) (omega arith) (omega arith)
          (rehash-all p hash n leaf_offset e v) in
      rw (ancestor_loop-pos fuel n p hash e)
        (ih.0, λ a q. ih.1 a q ∙ rehash-outside p hash a (inr (omega arith)))
  | inr (k, e) ↦ rw (e, ancestor_loop) (λ m q. v m q (λ e'. cc), λ a q. refl)
]
