-- ===== src/Hash/Verify.antt =====
-- `verify_hash_range` checks exactly the nodes on the paths from the leaves of its blocks to the
-- root, and passes on a valid tree.
use native.Mathlib.Decide.{dec_lt}
use native.Mathlib.Nat.{zero-add}
use virtual_file_system.Common.{
  ℕ, zero, suc, ◌+◌, ◌-◌, ◌*◌, ◌/◌, ◌%◌, ◌^◌, ◌≤◌, ◌<◌, ◌≡◌, refl, sym, ◌↔◌, inl, inr, true, false,
  ltb, Bool-cases, ℤ-cases, pos, arith,
}
use virtual_file_system.Structs.{hash_len, block_len, Bytes, Filesys}
use virtual_file_system.Memory.{memcmp_equal}
use virtual_file_system.Helper.{p_index}
use virtual_file_system.Hash.{
  fletcher, concat_children, hash_node, is_node_valid, verify_loop, verify_blocks,
  verify_hash_range, is_positive64, leaf_address,
}
use virtual_file_system.Hash.Reads.{Agree}
use virtual_file_system.Hash.Tree.{InnerValid, LeafValid, p_index-children}
use virtual_file_system.Hash.Range.{IsHashed, positive64}

memcmp_equal→Agree :
    (x : Bytes) (a : ℕ) (y : Bytes) (b n : ℕ) → memcmp_equal x a y b n ≡ true → Agree x a y b n
unfolding memcmp_equal
memcmp_equal→Agree x a y b zero h k q = absurd (omega arith)
memcmp_equal→Agree x a y b (suc n) h k q = elim (dec_lt k n) [
  | yes p ↦ ground (arith, memcmp_equal→Agree x a y b n (ground arith) k p)
  | no p ↦ (let e : k ≡ n = omega arith in rw e (ground arith))
]

Agree→memcmp_equal :
    (x : Bytes) (a : ℕ) (y : Bytes) (b n : ℕ) → Agree x a y b n → memcmp_equal x a y b n ≡ true
unfolding memcmp_equal
Agree→memcmp_equal x a y b zero h = refl
Agree→memcmp_equal x a y b (suc n) h =
    ground (arith, h n (omega arith), Agree→memcmp_equal x a y b n (λ k q. h k (omega arith)))

-- The node holds the hash that `hash_node` computes.
abbrev Matches : Filesys → ℕ → Type 0
Matches fs n = Agree (hash_node n (λ _. 0) 0 fs) 0 fs.hash (n * hash_len) hash_len

-- The nodes from a node up to the root.
pub data OnPath : ℕ → ℕ → Type 0 where
  here : {n : ℕ} → OnPath n n
  up : {n p m : ℕ} → p_index n ≡ pos p → OnPath p m → OnPath n m

is_node_valid→Matches : (n : ℕ) (fs : Filesys) → is_node_valid n fs ≡ true → Matches fs n
unfolding is_node_valid
is_node_valid→Matches n fs h =
    memcmp_equal→Agree (hash_node n (λ _. 0) 0 fs) 0 fs.hash (n * hash_len) hash_len h

is_node_valid_of_Matches : (n : ℕ) (fs : Filesys) → Matches fs n → is_node_valid n fs ≡ true
unfolding is_node_valid
is_node_valid_of_Matches n fs h =
    Agree→memcmp_equal (hash_node n (λ _. 0) 0 fs) 0 fs.hash (n * hash_len) hash_len h

module _ (fs : Filesys) where
  verify_loop→path :
      (fuel n m : ℕ) → n ≤ fuel → verify_loop fuel n fs ≡ true → OnPath n m → Matches fs m
  unfolding verify_loop
  verify_loop→path zero n m f h here = is_node_valid→Matches n fs h
  verify_loop→path zero n m f h (up {p} e r) = absurd (omega (arith, p_index-children n p e))
  verify_loop→path (suc fuel) n m f h here = is_node_valid→Matches n fs (ground arith)
  verify_loop→path (suc fuel) n m f h (up {p} e r) =
      verify_loop→path fuel p m (omega (arith, p_index-children n p e)) (ground (arith, e)) r

  path→verify_loop :
      (fuel n : ℕ) → ((m : ℕ) → OnPath n m → Matches fs m) → verify_loop fuel n fs ≡ true
  unfolding verify_loop
  path→verify_loop zero n h = is_node_valid_of_Matches n fs (h n here)
  path→verify_loop (suc fuel) n h = elim (ℤ-cases (p_index n)) [
    | inl (p, e) ↦ ground (
      arith,
      e,
      is_node_valid_of_Matches n fs (h n here),
      path→verify_loop fuel p (λ m r. h m (up e r)),
    )
    | inr (k, e) ↦ ground (arith, e, is_node_valid_of_Matches n fs (h n here))
  ]

  verify_blocks→paths :
      (k i b m : ℕ)
      → verify_blocks k i fs ≡ true
      → i ≤ b
      → b < i + k
      → OnPath (fs.leaf_offset + b) m
      → Matches fs m
  unfolding verify_blocks
  verify_blocks→paths zero i b m h p q r = absurd (omega arith)
  verify_blocks→paths (suc k) i b m h p q r = elim (dec_lt i b) [
    | yes later ↦ verify_blocks→paths k (i + 1) b m (ground arith) (omega arith) (omega arith) r
    | no now ↦
        (let e : b ≡ i = omega arith in
          verify_loop→path (fs.leaf_offset + b) (fs.leaf_offset + b) m (omega arith)
            (rw e (ground arith)) r)
  ]

  paths→verify_blocks :
      (k i : ℕ)
      → ((b m : ℕ) → i ≤ b → b < i + k → OnPath (fs.leaf_offset + b) m → Matches fs m)
      → verify_blocks k i fs ≡ true
  unfolding verify_blocks
  paths→verify_blocks zero i h = refl
  paths→verify_blocks (suc k) i h = ground (
    arith,
    path→verify_loop (fs.leaf_offset + i) (fs.leaf_offset + i)
        (λ m r. h i m (omega arith) (omega arith) r),
    paths→verify_blocks k (i + 1) (λ b m p q r. h b m (omega arith) (omega arith) r),
  )

  pub verify_hash_range-empty :
      (offset length : ℕ) → is_positive64 length ≡ false → verify_hash_range offset length fs ≡ 0
  unfolding verify_hash_range
  verify_hash_range-empty offset length h = rw h

  verify_hash_range-Matches :
      (offset length : ℕ)
      → 0 < length
      → length < 2 ^ 63
      → (verify_hash_range offset length fs ≡ 0) ↔ (
          (b m : ℕ)
          → offset / block_len ≤ b
          → b ≤ (offset + length - 1) / block_len
          → OnPath (fs.leaf_offset + b) m
          → Matches fs m)
  unfolding verify_hash_range
  verify_hash_range-Matches offset length p q =
      let first = offset / block_len in
      let count = (offset + length - 1) / block_len + 1 - first in
      (
        λ h b m s t r.
            verify_blocks→paths count first b m (ground (arith, positive64 length p q)) s
              (omega arith) r,
        λ h. rw (positive64 length p q) (
            ground (arith, paths→verify_blocks count first (λ b m s t r. h b m s (omega arith) r))),
      )

  OnPath-le : {n m : ℕ} → OnPath n m → m ≤ n
  OnPath-le here = omega arith
  OnPath-le (up {n} {p} e r) = omega (arith, p_index-children n p e, OnPath-le r)

  hash_node-inner :
      (n : ℕ)
      → ltb n fs.leaf_offset ≡ true
      → hash_node n (λ _. 0) 0 fs ≡ fletcher (concat_children n fs.hash) 0 32 (λ _. 0) 0
  unfolding hash_node
  hash_node-inner n h = rw h

  hash_node-leaf :
      (b : ℕ)
      → b < 2 ^ 23
      → hash_node (fs.leaf_offset + b) (λ _. 0) 0 fs
        ≡ fletcher fs.file (b * block_len) block_len (λ _. 0) 0
  unfolding hash_node leaf_address
  hash_node-leaf b small =
      let test : ltb (fs.leaf_offset + b) fs.leaf_offset ≡ false = ground arith in
      let block : fs.leaf_offset + b - fs.leaf_offset ≡ b = omega arith in
      let whole : b * block_len % 2 ^ 32 ≡ b * block_len = omega arith in
      let positive : ltb (b * block_len) (2 ^ 31) ≡ true = ground arith in
      rw test (rw block (rw whole (rw positive refl)))

  -- The node holds the hash of its children, or of its block of file_data.
  abbrev pub NodeValid : ℕ → Type 0
  NodeValid n =
      (n < fs.leaf_offset → InnerValid fs.hash n)
      × ((b : ℕ) → n ≡ fs.leaf_offset + b → LeafValid fs.file fs.hash fs.leaf_offset b)

  Matches-NodeValid : (n : ℕ) → n < fs.leaf_offset + 2 ^ 23 → Matches fs n → NodeValid n
  Matches-NodeValid n small h = (
    λ p k q. sym (rw (hash_node-inner n (ground arith), zero-add) at (h k q)),
    λ b e k q.
        let t : b < 2 ^ 23 = omega arith in sym (rw (e, hash_node-leaf b t, zero-add) at (h k q)),
  )

  NodeValid-Matches : (n : ℕ) → n < fs.leaf_offset + 2 ^ 23 → NodeValid n → Matches fs n
  NodeValid-Matches n small v k q = elim (dec_lt n fs.leaf_offset) [
    | yes p ↦ rw (hash_node-inner n (ground arith), zero-add) (sym (v.0 p k q))
    | no p ↦
        (let b : ℕ = n - fs.leaf_offset in
          let e : n ≡ fs.leaf_offset + b = omega arith in
          let t : b < 2 ^ 23 = omega arith in
          rw (e, hash_node-leaf b t, zero-add) (sym (v.1 b e k q)))
  ]

  -- The `int32_t` addresses and node indices of a verification of the range do not wrap.
  pub record InReach (offset length : ℕ) : Type 0 where
    pub range : offset + length ≤ 2 ^ 31
    pub leaves : fs.leaf_offset < 2 ^ 24

  -- In the first 2^31 bytes of a file_data of at most 2^24 blocks, `verify_hash_range` of a range
  -- that is not empty returns 0 exactly when each node on a path from the leaf of one of its blocks
  -- up to the root holds the hash of its children or, as a leaf, of its block.
  pub verify_hash_range_iff :
      (offset length : ℕ)
      → 0 < length
      → InReach offset length
      → (verify_hash_range offset length fs ≡ 0) ↔ (
          (b m : ℕ)
          → offset / block_len ≤ b
          → b ≤ (offset + length - 1) / block_len
          → OnPath (fs.leaf_offset + b) m
          → NodeValid m)
  verify_hash_range_iff offset length p reach =
      let q : length < 2 ^ 63 = omega (arith, reach.range) in
      (
        λ h b m s t r.
            Matches-NodeValid m (omega (arith, OnPath-le r, reach.range))
              ((verify_hash_range-Matches offset length p q).0 h b m s t r),
        λ h. (verify_hash_range-Matches offset length p q).1 (λ b m s t r.
            NodeValid-Matches m (omega (arith, OnPath-le r, reach.range)) (h b m s t r)),
      )

  IsHashed-NodeValid : (n : ℕ) → IsHashed fs → n ≤ 2 * fs.leaf_offset → NodeValid n
  IsHashed-NodeValid n v h = (λ p. v.inner n p, λ b e. v.leaves b (omega arith) tt)

  -- On a file system whose hash tree is right and has at most 2^24 leaves, `verify_hash_range` of
  -- any range inside the blocks that have a leaf and inside the first 2^31 bytes returns 0.
  pub verify_hash_range-IsHashed :
      (offset length : ℕ)
      → offset + length ≤ (fs.leaf_offset + 1) * block_len
      → InReach offset length
      → IsHashed fs
      → verify_hash_range offset length fs ≡ 0
  verify_hash_range-IsHashed offset length h reach v = elim (Bool-cases (is_positive64 length)) [
    | inr zero_length ↦ verify_hash_range-empty offset length zero_length
    | inl some_length ↦
        (verify_hash_range_iff offset length (ground arith) reach).1
          (λ b m p q r. IsHashed-NodeValid m v (omega (arith, OnPath-le r)))
  ]
