-- ===== src/Hash/Build.antt =====
-- `compute_hash_tree` builds the whole hash tree, level by level from the leaves.
use native.Mathlib.Decide.{dec_lt, ℕ_discrete}
use native.Mathlib.Nat.{pow-succ', pow-le-pow_right}
use virtual_file_system.Common.{
  ℕ, zero, suc, ◌+◌, ◌-◌, ◌*◌, ◌/◌, ◌%◌, ◌^◌, ◌≤◌, ◌<◌, ◌≡◌, ◌≢◌, refl, ◌∙◌, ◌⊎◌, inl, inr, true,
  false, ltb, pos, arith, Run, ok,
}
use virtual_file_system.Structs.{hash_len, block_len, Bytes, Filesys}
use virtual_file_system.Helper.{p_index}
use virtual_file_system.Hash.{rehash, hash_node, tree_loop, compute_hash_tree, leaf_address}
use virtual_file_system.Hash.Tree.{
  InnerValid, LeafValid, apart, rehash-outside, rehash-InnerValid, rehash-InnerValid_self,
  p_index-children,
}
use virtual_file_system.Hash.Range.{
  IsHashed, leaf_hash, leaf_hash-InnerValid, leaf_hash-LeafValid, leaf_hash-LeafValid_self,
}

-- Node `m` is an inner node with the right hash, or a leaf with the right hash.
abbrev Valid : Filesys → ℕ → Type 0
Valid fs m =
    (m < fs.leaf_offset → InnerValid fs.hash m)
    × ((b : ℕ) → m ≡ fs.leaf_offset + b → LeafValid fs.file fs.hash fs.leaf_offset b)

-- The body of the loop: the hash of node `n` is written.
abbrev write_node : ℕ → Filesys → Filesys
write_node n fs = record fs { hash = hash_node n fs.hash (n * hash_len) fs }

module _ (n : ℕ) (fs : Filesys) where
  write_inner : n < fs.leaf_offset → hash_node n fs.hash (n * hash_len) fs ≡ rehash n fs.hash
  unfolding hash_node rehash
  write_inner h = let test : ltb n fs.leaf_offset ≡ true = ground arith in rw test

  write_leaf :
      (b : ℕ)
      → n ≡ fs.leaf_offset + b
      → b < 2 ^ 23
      → hash_node n fs.hash (n * hash_len) fs ≡ leaf_hash fs.file fs.leaf_offset b fs.hash
  unfolding hash_node leaf_address
  write_leaf b e small =
      let whole : b * block_len % 2 ^ 32 ≡ b * block_len = omega arith in
      let positive : ltb (b * block_len) (2 ^ 31) ≡ true = ground arith in
      let test : ltb n fs.leaf_offset ≡ false = ground arith in
      let block : n - fs.leaf_offset ≡ b = omega arith in
      rw test (rw block (rw whole (rw positive (rw e))))

  write_node-Valid_self : n < fs.leaf_offset + 2 ^ 23 → Valid (write_node n fs) n
  write_node-Valid_self small = (
    λ h. rw (write_inner h) (rehash-InnerValid_self n fs.hash),
    λ b e.
        rw (write_leaf b e (omega arith))
          (leaf_hash-LeafValid_self fs.file fs.leaf_offset b fs.hash),
  )

  write_node-Valid :
      n < fs.leaf_offset + 2 ^ 23
      → (m : ℕ) → m ≢ n
      → p_index n ≢ pos m
      → Valid fs m
      → Valid (write_node n fs) m
  write_node-Valid small m ne parent v = elim (dec_lt n fs.leaf_offset) [
    | yes inner ↦ rw (write_inner inner) (
      λ h. rehash-InnerValid n fs.hash m ne parent (v.0 h),
      λ b e k q.
          rehash-outside n fs.hash _ (apart (fs.leaf_offset + b) n k (λ e'. ne (e ∙ e')) q)
          ∙ v.1 b e k q,
    )
    | no leaf ↦
        (let c : ℕ = n - fs.leaf_offset in
          let at : n ≡ fs.leaf_offset + c = omega arith in
          rw (write_leaf c at (omega arith)) (
            λ h.
                leaf_hash-InnerValid fs.file fs.leaf_offset c fs.hash m h (rw at at parent) (v.0 h),
            λ b e.
                leaf_hash-LeafValid fs.file fs.leaf_offset c fs.hash b (λ e'. ne (omega arith))
                  (v.1 b e),
          ))
  ]

-- The nodes that the loop has passed when it stands at `n_index` in a level of `nodes` nodes.
abbrev Passed : ℕ → ℕ → ℕ → Type 0
Passed n_index nodes m = ((nodes ≤ m + 1) × (m < n_index)) ⊎ (2 * nodes ≤ m + 1)

module _ (nodes n_count n_index : ℕ) (fs : Filesys) (place : n_index + 1 ≡ nodes + n_count) where
  -- One round: the node is passed with a right hash, and the passed nodes keep theirs.
  write_node-Passed :
      (top : ℕ)
      → n_index < fs.leaf_offset + 2 ^ 23
      → n_count < nodes
      → ((m : ℕ) → m < top → Passed n_index nodes m → Valid fs m)
      → (m : ℕ) → m < top
      → Passed (n_index + 1) nodes m
      → Valid (write_node n_index fs) m
  write_node-Passed top small inside v m t q = elim (ℕ_discrete m n_index) [
    | yes e ↦ rw e (write_node-Valid_self n_index fs small)
    | no ne ↦
        write_node-Valid n_index fs small m ne (λ e. absurd (behind m e q)) (v m t (before ne q))
  ]
    where
      behind : (m : ℕ) → p_index n_index ≡ pos m → ¬ Passed (n_index + 1) nodes m
      behind m e r = omega (arith, p_index-children n_index m e)

      before : m ≢ n_index → Passed (n_index + 1) nodes m → Passed n_index nodes m
      before ne (inl r) = inl (omega arith)
      before ne (inr r) = inr r

  -- At the end of a level, all nodes from its first on are passed.
  level_done : n_count + 1 ≡ nodes → (m : ℕ) → nodes ≤ m + 1 → Passed (n_index + 1) nodes m
  level_done last m q = elim (dec_lt m (n_index + 1)) [
    | yes r ↦ inl (q, r)
    | no r ↦ inr (omega arith)
  ]

-- What the loop returns: the state with another `hash_data`, in which all nodes are right.
abbrev Built : ℕ → Filesys → Run Filesys → Type 0
Built top fs r =
    (hash : Bytes) × (r ≡ ok (record fs { hash = hash }))
    × ((m : ℕ) → m < top → Valid (record fs { hash = hash }) m)

module _ (fuel n_index n_count nodes : ℕ) (fs : Filesys) where
  tree_loop-next :
      n_count + 1 < nodes
      → tree_loop (suc fuel) n_index n_count nodes fs
        ≡ tree_loop fuel (n_index + 1) (n_count + 1) nodes (write_node n_index fs)
  unfolding tree_loop
  tree_loop-next h =
      let some_left : ltb 0 nodes ≡ true = ground arith in
      let more : ltb (n_count + 1) nodes ≡ true = ground arith in
      rw (some_left, tree_loop) (rw (more, tree_loop))

  tree_loop-up :
      n_count + 1 ≡ nodes
      → tree_loop (suc fuel) n_index n_count nodes fs
        ≡ tree_loop fuel (nodes / 2 - 1) 0 (nodes / 2) (write_node n_index fs)
  unfolding tree_loop
  tree_loop-up h =
      let some_left : ltb 0 nodes ≡ true = ground arith in
      let last : ltb (n_count + 1) nodes ≡ false = ground arith in
      rw (some_left, tree_loop) (rw (last, tree_loop))

  tree_loop-end : nodes ≡ 0 → tree_loop (suc fuel) n_index n_count nodes fs ≡ ok fs
  unfolding tree_loop
  tree_loop-end h = rw (h, tree_loop)

tree_loop-Built :
    (top fuel e n_index n_count nodes : ℕ) (fs : Filesys)
    → nodes ≡ 2 ^ e
    → nodes ≤ fs.leaf_offset + 1
    → nodes ≤ 2 ^ 23
    → n_index + 1 ≡ nodes + n_count
    → n_count < nodes
    → 2 * nodes < fuel + n_count
    → ((m : ℕ) → m < top → Passed n_index nodes m → Valid fs m)
    → Built top fs (tree_loop fuel n_index n_count nodes fs)
tree_loop-Built top zero e n_index n_count nodes fs pow small few place inside f v =
    absurd (omega arith)
tree_loop-Built top (suc zero) zero n_index n_count nodes fs pow small few place inside f v =
    absurd (omega arith)
tree_loop-Built top (suc (suc fuel)) zero n_index n_count nodes fs pow small few place inside f v =
    let last : n_count + 1 ≡ nodes = omega arith in
    (
      hash_node n_index fs.hash (n_index * hash_len) fs,
      tree_loop-up (suc fuel) n_index n_count nodes fs last
          ∙ tree_loop-end fuel (nodes / 2 - 1) 0 (nodes / 2) (write_node n_index fs) (omega arith),
      λ m t.
          write_node-Passed nodes n_count n_index fs place top (omega arith) inside v m t
            (level_done nodes n_count n_index fs place last m (omega arith)),
    )
tree_loop-Built top (suc fuel) (suc e) n_index n_count nodes fs pow small few place inside f v =
    let fs' = write_node n_index fs in
    let same : fs'.leaf_offset ≡ fs.leaf_offset = refl in
    let passed = write_node-Passed nodes n_count n_index fs place top (omega arith) inside v in
    let twice : nodes ≡ 2 * 2 ^ e = pow ∙ pow-succ' 2 e in
    elim (dec_lt (n_count + 1) nodes) [
      | yes more ↦
          (let ih =
              tree_loop-Built top fuel (suc e) (n_index + 1) (n_count + 1) nodes fs' pow
                (omega arith) few (omega arith) more (omega arith) passed in
            (ih.0, tree_loop-next fuel n_index n_count nodes fs more ∙ ih.1, ih.2))
      | no end ↦
          (let last : n_count + 1 ≡ nodes = omega arith in
            let ih =
              tree_loop-Built top fuel e (nodes / 2 - 1) 0 (nodes / 2) fs' (omega arith)
                (omega arith) (omega arith) (omega arith) (omega arith) (omega arith)
                (λ m t q.
                  passed m t (level_done nodes n_count n_index fs place last m (omega arith))) in
            (ih.0, tree_loop-up fuel n_index n_count nodes fs last ∙ ih.1, ih.2))
    ]

-- On a tree with `2 ^ e` leaves, at most 2^23 for 2^31 bytes, `compute_hash_tree` ends, changes nothing but `hash_data`, and
-- leaves the right hash in every node.
pub compute_hash_tree-IsHashed :
    (e : ℕ) (fs : Filesys)
    → fs.leaf_offset + 1 ≡ 2 ^ e
    → e ≤ 23
    → (hash : Bytes) × (compute_hash_tree fs ≡ ok (record fs { hash = hash }))
      × IsHashed (record fs { hash = hash })
unfolding compute_hash_tree
compute_hash_tree-IsHashed e fs shape small =
    let few : fs.leaf_offset + 1 ≤ 2 ^ 23 = rw shape (pow-le-pow_right (omega arith) small) in
    let r =
      tree_loop-Built (2 * fs.leaf_offset + 1) (2 * (fs.leaf_offset + 1) + 1) e fs.leaf_offset 0
        (fs.leaf_offset + 1) fs shape (omega arith) few (omega arith) (omega arith) (omega arith)
        (λ m t q. absurd (omega arith)) in
    (
      r.0,
      r.1,
      record {
        inner = λ m q. (r.2 m (omega arith)).0 q;
        leaves = λ b q _. (r.2 (fs.leaf_offset + b) (omega arith)).1 b refl;
      },
    )
