-- ===== src/Hash.antt =====
-- The hash tree of myfilesystem.c: `hash_data` holds a 16 byte Fletcher hash for each node of a
-- binary tree whose leaves are the 256 byte blocks of `file_data`.
pub mod Reads
pub mod Words
pub mod Tree
pub mod Range
pub mod Verify
pub mod Build
use virtual_file_system.Common.{
  ℕ, zero, suc, ◌+◌, ◌-◌, ◌*◌, ◌/◌, ◌%◌, ◌^◌, ◌&&◌, Bool, true, false, ltb, ◌==◌, if◌then◌else◌,
  pos, negsuc, Run, ok, out_of_fuel,
}
use virtual_file_system.Structs.{
  max_file_data_len_minus_one, block_len, hash_len, hash_offset_b, hash_offset_c, hash_offset_d,
  Bytes, Filesys,
}
use virtual_file_system.Memory.{memcpy, bytes_of, load32, memcmp_equal}
use virtual_file_system.Helper.{p_index, lc_index, rc_index}

-- The variables `a`, `b`, `c` and `d` of `fletcher`.
pub record Sums : Type 0 where
  pub a : ℕ
  pub b : ℕ
  pub c : ℕ
  pub d : ℕ

-- The body of the loop of `fletcher`, on one word.
unfoldable pub add_word : ℕ → Sums → Sums
add_word word s =
    let a = (s.a + word) % max_file_data_len_minus_one in
    let b = (s.b + a) % max_file_data_len_minus_one in
    let c = (s.c + b) % max_file_data_len_minus_one in
    let d = (s.d + c) % max_file_data_len_minus_one in record { a = a; b = b; c = c; d = d }

-- The loop of `fletcher`: `k` words from index `i` on.
unfoldable pub word_loop : ℕ → ℕ → Bytes → ℕ → Sums → Sums
word_loop zero i buf at s = s
word_loop (suc k) i buf at s = word_loop k (i + 1) buf at (add_word (load32 buf (at + 4 * i)) s)

-- The sums that `fletcher` writes, of the `length` bytes of `buf` from `at` on. A last word that
-- is not whole is filled up with null bytes.
unfoldable pub fletcher_sums : Bytes → ℕ → ℕ → Sums
fletcher_sums buf at length =
    let size = length / 4 in
    let rem = length % 4 in
    let s = word_loop size 0 buf at (record { a = 0; b = 0; c = 0; d = 0 }) in
    if rem == 0 then s else add_word (load32 (memcpy (λ _. 0) 0 buf (at + 4 * size) rem) 0) s

-- `fletcher`: the hash of `buf + at` is written to `output + out`.
unfoldable pub fletcher : Bytes → ℕ → ℕ → Bytes → ℕ → Bytes
fletcher buf at length output out =
    let s = fletcher_sums buf at length in
    memcpy
      (memcpy
        (memcpy (memcpy output out (bytes_of s.a) 0 4) (out + hash_offset_b) (bytes_of s.b) 0 4)
        (out + hash_offset_c) (bytes_of s.c) 0 4)
      (out + hash_offset_d) (bytes_of s.d) 0 4

-- `hash_cat`: the hashes of the two children of a node, one behind the other
unfoldable pub concat_children : ℕ → Bytes → Bytes
concat_children n_index hash =
    memcpy (memcpy (λ _. 0) 0 hash (lc_index n_index * hash_len) hash_len) hash_len hash
      (rc_index n_index * hash_len) hash_len

-- The `int32_t` product `(n_index - fs->leaf_offset) * BLOCK_LEN`, with wrap-around, as it is added
-- to a pointer: the bit pattern of a negative one is extended to 64 bits.
unfoldable pub leaf_address : ℕ → ℕ
leaf_address block =
    let product = block * block_len % 2 ^ 32 in
    if ltb product (2 ^ 31) then product else product + (2 ^ 64 - 2 ^ 32)

-- `hash_node`: the hash of the node is written to `output + out`. The array `hash_cat` is the
-- caller's, and is written before it is read.
unfoldable pub hash_node : ℕ → Bytes → ℕ → Filesys → Bytes
hash_node n_index output out fs =
    if ltb n_index fs.leaf_offset
    then fletcher (concat_children n_index fs.hash) 0 (2 * hash_len) output out
    else fletcher fs.file (leaf_address (n_index - fs.leaf_offset)) block_len output out

-- The loop of `compute_hash_tree`. The next level begins at `nodes_in_level - 1`, which is -1 only
-- where the loop ends. A level of `n` nodes and those above it take less than `2 * n` rounds.
unfoldable pub tree_loop : ℕ → ℕ → ℕ → ℕ → Filesys → Run Filesys
tree_loop zero n_index n_count nodes_in_level fs = out_of_fuel
tree_loop (suc fuel) n_index n_count nodes_in_level fs = elim (ltb 0 nodes_in_level) [
  | false ↦ ok fs
  | true ↦
      let fs' = record fs { hash = hash_node n_index fs.hash (n_index * hash_len) fs } in
      elim (ltb (n_count + 1) nodes_in_level) [
        | true ↦ tree_loop fuel (n_index + 1) (n_count + 1) nodes_in_level fs'
        | false ↦ tree_loop fuel (nodes_in_level / 2 - 1) 0 (nodes_in_level / 2) fs'
      ]
]

-- `compute_hash_tree`
unfoldable pub compute_hash_tree : Filesys → Run Filesys
compute_hash_tree fs =
    tree_loop (2 * (fs.leaf_offset + 1) + 1) fs.leaf_offset 0 (fs.leaf_offset + 1) fs

-- The body of the loop of `compute_hash_block_helper`: the hash of an inner node from its children.
unfoldable pub rehash : ℕ → Bytes → Bytes
rehash n_index hash =
    fletcher (concat_children n_index hash) 0 (2 * hash_len) hash (n_index * hash_len)

-- The loop of `compute_hash_block_helper`, over the ancestors of a node. A parent has a smaller
-- index, and node 0 has none: as many rounds as the index are enough.
unfoldable pub ancestor_loop : ℕ → ℕ → Bytes → Bytes
ancestor_loop zero n_index hash = hash
ancestor_loop (suc fuel) n_index hash = elim (p_index n_index) [
  | negsuc _ ↦ hash
  | pos parent ↦ ancestor_loop fuel parent (rehash parent hash)
]

-- `compute_hash_block_helper`
unfoldable pub compute_hash_block_helper : ℕ → Filesys → Filesys
compute_hash_block_helper block_offset fs =
    let n_index = fs.leaf_offset + block_offset in
    let leaf = fletcher fs.file (block_offset * block_len) block_len fs.hash (n_index * hash_len) in
    record fs { hash = ancestor_loop n_index n_index leaf }

-- `compute_hash_block`
unfoldable pub compute_hash_block : ℕ → Filesys → Filesys
compute_hash_block block_offset fs = compute_hash_block_helper block_offset fs

-- The loop of `compute_hash_block_range`: `k` blocks from block `i` on.
unfoldable pub block_loop : ℕ → ℕ → Filesys → Filesys
block_loop zero i fs = fs
block_loop (suc k) i fs = block_loop k (i + 1) (compute_hash_block_helper i fs)

-- `0 < n` of the `int64_t` with the bit pattern `n`
abbrev pub is_positive64 : ℕ → Bool
is_positive64 n = ltb 0 n && ltb n (2 ^ 63)

-- `compute_hash_block_range`, with a length given by its bit pattern
unfoldable pub compute_hash_block_range : ℕ → ℕ → Filesys → Filesys
compute_hash_block_range offset length fs =
    let first_block = offset / block_len in
    let last_block = (offset + length - 1) / block_len in
    if is_positive64 length then block_loop (last_block + 1 - first_block) first_block fs else fs

-- The `memcmp` of `verify_hash_range`, on one node.
unfoldable pub is_node_valid : ℕ → Filesys → Bool
is_node_valid n_index fs =
    memcmp_equal (hash_node n_index (λ _. 0) 0 fs) 0 fs.hash (n_index * hash_len) hash_len

-- The inner loop of `verify_hash_range`, from a node up to the root. Rounds as in `ancestor_loop`.
unfoldable pub verify_loop : ℕ → ℕ → Filesys → Bool
verify_loop zero n_index fs = is_node_valid n_index fs
verify_loop (suc fuel) n_index fs = elim (is_node_valid n_index fs) [
  | false ↦ false
  | true ↦ elim (p_index n_index) [ negsuc _ ↦ true | pos parent ↦ verify_loop fuel parent fs ]
]

-- The outer loop of `verify_hash_range`: `k` blocks from block `i` on.
unfoldable pub verify_blocks : ℕ → ℕ → Filesys → Bool
verify_blocks zero i fs = true
verify_blocks (suc k) i fs = elim (verify_loop (fs.leaf_offset + i) (fs.leaf_offset + i) fs) [
  | false ↦ false
  | true ↦ verify_blocks k (i + 1) fs
]

-- `verify_hash_range`: 0 if every hash is right, else 1
unfoldable pub verify_hash_range : ℕ → ℕ → Filesys → ℕ
verify_hash_range offset length fs =
    let first_block = offset / block_len in
    let last_block = (offset + length - 1) / block_len in
    if is_positive64 length
    then (if verify_blocks (last_block + 1 - first_block) first_block fs then 0 else 1)
    else 0
