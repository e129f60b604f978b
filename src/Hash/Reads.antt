-- ===== src/Hash/Reads.antt =====
-- Which bytes `fletcher`, `hash_node` and `rehash` read and write.
use virtual_file_system.Common.{
  ℕ, zero, suc, ◌+◌, ◌-◌, ◌*◌, ◌/◌, ◌%◌, ◌≤◌, ◌<◌, ◌≡◌, refl, fun_ext, ap₂, ◌⊎◌, ◌==◌,
  if◌then◌else◌, arith,
}
use virtual_file_system.Structs.{Bytes, hash_len}
use virtual_file_system.Memory.{memcpy, load32}
use virtual_file_system.Helper.{lc_index, rc_index}
use virtual_file_system.Hash.{Sums, add_word, word_loop, fletcher_sums, fletcher, concat_children}

-- `x + a` and `y + b` hold the same `n` bytes.
abbrev pub Agree : Bytes → ℕ → Bytes → ℕ → ℕ → Type 0
Agree x a y b n = (k : ℕ) → k < n → x (a + k) ≡ y (b + k)

load32_cong :
    (x y : Bytes) (a b i : ℕ)
    → ((k : ℕ) → k < 4 → x (a + (i + k)) ≡ y (b + (i + k)))
    → load32 x (a + i) ≡ load32 y (b + i)
unfolding load32
load32_cong x y a b i h =
    ground (arith, h 0 (omega arith), h 1 (omega arith), h 2 (omega arith), h 3 (omega arith))

word_loop_cong :
    (k i : ℕ) (x y : Bytes) (a b : ℕ) (s : Sums)
    → Agree x a y b (4 * (i + k))
    → word_loop k i x a s ≡ word_loop k i y b s
unfolding word_loop
word_loop_cong zero i x y a b s h = refl
word_loop_cong (suc k) i x y a b s h =
    rw (load32_cong x y a b (4 * i) (λ j p. h (4 * i + j) (omega arith)))
      (word_loop_cong k (i + 1) x y a b _ (λ j p. h j (omega arith)))

rest_cong :
    (x y : Bytes) (a b n : ℕ) → Agree x a y b n → memcpy (λ _. 0) 0 x a n ≡ memcpy (λ _. 0) 0 y b n
unfolding memcpy
rest_cong x y a b n h = fun_ext (λ k. ground (arith, h (k - 0)))

-- `fletcher` reads the `length` bytes that it is given, and no others.
pub fletcher_sums_cong :
    (x y : Bytes) (a b length : ℕ)
    → Agree x a y b length
    → fletcher_sums x a length ≡ fletcher_sums y b length
unfolding fletcher_sums
fletcher_sums_cong x y a b length h =
    ap₂ (λ s m. if length % 4 == 0 then s else add_word (load32 m 0) s)
      (word_loop_cong (length / 4) 0 x y a b _ (λ k p. h k (omega arith)))
      (rest_cong x y (a + 4 * (length / 4)) (b + 4 * (length / 4)) (length % 4)
        (λ k p. ground (arith, h (4 * (length / 4) + k) (omega arith))))

module _ (buf : Bytes) (at length : ℕ) (output : Bytes) (out : ℕ) where
  -- `fletcher` writes 16 bytes, which do not depend on where.
  pub fletcher-inside :
      (k : ℕ)
      → k < hash_len
      → fletcher buf at length output out (out + k) ≡ fletcher buf at length (λ _. 0) 0 k
  unfolding fletcher memcpy
  fletcher-inside k h = ground arith

  pub fletcher-outside :
      (a : ℕ) → (a < out) ⊎ (out + hash_len ≤ a) → fletcher buf at length output out a ≡ output a
  unfolding fletcher memcpy
  fletcher-outside a h = ground arith

concat_children_lem :
    (n : ℕ) (hash : Bytes) (k : ℕ)
    → k < 32
    → concat_children n hash k ≡ hash ((2 * n + 1) * hash_len + k)
unfolding concat_children memcpy lc_index rc_index
concat_children_lem n hash k h = ground arith

-- The children of a node lie one behind the other in `hash_data`.
pub children_cong :
    (n : ℕ) (hash hash' : Bytes)
    → Agree hash ((2 * n + 1) * hash_len) hash' ((2 * n + 1) * hash_len) 32
    → fletcher_sums (concat_children n hash) 0 32 ≡ fletcher_sums (concat_children n hash') 0 32
children_cong n hash hash' h = fletcher_sums_cong _ _ 0 0 32 (λ k p.
    ground
      (arith, concat_children_lem n hash (0 + k), concat_children_lem n hash' (0 + k), h (0 + k)))
