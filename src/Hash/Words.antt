-- ===== src/Hash/Words.antt =====
-- The four sums of `fletcher`, and the 16 bytes that hold them.
use virtual_file_system.Common.{
  ℕ, zero, suc, ◌+◌, ◌*◌, ◌/◌, ◌%◌, ◌<◌, ◌≡◌, inl, inr, ◌==◌, Bool-cases, arith,
}
use virtual_file_system.Structs.{
  max_file_data_len_minus_one, hash_offset_b, hash_offset_c, hash_offset_d, Bytes,
}
use virtual_file_system.Memory.{memcpy, bytes_of, load32}
use virtual_file_system.Memory.Copy.{load32-bytes_of}
use virtual_file_system.Hash.{Sums, add_word, word_loop, fletcher_sums, fletcher}

-- Each sum is a remainder modulo 2^32 - 1.
abbrev pub IsReduced : Sums → Type 0
IsReduced s =
    (s.a < max_file_data_len_minus_one)
    × (s.b < max_file_data_len_minus_one)
    × (s.c < max_file_data_len_minus_one)
    × (s.d < max_file_data_len_minus_one)

add_word-IsReduced : (word : ℕ) (s : Sums) → IsReduced (add_word word s)
unfolding add_word
add_word-IsReduced word s = (omega arith, omega arith, omega arith, omega arith)

word_loop-IsReduced :
    (k i : ℕ) (buf : Bytes) (at : ℕ) (s : Sums) → IsReduced s → IsReduced (word_loop k i buf at s)
unfolding word_loop
word_loop-IsReduced zero i buf at s h = h
word_loop-IsReduced (suc k) i buf at s h =
    word_loop-IsReduced k (i + 1) buf at _ (add_word-IsReduced (load32 buf (at + 4 * i)) s)

fletcher_sums-IsReduced : (buf : Bytes) (at length : ℕ) → IsReduced (fletcher_sums buf at length)
unfolding fletcher_sums
fletcher_sums-IsReduced buf at length = elim (Bool-cases (length % 4 == 0)) [
  | inl e ↦ rw e (
      word_loop-IsReduced (length / 4) 0 buf at _
        (omega arith, omega arith, omega arith, omega arith))
  | inr e ↦ rw e (add_word-IsReduced _ _)
]

module _ (buf : Bytes) (at length : ℕ) (output : Bytes) (out : ℕ) where
  abbrev sums : Sums
  sums = fletcher_sums buf at length

  word_a : (k : ℕ) → k < 4 → fletcher buf at length output out (out + k) ≡ bytes_of sums.a k
  unfolding fletcher memcpy
  word_a k h = ground arith

  word_b :
      (k : ℕ)
      → k < 4
      → fletcher buf at length output out (out + hash_offset_b + k) ≡ bytes_of sums.b k
  unfolding fletcher memcpy
  word_b k h = ground arith

  word_c :
      (k : ℕ)
      → k < 4
      → fletcher buf at length output out (out + hash_offset_c + k) ≡ bytes_of sums.c k
  unfolding fletcher memcpy
  word_c k h = ground arith

  word_d :
      (k : ℕ)
      → k < 4
      → fletcher buf at length output out (out + hash_offset_d + k) ≡ bytes_of sums.d k
  unfolding fletcher memcpy
  word_d k h = ground arith

-- The sums of `fletcher` are below 2^32 - 1 for any input, so that they fit in a `uint32_t`, and
-- the four words at `output + out` are these sums.
pub fletcher-IsReduced :
    (buf : Bytes) (at length : ℕ) (output : Bytes) (out : ℕ)
    → IsReduced (fletcher_sums buf at length)
      × (load32 (fletcher buf at length output out) out ≡ (fletcher_sums buf at length).a)
      × (load32 (fletcher buf at length output out) (out + hash_offset_b)
          ≡ (fletcher_sums buf at length).b)
      × (load32 (fletcher buf at length output out) (out + hash_offset_c)
          ≡ (fletcher_sums buf at length).c)
      × (load32 (fletcher buf at length output out) (out + hash_offset_d)
          ≡ (fletcher_sums buf at length).d)
fletcher-IsReduced buf at length output out =
    let (a, b, c, d) = fletcher_sums-IsReduced buf at length in
    (
      (a, b, c, d),
      load32-bytes_of _ out _ (omega arith) (word_a buf at length output out),
      load32-bytes_of _ (out + hash_offset_b) _ (omega arith) (word_b buf at length output out),
      load32-bytes_of _ (out + hash_offset_c) _ (omega arith) (word_c buf at length output out),
      load32-bytes_of _ (out + hash_offset_d) _ (omega arith) (word_d buf at length output out),
    )
