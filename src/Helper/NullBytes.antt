-- ===== src/Helper/NullBytes.antt =====
-- `pwrite_null_byte` has the effect of `write_null_byte`.
use virtual_file_system.Common.{
  is_nonpositive64, ℕ, zero, suc, ◌+◌, ◌<◌, ◌≡◌, refl, fun_ext, ◌∙◌, ap, inl, inr, ◌&&◌, true, ltb,
  leb, Bool-cases, update, ok, arith,
}
use virtual_file_system.Structs.{max_file_data_len, Bytes}
use virtual_file_system.Memory.{memset}
use virtual_file_system.Helper.{write_null_byte, pwrite_loop, pwrite_null_byte}

pwrite_loop-memset :
    (k i offset : ℕ) (f : Bytes) → pwrite_loop k i offset f ≡ memset f (offset + i) 0 k
unfolding pwrite_loop memset
pwrite_loop-memset zero i offset f = fun_ext (λ a. ground arith)
pwrite_loop-memset (suc k) i offset f =
    pwrite_loop-memset k (i + 1) offset (update f (offset + i) 0) ∙ fun_ext (λ a. ground arith)

nothing : (f : Bytes) (offset : ℕ) → f ≡ memset f offset 0 0
unfolding memset
nothing f offset = fun_ext (λ a. ground arith)

-- For a count and an offset below 2^32, `write_null_byte` on the mapped bytes and
-- `pwrite_null_byte` on the file do not abort, and set the same `count` bytes to 0.
pub pwrite_null_byte-write_null_byte :
    (f : Bytes) (offset count : ℕ)
    → offset < max_file_data_len
    → count < max_file_data_len
    → (pwrite_null_byte f offset count ≡ ok (memset f offset 0 count))
      × (write_null_byte f offset count ≡ ok (memset f offset 0 count))
unfolding pwrite_null_byte write_null_byte
pwrite_null_byte-write_null_byte f offset count p q = elim (Bool-cases (is_nonpositive64 count)) [
  | inl e ↦
      (let none : count ≡ 0 = ground arith in
        let same : f ≡ memset f offset 0 count = rw none (nothing f offset) in
        rw e (ap ok same, ap ok same))
  | inr e ↦
      (let test : (leb count max_file_data_len && leb offset max_file_data_len) ≡ true =
          ground arith in
        let test' : (ltb count max_file_data_len && ltb offset max_file_data_len) ≡ true =
          ground arith in
        let start : offset + 0 ≡ offset = omega arith in
        rw e (rw (test, test') (ap ok (rw start at (pwrite_loop-memset count 0 offset f)), refl)))
]
