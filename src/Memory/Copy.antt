-- ===== src/Memory/Copy.antt =====
-- Reads behind `memcpy` and `memset`, and integers written as bytes.
use virtual_file_system.Common.{ℕ, ◌-◌, fun_ext, ◌+◌, ◌%◌, ◌/◌, ◌^◌, ◌≤◌, ◌<◌, ◌≡◌, ◌⊎◌, arith}
use virtual_file_system.Structs.{Bytes}
use virtual_file_system.Memory.{memcpy, memset, bytes_of, load32}

module _ (dst : Bytes) (d : ℕ) (src : Bytes) (s n : ℕ) where
  pub memcpy-inside : (k : ℕ) → k < n → memcpy dst d src s n (d + k) ≡ src (s + k)
  unfolding memcpy
  memcpy-inside k h = ground arith

  pub memcpy-outside : (a : ℕ) → (a < d) ⊎ (d + n ≤ a) → memcpy dst d src s n a ≡ dst a
  unfolding memcpy
  memcpy-outside a h = ground arith

  pub memcpy-none : memcpy dst d src s 0 ≡ dst
  unfolding memcpy
  memcpy-none = fun_ext (λ a. ground arith)

-- The first byte of a copy.
pub memcpy-first :
    (dst : Bytes) (d : ℕ) (src : Bytes) (s n : ℕ) → 0 < n → memcpy dst d src s n d ≡ src s
unfolding memcpy
memcpy-first dst d src s n h = let e : s + (d - d) ≡ s = omega arith in rw e (ground arith)

-- A copy to the front.
pub memcpy-front : (dst src : Bytes) (s n k : ℕ) → k < n → memcpy dst 0 src s n k ≡ src (s + k)
unfolding memcpy
memcpy-front dst src s n k h = ground arith

module _ (dst : Bytes) (d v n : ℕ) where
  pub memset-inside : (k : ℕ) → k < n → memset dst d v n (d + k) ≡ v
  unfolding memset
  memset-inside k h = ground arith

  pub memset-outside : (a : ℕ) → (a < d) ⊎ (d + n ≤ a) → memset dst d v n a ≡ dst a
  unfolding memset
  memset-outside a h = ground arith

-- A `uint32_t` is read back from its four bytes.
pub load32-bytes_of :
    (m : Bytes) (a v : ℕ)
    → v < 2 ^ 32
    → ((k : ℕ) → k < 4 → m (a + k) ≡ bytes_of v k)
    → load32 m a ≡ v
unfolding load32 bytes_of
load32-bytes_of m a v h same =
    let e0 : m a ≡ v % 256 = ground (arith, same 0 (omega arith)) in
    let e1 : m (a + 1) ≡ v / 256 % 256 = ground (arith, same 1 (omega arith)) in
    let e2 : m (a + 2) ≡ v / 65536 % 256 = ground (arith, same 2 (omega arith)) in
    let e3 : m (a + 3) ≡ v / 16777216 % 256 = ground (arith, same 3 (omega arith)) in
    omega (arith, e0, e1, e2, e3)
