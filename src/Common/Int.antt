-- ===== src/Common/Int.antt =====
-- Signed results, such as an index that may be -1, and the wrap-around of `uint64_t`.
use Prim.Native.Nat.{ℕ, zero, suc, ◌+◌, ◌-◌, ◌%◌, ◌^◌}
use mathlib.Core.Path.{◌≡◌, refl}
use mathlib.Core.Logic.{◌⊎◌, inl, inr}
use mathlib.Core.Bool.{Bool, true, false, ◌||◌}
use virtual_file_system.Common.Tests.{leb, ◌==◌}

-- `negsuc n` is -(n + 1).
pub data ℤ : Type 0 where
  pos : ℕ → ℤ
  negsuc : ℕ → ℤ

-- -1
abbrev pub minus_one : ℤ
minus_one = negsuc 0

-- `x + 1`
abbrev pub increment : ℤ → ℤ
increment (pos n) = pos (suc n)
increment (negsuc zero) = pos 0
increment (negsuc (suc n)) = negsuc n

-- `x - 1`
abbrev pub decrement : ℤ → ℤ
decrement (pos zero) = negsuc 0
decrement (pos (suc n)) = pos n
decrement (negsuc n) = negsuc (suc n)

-- `x < 0`
abbrev pub is_negative : ℤ → Bool
is_negative (pos _) = false
is_negative (negsuc _) = true

-- `uint64_t` and `size_t` sums and differences; an `int64_t` is held by its bit pattern.
abbrev pub add64 : ℕ → ℕ → ℕ
add64 a b = (a + b) % 2 ^ 64

abbrev pub sub64 : ℕ → ℕ → ℕ
sub64 a b = (a + 2 ^ 64 - b) % 2 ^ 64

-- `n <= 0` of the `int64_t` with the bit pattern `n`
abbrev pub is_nonpositive64 : ℕ → Bool
is_nonpositive64 n = (n == 0) || leb (2 ^ 63) n

pub ℤ-cases : (z : ℤ) → ((p : ℕ) × (z ≡ pos p)) ⊎ ((k : ℕ) × (z ≡ negsuc k))
ℤ-cases (pos p) = inl (p, refl)
ℤ-cases (negsuc k) = inr (k, refl)

pub pos_injective : {m n : ℕ} → pos m ≡ pos n → m ≡ n
pos_injective e = cc
