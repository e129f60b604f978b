-- ===== src/Memory.antt =====
-- What the source uses of <string.h>, on byte memories: a C call `memcpy(dst + d, src + s, n)` is
-- `memcpy dst d src s n`. Integers are stored little-endian, as on the machines that it runs on.
pub mod Order
pub mod Copy
use virtual_file_system.Common.{
  ℕ, zero, suc, ◌+◌, ◌-◌, ◌*◌, ◌/◌, ◌%◌, ◌^◌, compare, Ordering, Bool, true, false, ◌&&◌, [], ◌∷◌,
  ltb, leb, if◌then◌else◌, get_or,
}
use virtual_file_system.Structs.{Bytes, CString}

-- `d ≤ a < d + n`
abbrev pub within : ℕ → ℕ → ℕ → Bool
within d n a = leb d a && ltb a (d + n)

-- `memcpy`, and `memmove` too: all bytes are read before any is written.
unfoldable pub memcpy : Bytes → ℕ → Bytes → ℕ → ℕ → Bytes
memcpy dst d src s n a = if within d n a then src (s + (a - d)) else dst a

unfoldable pub memset : Bytes → ℕ → ℕ → ℕ → Bytes
memset dst d v n a = if within d n a then v else dst a

-- The bytes of an integer in memory.
unfoldable pub bytes_of : ℕ → Bytes
bytes_of v k = v / 256 ^ k % 256

-- A `uint32_t` read at an address.
unfoldable pub load32 : Bytes → ℕ → ℕ
load32 m a = m a + 256 * m (a + 1) + 65536 * m (a + 2) + 16777216 * m (a + 3)

-- The first `n` bytes of two memories, from `a` and `b` on, agree: `memcmp(...) == 0`
unfoldable pub memcmp_equal : Bytes → ℕ → Bytes → ℕ → ℕ → Bool
memcmp_equal x a y b zero = true
memcmp_equal x a y b (suc n) =
    (elim (compare (x (a + n)) (y (b + n))) [ Ordering.eq ↦ true | _ ↦ false ])
    && memcmp_equal x a y b n

-- The bytes of a string, with its terminator.
unfoldable pub string_bytes : CString → Bytes
string_bytes s k = get_or s k 0

-- The sign of `strncmp(a, b, n)`: strings compare as sequences of unsigned bytes.
unfoldable pub strncmp : ℕ → CString → CString → Ordering
strncmp zero a b = Ordering.eq
strncmp (suc n) [] [] = Ordering.eq
strncmp (suc n) [] (y ∷ b) = Ordering.lt
strncmp (suc n) (x ∷ a) [] = Ordering.gt
strncmp (suc n) (x ∷ a) (y ∷ b) = elim (compare x y) [
  | Ordering.lt ↦ Ordering.lt
  | Ordering.eq ↦ strncmp n a b
  | Ordering.gt ↦ Ordering.gt
]

-- The sign of `strcmp(a, b)`.
unfoldable pub strcmp : CString → CString → Ordering
strcmp [] [] = Ordering.eq
strcmp [] (y ∷ b) = Ordering.lt
strcmp (x ∷ a) [] = Ordering.gt
strcmp (x ∷ a) (y ∷ b) = elim (compare x y) [
  | Ordering.lt ↦ Ordering.lt
  | Ordering.eq ↦ strcmp a b
  | Ordering.gt ↦ Ordering.gt
]
