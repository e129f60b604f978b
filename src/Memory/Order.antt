-- ===== src/Memory/Order.antt =====
-- `strncmp` orders strings by their first `n` bytes.
use virtual_file_system.Common.{
  ℕ, zero, suc, ◌≡◌, refl, sym, ap₂, ◌∙◌, Ordering, [], ◌∷◌, take, arith,
}
use virtual_file_system.Structs.{CString}
use virtual_file_system.Memory.{strncmp, strcmp}

pub strncmp-eq_self : (n : ℕ) (a : CString) → strncmp n a a ≡ Ordering.eq
unfolding strncmp
strncmp-eq_self zero a = refl
strncmp-eq_self (suc n) [] = refl
strncmp-eq_self (suc n) (x ∷ a) = ground (arith, strncmp-eq_self n a)

pub strncmp-gt_of_lt :
    (n : ℕ) (a b : CString) → strncmp n a b ≡ Ordering.lt → strncmp n b a ≡ Ordering.gt
unfolding strncmp
strncmp-gt_of_lt zero a b h = ground arith
strncmp-gt_of_lt (suc n) [] [] h = ground arith
strncmp-gt_of_lt (suc n) [] (y ∷ b) h = refl
strncmp-gt_of_lt (suc n) (x ∷ a) [] h = ground arith
strncmp-gt_of_lt (suc n) (x ∷ a) (y ∷ b) h = ground (arith, strncmp-gt_of_lt n a b)

pub strncmp-lt_of_gt :
    (n : ℕ) (a b : CString) → strncmp n a b ≡ Ordering.gt → strncmp n b a ≡ Ordering.lt
unfolding strncmp
strncmp-lt_of_gt zero a b h = ground arith
strncmp-lt_of_gt (suc n) [] [] h = ground arith
strncmp-lt_of_gt (suc n) (x ∷ a) [] h = refl
strncmp-lt_of_gt (suc n) [] (y ∷ b) h = ground arith
strncmp-lt_of_gt (suc n) (x ∷ a) (y ∷ b) h = ground (arith, strncmp-lt_of_gt n a b)

pub strncmp_trans :
    (n : ℕ) (a b c : CString)
    → strncmp n a b ≡ Ordering.lt
    → strncmp n b c ≡ Ordering.lt
    → strncmp n a c ≡ Ordering.lt
unfolding strncmp
strncmp_trans zero a b c h k = ground arith
strncmp_trans (suc n) [] [] [] h k = ground arith
strncmp_trans (suc n) [] [] (z ∷ c) h k = refl
strncmp_trans (suc n) [] (y ∷ b) [] h k = ground arith
strncmp_trans (suc n) [] (y ∷ b) (z ∷ c) h k = refl
strncmp_trans (suc n) (x ∷ a) [] c h k = ground arith
strncmp_trans (suc n) (x ∷ a) (y ∷ b) [] h k = ground arith
strncmp_trans (suc n) (x ∷ a) (y ∷ b) (z ∷ c) h k = ground (arith, strncmp_trans n a b c)

pub strncmp-lt_of_eq :
    (n : ℕ) (a b c : CString)
    → strncmp n a b ≡ Ordering.eq
    → strncmp n b c ≡ Ordering.lt
    → strncmp n a c ≡ Ordering.lt
unfolding strncmp
strncmp-lt_of_eq zero a b c h k = ground arith
strncmp-lt_of_eq (suc n) [] [] c h k = k
strncmp-lt_of_eq (suc n) [] (y ∷ b) c h k = ground arith
strncmp-lt_of_eq (suc n) (x ∷ a) [] c h k = ground arith
strncmp-lt_of_eq (suc n) (x ∷ a) (y ∷ b) [] h k = ground arith
strncmp-lt_of_eq (suc n) (x ∷ a) (y ∷ b) (z ∷ c) h k = ground (arith, strncmp-lt_of_eq n a b c)

-- Strings that compare equal have the same first `n` bytes.
pub take_of_strncmp-eq : (n : ℕ) (a b : CString) → strncmp n a b ≡ Ordering.eq → take n a ≡ take n b
unfolding strncmp
take_of_strncmp-eq zero a b h = refl
take_of_strncmp-eq (suc n) [] [] h = refl
take_of_strncmp-eq (suc n) [] (y ∷ b) h = ground arith
take_of_strncmp-eq (suc n) (x ∷ a) [] h = ground arith
take_of_strncmp-eq (suc n) (x ∷ a) (y ∷ b) h = ground (arith, take_of_strncmp-eq n a b)

-- `strcmp` gives 0 only for equal strings.
pub strcmp-eq : (a b : CString) → strcmp a b ≡ Ordering.eq → a ≡ b
unfolding strcmp
strcmp-eq [] [] h = refl
strcmp-eq [] (y ∷ b) h = ground arith
strcmp-eq (x ∷ a) [] h = ground arith
strcmp-eq (x ∷ a) (y ∷ b) h = ground (arith, strcmp-eq a b)

pub take-take : (n : ℕ) (a : CString) → take n (take n a) ≡ take n a
take-take zero a = refl
take-take (suc n) [] = refl
take-take (suc n) (x ∷ a) = ap₂ ◌∷◌ refl (take-take n a)

strncmp-take : (n : ℕ) (a b : CString) → strncmp n (take n a) (take n b) ≡ strncmp n a b
unfolding strncmp
strncmp-take zero a b = refl
strncmp-take (suc n) [] [] = refl
strncmp-take (suc n) [] (y ∷ b) = refl
strncmp-take (suc n) (x ∷ a) [] = refl
strncmp-take (suc n) (x ∷ a) (y ∷ b) = ground (arith, strncmp-take n a b)

pub strncmp-eq_of_take : (n : ℕ) (a b : CString) → take n a ≡ take n b → strncmp n a b ≡ Ordering.eq
strncmp-eq_of_take n a b h = sym (strncmp-take n a b) ∙ rw h (strncmp-eq_self n (take n b))
