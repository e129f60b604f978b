-- ===== src/Arr/Search.antt =====
-- The binary search of `arr_get_index`, for any comparison with the elements.
use native.Mathlib.Decide.{dec_lt}
use virtual_file_system.Common.{
  ℕ, zero, suc, ◌+◌, ◌-◌, ◌/◌, ◌≤◌, ◌<◌, ◌≡◌, refl, ◌∙◌, ◌⊎◌, inl, inr, Ordering, Bool, true, false,
  leb, if◌then◌else◌, pos, minus_one, ok, arith,
}
use virtual_file_system.Arr.{search_loop}

pub Ordering-cases : (o : Ordering) → (o ≡ Ordering.lt) ⊎ ((o ≡ Ordering.eq) ⊎ (o ≡ Ordering.gt))
Ordering-cases Ordering.lt = inl refl
Ordering-cases Ordering.eq = inr (inl refl)
Ordering-cases Ordering.gt = inr (inr refl)

module _ (cmp : ℕ → Ordering) (insert : Bool) where
  -- One round, by the result of the comparison.
  module _ (fuel l h : ℕ) where
    round_lt :
        cmp ((l + h) / 2) ≡ Ordering.lt
        → search_loop (suc fuel) cmp insert l h ≡ (
            if leb ((l + h) / 2) l
            then ok (if insert then pos ((l + h) / 2) else minus_one)
            else search_loop fuel cmp insert l ((l + h) / 2 - 1))
    unfolding search_loop
    round_lt e = rw (e, search_loop) (ground arith)

    round_gt :
        cmp ((l + h) / 2) ≡ Ordering.gt
        → search_loop (suc fuel) cmp insert l h ≡ (
            if leb h ((l + h) / 2)
            then ok (if insert then pos ((l + h) / 2 + 1) else minus_one)
            else search_loop fuel cmp insert ((l + h) / 2 + 1) h)
    unfolding search_loop
    round_gt e = rw (e, search_loop) (ground arith)

    round_eq :
        cmp ((l + h) / 2) ≡ Ordering.eq
        → search_loop (suc fuel) cmp insert l h
          ≡ ok (if insert then minus_one else pos ((l + h) / 2))
    unfolding search_loop
    round_eq e = rw (e, search_loop)

  -- On a sorted range from `l` to `h` that the key is not in, where the key is above the elements
  -- before `k` and below the others, the search ends within as many rounds as there are elements, and
  -- returns `k` for an insertion and else -1.
  pub search_loop-miss :
      (fuel l h k : ℕ)
      → l ≤ h
      → h < l + fuel
      → l ≤ k
      → k ≤ h + 1
      → ((m : ℕ) → m < k → cmp m ≡ Ordering.gt)
      → ((m : ℕ) → k ≤ m → m ≤ h → cmp m ≡ Ordering.lt)
      → search_loop fuel cmp insert l h ≡ ok (if insert then pos k else minus_one)
  search_loop-miss zero l h k a b c d below above = absurd (omega arith)
  search_loop-miss (suc fuel) l h k a b c d below above =
      let m = (l + h) / 2 in
      elim (dec_lt m k) [
        | yes p ↦ round_gt fuel l h (below m p) ∙ (elim (dec_lt m h) [
          | yes q ↦
              (let test : leb h m ≡ false = ground arith in
                rw test (
                  search_loop-miss fuel (m + 1) h k (omega arith) (omega arith) (omega arith) d
                    below above))
          | no q ↦
              (let test : leb h m ≡ true = ground arith in
                let here : m + 1 ≡ k = omega arith in rw test (rw here))
        ])
        | no p ↦ round_lt fuel l h (above m (omega arith) (omega arith)) ∙ (elim (dec_lt l m) [
          | yes q ↦
              (let test : leb m l ≡ false = ground arith in
                rw test (
                  search_loop-miss fuel l (m - 1) k (omega arith) (omega arith) c (omega arith)
                    below (λ j r s. above j r (omega arith))))
          | no q ↦
              (let test : leb m l ≡ true = ground arith in
                let here : m ≡ k = omega arith in rw test (rw here))
        ])
      ]

  -- On a sorted range from `l` to `h` whose element `k` has the key, which is above the elements
  -- before `k` and below those behind, the search ends within as many rounds as there are elements,
  -- and returns `k`, or -1 for an insertion.
  pub search_loop-hit :
      (fuel l h k : ℕ)
      → h < l + fuel
      → l ≤ k
      → k ≤ h
      → ((m : ℕ) → m < k → cmp m ≡ Ordering.gt)
      → cmp k ≡ Ordering.eq
      → ((m : ℕ) → k < m → m ≤ h → cmp m ≡ Ordering.lt)
      → search_loop fuel cmp insert l h ≡ ok (if insert then minus_one else pos k)
  search_loop-hit zero l h k b c d below at above = absurd (omega arith)
  search_loop-hit (suc fuel) l h k b c d below at above =
      let m = (l + h) / 2 in
      elim (dec_lt m k) [
        | yes p ↦
            (let test : leb h m ≡ false = ground arith in
              round_gt fuel l h (below m p)
              ∙ rw test
                  (search_loop-hit fuel (m + 1) h k (omega arith) (omega arith) d below at above))
        | no p ↦ elim (dec_lt k m) [
          | yes q ↦
              (let test : leb m l ≡ false = ground arith in
                round_lt fuel l h (above m q (omega arith))
                ∙ rw test (
                    search_loop-hit fuel l (m - 1) k (omega arith) c (omega arith) below at
                      (λ j r s. above j r (omega arith))))
          | no q ↦ (let here : m ≡ k = omega arith in round_eq fuel l h (rw here at) ∙ rw here)
        ]
      ]
