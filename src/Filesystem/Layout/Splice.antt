-- ===== src/Filesystem/Layout/Splice.antt =====
-- A value that is inserted into a sequence, or removed from it: sums and intervals in order.
use native.Mathlib.Decide.{dec_lt, ℕ_discrete}
use virtual_file_system.Common.{ℕ, zero, suc, ◌+◌, ◌-◌, ◌≤◌, ◌<◌, ◌≡◌, refl, arith}
use virtual_file_system.Filesystem.Layout.{sum_below}

-- `f'` is `f`, of `n` values, with `x` inserted at `k`.
pub record Spliced (k n x : ℕ) (f f' : ℕ → ℕ) : Type 0 where
  pub low : (j : ℕ) → j < k → f' j ≡ f j
  pub at : f' k ≡ x
  pub high : (j : ℕ) → k ≤ j → j < n → f' (j + 1) ≡ f j

module _ (k n x : ℕ) (f f' : ℕ → ℕ) (inside : k ≤ n) (s : Spliced k n x f f') where
  sum_low : (m : ℕ) → m ≤ k → sum_below f' m ≡ sum_below f m
  sum_low zero q = refl
  sum_low (suc m) q = omega (arith, sum_low m (omega arith), s.low m (omega arith))

  sum_high : (d : ℕ) → k + d ≤ n → sum_below f' (suc (k + d)) ≡ sum_below f (k + d) + x
  sum_high zero q =
      let e : k + 0 ≡ k = omega arith in rw e (omega (arith, sum_low k (omega arith), s.at))
  sum_high (suc d) q =
      let e : k + suc d ≡ suc (k + d) = omega arith in
      let e' : suc (k + d) ≡ k + d + 1 = omega arith in
      let next : f' (suc (k + d)) ≡ f (k + d) =
        rw e' (s.high (k + d) (omega arith) (omega arith)) in
      rw e (omega (arith, sum_high d (omega arith), next))

  pub sum_below-Spliced : sum_below f' (n + 1) ≡ sum_below f n + x
  sum_below-Spliced =
      let e : n + 1 ≡ suc n = omega arith in
      let e' : k + (n - k) ≡ n = omega arith in rw e (rw e' at (sum_high (n - k) (omega arith)))

  -- A value of the new sequence is an old one or the inserted one.
  pub each-Spliced {ℓ} :
      (P : ℕ → Type ℓ)
      → P k
      → ((j : ℕ) → j < k → P j)
      → ((j : ℕ) → k ≤ j → j < n → P (j + 1))
      → (j : ℕ) → j < n + 1
      → P j
  each-Spliced P here low high j q = elim (dec_lt j k) [
    | yes l ↦ low j l
    | no h ↦ elim (ℕ_discrete j k) [
      | yes e ↦ rw e here
      | no ne ↦
          (let i : ℕ = j - 1 in
            let e : j ≡ i + 1 = omega arith in rw e (high i (omega arith) (omega arith)))
    ]
  ]

-- Intervals from `f j`, of length `g j`, stay in order when one is inserted between them.
pub apart-Spliced :
    (k n x y : ℕ) (f f' g g' : ℕ → ℕ)
    → k ≤ n
    → Spliced k n x f f'
    → Spliced k n y g g'
    → ((j : ℕ) → j + 1 < n → f j + g j ≤ f (j + 1))
    → ((j : ℕ) → j < k → f j + g j ≤ x)
    → ((j : ℕ) → k ≤ j → j < n → x + y ≤ f j)
    → (j : ℕ) → j + 1 < n + 1
    → f' j + g' j ≤ f' (j + 1)
apart-Spliced k n x y f f' g g' inside s t apart before behind j q =
    each-Spliced k n x f f' inside s (λ i. i + 1 < n + 1 → f' i + g' i ≤ f' (i + 1)) here low high j
      (omega arith) q
  where
    here : k + 1 < n + 1 → f' k + g' k ≤ f' (k + 1)
    here q = omega (
      arith,
      s.at,
      t.at,
      s.high k (omega arith) (omega arith),
      behind k (omega arith) (omega arith),
    )

    low : (j : ℕ) → j < k → j + 1 < n + 1 → f' j + g' j ≤ f' (j + 1)
    low j p q = elim (ℕ_discrete (j + 1) k) [
      | yes e ↦ rw e (omega (arith, s.low j p, t.low j p, s.at, before j p))
      | no ne ↦
          omega (arith, s.low j p, t.low j p, s.low (j + 1) (omega arith), apart j (omega arith))
    ]

    high : (j : ℕ) → k ≤ j → j < n → j + 1 + 1 < n + 1 → f' (j + 1) + g' (j + 1) ≤ f' (j + 1 + 1)
    high j p q r = omega (
      arith,
      s.high j p q,
      t.high j p q,
      s.high (j + 1) (omega arith) (omega arith),
      apart j (omega arith),
    )
