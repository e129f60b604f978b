-- ===== src/Common/Control.antt =====
-- Code that may stop at a failed `assert`. `out_of_fuel` ends a model of a loop whose rounds ran out.
use mathlib.Core.Path.{◌≡◌, refl}
use mathlib.Core.Bool.{Bool, true, false}

pub data Run {ℓ} (Result : Type ℓ) : Type ℓ where
  abort out_of_fuel : Run Result
  ok : Result → Run Result

infixl 5 ◌>>=◌ ◌>>◌
abbrev pub ◌>>=◌ {ℓ κ} :
    {Result : Type ℓ} {Next : Type κ} → Run Result → (Result → Run Next) → Run Next
abort >>= rest = abort
out_of_fuel >>= rest = out_of_fuel
ok result >>= rest = rest result

abbrev pub ◌>>◌ {ℓ} : {Next : Type ℓ} → Run (Unit {0}) → Run Next → Run Next
first >> rest = first >>= λ _. rest

abbrev pub assert : Bool → Run (Unit {0})
assert true = ok tt
assert false = abort

-- A chain returns only if its first part does, and then its rest returns from that value.
pub >>=-returns {ℓ κ} :
    {Result : Type ℓ} {Next : Type κ} (first : Run Result) (rest : Result → Run Next) {last : Next}
    → (first >>= rest) ≡ ok last
    → (result : Result) × (first ≡ ok result) × (rest result ≡ ok last)
>>=-returns abort rest h = cc
>>=-returns out_of_fuel rest h = cc
>>=-returns (ok result) rest h = (result, refl, h)
