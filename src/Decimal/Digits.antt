-- ===== src/Decimal/Digits.antt =====
-- Powers of ten, and what is left of a number when its last digits are rounded away.
use afterhours.Prelude.{ℕ, zero, suc, ◌%◌, ◌+◌, ◌*◌, ◌/◌, ◌^◌, ◌≤◌, ◌<◌, ◌≡◌, arith, inl, inr}
use afterhours.Decimal.Round.{digits, digits_bounds, div_half_even, div_half_even_neighbour}

pub pow_pos : (k : ℕ) → 0 < 10 ^ k
pow_pos zero = omega arith
pow_pos (suc k) = omega (arith, pow_pos k)

pub pow_below : (k n : ℕ) → k < n → 10 ^ k * 10 ≤ 10 ^ n
pow_below k zero h = absurd (omega arith)
pow_below zero (suc n) h = omega (arith, pow_pos n)
pow_below (suc k) (suc n) h = omega (arith, pow_below k n (omega arith))

pub div_positive : (n d : ℕ) → 0 < d → d ≤ n → 0 < n / d
div_positive n d h large = let e : n ≡ (n / d) * d + n % d = grind arith in grind (arith, e)

-- Dropping digits beyond the first leaves a coefficient that is not zero.
pub kept_positive : (n k : ℕ) → 0 < n → k < digits n → 0 < div_half_even n (10 ^ k)
kept_positive n k h short =
    let (_, top) = digits_bounds n h in
    let below = pow_below k (digits n) short in
    let whole = div_positive n (10 ^ k) (pow_pos k) (omega arith) in
    elim (div_half_even_neighbour n (10 ^ k)) [
      | inl e ↦ omega (arith, e, whole)
      | inr e ↦ omega (arith, e)
    ]

pub mul_positive : (a b : ℕ) → 0 < a → 0 < b → 0 < a * b
mul_positive a b ha hb = grind arith
