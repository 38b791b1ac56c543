-- ===== src/Decimal/Round.antt =====
-- Rounding of natural numbers: decimal digits, and division with ties to the even quotient.
use native.Mathlib.Nat.{pow-suc}
use native.Mathlib.Decide.{dec_lt}
use afterhours.Prelude.{
  ℕ, zero, suc, ◌+◌, ◌*◌, ◌/◌, ◌%◌, ◌^◌, ◌≤◌, ◌<◌, ◌≡◌, refl, ◌⊎◌, true, false, arith, ltb, ◌==◌,
  if◌then◌else◌,
}

-- n / d, half-way cases to the even neighbour.
unfoldable pub div_half_even : ℕ → ℕ → ℕ
div_half_even n d =
    let q = n / d in
    let r = n % d in
    if ltb (2 * r) d then q else if ltb d (2 * r) then q + 1 else if q % 2 == 0 then q else q + 1

digits_from : ℕ → ℕ → ℕ
digits_from zero n = 0
digits_from (suc fuel) n = elim (n == 0) [ true ↦ 0 | false ↦ suc (digits_from fuel (n / 10)) ]

-- The number of decimal digits; 0 has none.
unfoldable pub digits : ℕ → ℕ
unfolding digits_from
digits n = digits_from n n

-- The result is one of the two neighbours of the quotient.
pub div_half_even_neighbour :
    (n d : ℕ) → (div_half_even n d ≡ n / d) ⊎ (div_half_even n d ≡ n / d + 1)
unfolding div_half_even
div_half_even_neighbour n d = ground arith

-- The rounded quotient is off by at most a half.
pub div_half_even-near :
    (n d : ℕ)
    → 0 < d
    → (2 * n ≤ 2 * (div_half_even n d * d) + d) × (2 * (div_half_even n d * d) ≤ 2 * n + d)
unfolding div_half_even
div_half_even-near n d h = let e : n ≡ (n / d) * d + n % d = grind arith in grind (arith, e)

digits_from_zero : (fuel : ℕ) → digits_from fuel 0 ≡ 0
unfolding digits_from
digits_from_zero zero = refl
digits_from_zero (suc fuel) = refl

digits_from_step : (fuel n : ℕ) → 0 < n → digits_from (suc fuel) n ≡ suc (digits_from fuel (n / 10))
unfolding digits_from
digits_from_step fuel n h = let e : (n == 0) ≡ false = ground arith in rw (e, digits_from)

digits_from_bounds :
    (fuel n : ℕ)
    → 0 < n
    → n ≤ fuel
    → (n < 10 ^ digits_from fuel n) × (10 ^ digits_from fuel n ≤ 10 * n)
digits_from_bounds zero n h le = absurd (omega arith)
digits_from_bounds (suc fuel) n h le =
    let k = digits_from fuel (n / 10) in
    rw (digits_from_step fuel n h, pow-suc 10 k)
      elim (dec_lt 0 (n / 10)) [
        | yes p ↦
            let ih = digits_from_bounds fuel (n / 10) p (omega arith) in (omega arith, omega arith)
        | no p ↦
            let e : n / 10 ≡ 0 = omega arith in
            let z : digits_from fuel (n / 10) ≡ 0 = rw e (digits_from_zero fuel) in
            rw z (omega arith)
      ]

-- A positive number lies between the powers of ten that its number of digits says.
pub digits_bounds : (n : ℕ) → 0 < n → (n < 10 ^ digits n) × (10 ^ digits n ≤ 10 * n)
unfolding digits
digits_bounds n h = digits_from_bounds n n h (omega arith)
