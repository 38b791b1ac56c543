-- ===== src/Decimal/Sign.antt =====
-- The signs of integers and of decimals: rounding does not change them.
use native.Mathlib.Nat.{mul-le-mul_right, le_of_mul-le-mul_right}
use afterhours.Prelude.{
  ℕ, zero, suc, ◌-◌, ◌*◌, ◌^◌, ◌<◌, ◌≡◌, refl, sym, ap, ◌∙◌, Bool, arith, ltb, leb, leb→le, le→leb,
  Bool-cases, inl, inr, if_rule,
}
use afterhours.Prelude.Int.{ℤ, pos, negsuc, pos_part, neg_part, nat_abs, sub_ℕ, ◌*ℤ◌, with_sign}
use afterhours.Decimal.{Decimal, precision, drop_digits, fix}
use afterhours.Decimal.Digits.{pow_pos, kept_positive, mul_positive}
use afterhours.Decimal.Round.{digits, div_half_even}

-- The integer is positive, or negative.
abbrev pub is_pos : ℤ → Bool
is_pos c = ltb 0 (pos_part c)

abbrev pub is_neg : ℤ → Bool
is_neg c = ltb 0 (neg_part c)

-- Two integers have the same sign.
pub record IsAlike (a b : ℤ) : Type 0 where
  pub positive : is_pos a ≡ is_pos b
  pub negative : is_neg a ≡ is_neg b

pub pos_part-sub_ℕ : (x y : ℕ) → pos_part (sub_ℕ x y) ≡ x - y
pos_part-sub_ℕ x y = ground arith

pub neg_part-sub_ℕ : (x y : ℕ) → neg_part (sub_ℕ x y) ≡ y - x
neg_part-sub_ℕ x y = ground arith

pub pos_part-scale : (c : ℤ) (m : ℕ) → pos_part (c *ℤ pos m) ≡ pos_part c * m
unfolding ◌*ℤ◌
pos_part-scale (pos a) m = pos_part-sub_ℕ _ _ ∙ omega arith
pos_part-scale (negsuc a) m = pos_part-sub_ℕ _ _ ∙ omega arith

pub neg_part-scale : (c : ℤ) (m : ℕ) → neg_part (c *ℤ pos m) ≡ neg_part c * m
unfolding ◌*ℤ◌
neg_part-scale (pos a) m = neg_part-sub_ℕ _ _ ∙ omega arith
neg_part-scale (negsuc a) m = neg_part-sub_ℕ _ _ ∙ omega arith

-- A comparison of multiples is the comparison of what is multiplied.
pub leb-scale : (x y m : ℕ) → 0 < m → leb (x * m) (y * m) ≡ leb x y
leb-scale x y m h = elim (Bool-cases (leb x y)) [
  | inl e ↦ le→leb (x * m) (y * m) (mul-le-mul_right m (leb→le x y e)) ∙ sym e
  | inr e ↦ elim (Bool-cases (leb (x * m) (y * m))) [
    | inl f ↦ absurd (
        ground
          (arith, e, le_of_mul-le-mul_right {m = x} {n = y} {k = m} (leb→le (x * m) (y * m) f) h))
    | inr f ↦ f ∙ sym e
  ]
]

pub ltb-scale : (x m : ℕ) → 0 < m → ltb 0 (x * m) ≡ ltb 0 x
ltb-scale zero m h = ground (arith, h)
ltb-scale (suc x) m h = ground (arith, mul_positive (suc x) m (omega arith) h)

pub IsAlike-scale : (c : ℤ) (m : ℕ) → 0 < m → IsAlike (c *ℤ pos m) c
IsAlike-scale c m h = record {
  positive = ap (ltb 0) (pos_part-scale c m) ∙ ltb-scale (pos_part c) m h;
  negative = ap (ltb 0) (neg_part-scale c m) ∙ ltb-scale (neg_part c) m h;
}

-- A number with digits is not zero.
pub digits_positive : (n : ℕ) → 0 < digits n → 0 < n
unfolding digits
digits_positive zero h = h
digits_positive (suc n) h = omega arith

pub IsAlike-with_sign : (c : ℤ) (n : ℕ) → 0 < n → 0 < nat_abs c → IsAlike (with_sign c n) c
IsAlike-with_sign (pos a) n h k = record { positive = ground arith; negative = refl }
IsAlike-with_sign (negsuc a) n h k = record {
  positive = ap (ltb 0) (pos_part-sub_ℕ 0 n) ∙ ground arith;
  negative = ap (ltb 0) (neg_part-sub_ℕ 0 n) ∙ ground arith;
}

pub IsAlike-trans : (a b c : ℤ) → IsAlike a b → IsAlike b c → IsAlike a c
IsAlike-trans a b c h k = record {
  positive = h.positive ∙ k.positive;
  negative = h.negative ∙ k.negative;
}

-- Rounding to the precision keeps the sign.
pub IsAlike-fix : (d : Decimal) → IsAlike (fix d).coef d.coef
unfolding fix drop_digits
IsAlike-fix d =
    let n = digits (nat_abs d.coef) in
    if_rule (λ (x : Decimal). IsAlike x.coef d.coef) (leb n precision)
      (λ _. record { positive = refl; negative = refl })
      λ long.
        let size : 0 < nat_abs d.coef = digits_positive (nat_abs d.coef) (ground (arith, long)) in
        let rounded =
          IsAlike-with_sign d.coef (div_half_even (nat_abs d.coef) (10 ^ (n - precision)))
            (kept_positive (nat_abs d.coef) (n - precision) size (ground (arith, long))) size in
        if_rule (λ (x : Decimal). IsAlike x.coef d.coef) (leb (n - precision) d.places)
          (λ _. rounded)
          (λ _.
            IsAlike-trans _ _ _ (IsAlike-scale _ (10 ^ (n - precision - d.places)) (pow_pos _))
              rounded)
