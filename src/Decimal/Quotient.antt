-- ===== src/Decimal/Quotient.antt =====
-- The signs of differences and of quotients of decimals.
use mathlib.Core.Path.{subst}
use native.Mathlib.Nat.{pow-le-pow_right}
use afterhours.Prelude.{
  ℕ, zero, suc, ◌+◌, ◌*◌, ◌/◌, ◌^◌, ◌≤◌, ◌<◌, ◌≡◌, refl, sym, ap, ◌∙◌, true, not, Option, none,
  some, arith, ltb, leb, ◌==◌, if_rule,
}
use afterhours.Prelude.Int.{
  ℤ, pos, negsuc, pos_part, neg_part, nat_abs, ◌-ℤ◌, ◌*ℤ◌, leb_ℤ, with_sign,
}
use afterhours.Decimal.{
  sticky, Decimal, precision, zero_value, coef_at, max_places, sub, neg, div, le_decimal,
  lt_decimal,
}
use afterhours.Decimal.Digits.{div_positive}
use afterhours.Decimal.Round.{digits, digits_bounds}
use afterhours.Decimal.Sign.{
  IsAlike, pos_part-sub_ℕ, neg_part-sub_ℕ, pos_part-scale, neg_part-scale, IsAlike-scale,
  IsAlike-with_sign, IsAlike-trans, IsAlike-fix, is_pos, is_neg,
}
use afterhours.Decimal.Order.{leb_parts, leb_ℤ-parts, leb_ℤ-coef_at}

is_pos-minus : (x y : ℤ) → is_pos (x -ℤ y) ≡ not (leb_ℤ x y)
unfolding ◌-ℤ◌
is_pos-minus x y = ap (ltb 0) (pos_part-sub_ℕ _ _) ∙ ground arith

is_neg-minus : (x y : ℤ) → is_neg (x -ℤ y) ≡ not (leb_ℤ y x)
unfolding ◌-ℤ◌
is_neg-minus x y = ap (ltb 0) (neg_part-sub_ℕ _ _) ∙ ground arith

-- A difference is positive where the first is greater, and negative where it is smaller.
pub is_pos-sub : (a b : Decimal) → is_pos (sub a b).coef ≡ lt_decimal b a
unfolding sub
is_pos-sub a b =
    let p = max_places a b in
    (IsAlike-fix (record { coef = coef_at p a -ℤ coef_at p b; places = p })).positive
    ∙ is_pos-minus (coef_at p a) (coef_at p b)
    ∙ ap not (leb_ℤ-coef_at a b)

pub is_neg-neg : (a : Decimal) → is_pos (neg a).coef ≡ is_neg a.coef
unfolding neg
is_neg-neg a =
    (IsAlike-fix (record { coef = pos 0 -ℤ a.coef; places = a.places })).positive
    ∙ is_pos-minus (pos 0) a.coef
    ∙ ground arith

pub is_neg-sub : (a b : Decimal) → is_neg (sub a b).coef ≡ lt_decimal a b
unfolding sub
is_neg-sub a b =
    let p = max_places a b in
    let same : p ≡ max_places b a = ground arith in
    (IsAlike-fix (record { coef = coef_at p a -ℤ coef_at p b; places = p })).negative
    ∙ is_neg-minus (coef_at p a) (coef_at p b)
    ∙ ap (λ n. not (leb_ℤ (coef_at n b) (coef_at n a))) same
    ∙ ap not (leb_ℤ-coef_at b a)

not-leb-parts : (c : ℤ) → not (leb (pos_part c) (neg_part c)) ≡ is_pos c
not-leb-parts (pos a) = ground arith
not-leb-parts (negsuc a) = ground arith

-- A decimal is greater than zero where its coefficient is positive.
pub lt_decimal-zero : (d : Decimal) → lt_decimal zero_value d ≡ is_pos d.coef
unfolding le_decimal leb_parts
lt_decimal-zero d =
    ap not (leb_ℤ-parts d.coef (pos 0) (10 ^ 0) (10 ^ d.places) ∙ parts) ∙ not-leb-parts d.coef
  where
    parts :
        leb_parts d.coef (10 ^ 0) (pos 0) (10 ^ d.places) ≡ leb (pos_part d.coef) (neg_part d.coef)
    parts =
        let e : pos_part d.coef * 1 + 0 * 10 ^ d.places ≡ pos_part d.coef = omega arith in
        let f : 0 * 10 ^ d.places + neg_part d.coef * 1 ≡ neg_part d.coef = omega arith in
        ap (λ x. leb x (0 * 10 ^ d.places + neg_part d.coef * 1)) e
        ∙ ap (λ y. leb (pos_part d.coef) y) f

sticky-le : (n d : ℕ) → n / d ≤ sticky n d
sticky-le n d = ground arith

-- The scaled quotient of two numbers that are not zero is not zero.
sticky_positive : (n d s : ℕ) → 0 < n → 0 < d → digits d ≤ s → 0 < sticky (n * 10 ^ s) d
sticky_positive n d s hn hd le =
    let (top, _) = digits_bounds d hd in
    let wider = pow-le-pow_right {n = 10} (omega arith) {i = digits d} {j = s} le in
    let scaled : 10 ^ s ≤ n * 10 ^ s = grind (arith, hn) in
    let large : d ≤ n * 10 ^ s = omega (arith, top, wider, scaled) in
    omega (arith, div_positive (n * 10 ^ s) d hd large, sticky-le (n * 10 ^ s) d)

sticky_zero : (n d s : ℕ) → n ≡ 0 → sticky (n * 10 ^ s) d ≡ 0
sticky_zero n d s h = let e : n * 10 ^ s ≡ 0 = rw h (omega arith) in rw e (zero_over d)
  where
    zero_over : (d : ℕ) → sticky 0 d ≡ 0
    zero_over d = ground arith

-- The quotient, where there is one, has the sign of what is divided.
IsQuotient : Decimal → Option Decimal → Type 0
IsQuotient a none = Unit
IsQuotient a (some q) = IsAlike q.coef a.coef

IsAlike-nonzero :
    (c : ℤ) (n : ℕ) → 0 < n → 0 < nat_abs c → IsAlike (with_sign c 1 *ℤ pos 1 *ℤ pos n) c
IsAlike-nonzero c n h k = IsAlike-trans _ _ _ (IsAlike-scale (with_sign c 1 *ℤ pos 1) n h) (
    IsAlike-trans _ _ _ (IsAlike-scale (with_sign c 1) 1 (omega arith))
      (IsAlike-with_sign c 1 (omega arith) k))

with_sign_positive : (c : ℤ) → is_pos c ≡ true → with_sign c 1 ≡ pos 1
with_sign_positive (pos a) h = refl
with_sign_positive (negsuc a) h = absurd (ground (arith, h))

nat_abs_positive : (c : ℤ) → is_pos c ≡ true → 0 < nat_abs c
nat_abs_positive (pos a) h = ground (arith, h)
nat_abs_positive (negsuc a) h = omega arith

IsAlike-signed :
    (c : ℤ) (n : ℕ)
    → (0 < nat_abs c → 0 < n)
    → (nat_abs c ≡ 0 → n ≡ 0)
    → IsAlike (with_sign c 1 *ℤ pos 1 *ℤ pos n) c
IsAlike-signed (pos zero) n large small = record {
  positive =
      ap (ltb 0)
        (pos_part-scale (pos 1 *ℤ pos 1) n ∙ ap (λ m. pos_part (pos 1 *ℤ pos 1) * m) (small refl))
      ∙ ground arith;
  negative =
      ap (ltb 0)
        (neg_part-scale (pos 1 *ℤ pos 1) n ∙ ap (λ m. neg_part (pos 1 *ℤ pos 1) * m) (small refl))
      ∙ ground arith;
}
IsAlike-signed (pos (suc a)) n large small =
    IsAlike-nonzero (pos (suc a)) n (large (omega arith)) (omega arith)
IsAlike-signed (negsuc a) n large small =
    IsAlike-nonzero (negsuc a) n (large (omega arith)) (omega arith)

IsQuotient-div : (a b : Decimal) → is_pos b.coef ≡ true → IsQuotient a (div a b)
unfolding div IsQuotient
IsQuotient-div a b h =
    let s = digits (nat_abs b.coef) + precision + 1 + b.places in
    let n = sticky (nat_abs a.coef * 10 ^ s) (nat_abs b.coef) in
    if_rule (IsQuotient a) (nat_abs b.coef == 0) (λ _. tt)
      λ _. IsAlike-trans _ _ _ (IsAlike-fix _) (
        subst (λ c. IsAlike (with_sign a.coef 1 *ℤ c *ℤ pos n) a.coef)
          (sym (with_sign_positive b.coef h))
          (IsAlike-signed a.coef n
            (λ k.
              sticky_positive (nat_abs a.coef) (nat_abs b.coef) s k (nat_abs_positive b.coef h)
                (omega arith))
            (λ z. sticky_zero (nat_abs a.coef) (nat_abs b.coef) s z)))

-- Where the divisor is positive, a quotient has the sign of what is divided.
pub IsAlike-div :
    (a b q : Decimal) → is_pos b.coef ≡ true → div a b ≡ some q → IsAlike q.coef a.coef
unfolding IsQuotient
IsAlike-div a b q h e = subst (IsQuotient a) e (IsQuotient-div a b h)
