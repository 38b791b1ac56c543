-- ===== src/Decimal/Order.antt =====
-- The order of decimals of different places.
use native.Mathlib.Nat.{pow-suc}
use afterhours.Prelude.{
  ℕ, zero, suc, ◌+◌, ◌-◌, ◌*◌, ◌^◌, ◌≤◌, ◌<◌, ◌≡◌, refl, sym, ap, ◌∙◌, Bool, arith, leb, leb→le,
  if_rule,
}
use afterhours.Prelude.Int.{ℤ, pos, pos_part, neg_part, ◌*ℤ◌, leb_ℤ}
use afterhours.Decimal.{Decimal, coef_at, max_places, le_decimal}
use afterhours.Decimal.Digits.{pow_pos}
use afterhours.Decimal.Sign.{pos_part-scale, neg_part-scale, leb-scale}

pub pow-split : (m n : ℕ) → m ≤ n → 10 ^ n ≡ 10 ^ (n - m) * 10 ^ m
pow-split zero n h = ground arith
pow-split (suc m) zero h = absurd (omega arith)
pow-split (suc m) (suc n) h =
    let e : suc n - suc m ≡ n - m = omega arith in
    let ih = pow-split m n (omega arith) in rw (e, pow-suc 10 n, pow-suc 10 m) (grind (arith, ih))

pub pow_self : (j : ℕ) → 10 ^ (j - j) ≡ 1
pow_self j = let e : j - j ≡ 0 = omega arith in rw e refl

-- A comparison of scaled integers, by their parts.
unfoldable pub leb_parts : ℤ → ℕ → ℤ → ℕ → Bool
leb_parts x m y k = leb (pos_part x * m + neg_part y * k) (pos_part y * k + neg_part x * m)

pub leb_ℤ-parts : (x y : ℤ) (m k : ℕ) → leb_ℤ (x *ℤ pos m) (y *ℤ pos k) ≡ leb_parts x m y k
unfolding leb_parts
leb_ℤ-parts x y m k =
    rw (pos_part-scale x m, neg_part-scale x m, pos_part-scale y k, neg_part-scale y k) refl

pub leb_parts-scale :
    (x y : ℤ) (m k v : ℕ) → 0 < v → leb_parts x (m * v) y (k * v) ≡ leb_parts x m y k
unfolding leb_parts
leb_parts-scale x y m k v h =
    let left : pos_part x * (m * v) + neg_part y * (k * v) ≡ (pos_part x * m + neg_part y * k) * v =
      grind arith in
    let right : pos_part y * (k * v) + neg_part x * (m * v)
        ≡ (pos_part y * k + neg_part x * m) * v =
      grind arith in
    rw (left, right) (leb-scale _ _ v h)

pub leb_parts-left :
    (x y : ℤ) (i j : ℕ)
    → i ≤ j
    → leb_parts x (10 ^ (j - i)) y (10 ^ (j - j)) ≡ leb_parts x (10 ^ j) y (10 ^ i)
leb_parts-left x y i j h =
    ap (λ k. leb_parts x (10 ^ (j - i)) y k) (pow_self j)
    ∙ sym (leb_parts-scale x y (10 ^ (j - i)) 1 (10 ^ i) (pow_pos i))
    ∙ ap (λ m. leb_parts x m y (1 * 10 ^ i)) (sym (pow-split i j h))
    ∙ ap (λ k. leb_parts x (10 ^ j) y k) (omega arith)

pub leb_parts-right :
    (x y : ℤ) (i j : ℕ)
    → j ≤ i
    → leb_parts x (10 ^ (i - i)) y (10 ^ (i - j)) ≡ leb_parts x (10 ^ j) y (10 ^ i)
leb_parts-right x y i j h =
    ap (λ m. leb_parts x m y (10 ^ (i - j))) (pow_self i)
    ∙ sym (leb_parts-scale x y 1 (10 ^ (i - j)) (10 ^ j) (pow_pos j))
    ∙ ap (λ m. leb_parts x m y (10 ^ (i - j) * 10 ^ j)) (omega arith)
    ∙ ap (λ k. leb_parts x (10 ^ j) y k) (sym (pow-split j i h))

-- The order of two decimals is that of their coefficients at the places of the longer.
pub leb_ℤ-coef_at :
    (a b : Decimal)
    → leb_ℤ (coef_at (max_places a b) a) (coef_at (max_places a b) b) ≡ le_decimal a b
unfolding le_decimal
leb_ℤ-coef_at a b =
    let P = λ (p : ℕ).
      leb_parts a.coef (10 ^ (p - a.places)) b.coef (10 ^ (p - b.places))
      ≡ leb_parts a.coef (10 ^ b.places) b.coef (10 ^ a.places) in
    leb_ℤ-parts a.coef b.coef _ _
    ∙ if_rule P (leb a.places b.places)
        (λ e. leb_parts-left a.coef b.coef a.places b.places (leb→le a.places b.places e))
        (λ e. leb_parts-right a.coef b.coef a.places b.places (ground (arith, e)))
    ∙ sym (leb_ℤ-parts a.coef b.coef _ _)
