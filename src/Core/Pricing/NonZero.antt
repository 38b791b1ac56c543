-- ===== src/Core/Pricing/NonZero.antt =====
-- A price does not collapse to zero in core/pricing.py.
use afterhours.Prelude.{ℕ, suc, ◌-◌, ◌*◌, ◌^◌, ◌<◌, ◌≡◌, refl, false, arith, leb, if_rule}
use afterhours.Prelude.Int.{ℤ, pos, negsuc, nat_abs, sub_ℕ, ◌*ℤ◌, with_sign}
use afterhours.Decimal.{Decimal, pad, drop_digits, is_zero}
use afterhours.Decimal.Round.{digits, div_half_even}
use afterhours.Decimal.Digits.{pow_pos, kept_positive, mul_positive}
use afterhours.Core.Pricing.{quantize_price, quantize_price_to, price_sig_figs}

nat_abs-with_sign : (c : ℤ) (n : ℕ) → nat_abs (with_sign c n) ≡ n
nat_abs-with_sign (pos _) n = refl
nat_abs-with_sign (negsuc _) n = ground arith

nat_abs-sub_ℕ_left : (x y n : ℕ) → x ≡ n → y ≡ 0 → nat_abs (sub_ℕ x y) ≡ n
nat_abs-sub_ℕ_left x y n hx hy = ground arith

nat_abs-sub_ℕ_right : (x y n : ℕ) → x ≡ 0 → y ≡ n → nat_abs (sub_ℕ x y) ≡ n
nat_abs-sub_ℕ_right x y n hx hy = ground arith

nat_abs-mul : (c : ℤ) (m : ℕ) → nat_abs (c *ℤ pos m) ≡ nat_abs c * m
unfolding ◌*ℤ◌
nat_abs-mul (pos a) m = nat_abs-sub_ℕ_left _ _ (a * m) (omega arith) (omega arith)
nat_abs-mul (negsuc a) m = nat_abs-sub_ℕ_right _ _ (suc a * m) (omega arith) (omega arith)

-- The coefficient is not zero.
abbrev IsNonZero : Decimal → Type 0
IsNonZero d = 0 < nat_abs d.coef

drop_digits-IsNonZero :
    (k : ℕ) (d : Decimal) → IsNonZero d → k < digits (nat_abs d.coef) → IsNonZero (drop_digits k d)
unfolding drop_digits
drop_digits-IsNonZero k d h short =
    let c = with_sign d.coef (div_half_even (nat_abs d.coef) (10 ^ k)) in
    let size : 0 < nat_abs c = rw nat_abs-with_sign (kept_positive (nat_abs d.coef) k h short) in
    if_rule IsNonZero (leb k d.places) (λ _. size)
      (λ _. rw nat_abs-mul (mul_positive (nat_abs c) (10 ^ (k - d.places)) size (pow_pos _)))

pad-IsNonZero : (k : ℕ) (d : Decimal) → IsNonZero d → IsNonZero (pad k d)
pad-IsNonZero k d h = rw nat_abs-mul (mul_positive (nat_abs d.coef) (10 ^ k) h (pow_pos k))

-- Rounding to significant figures never takes a price that is not zero to zero, however small it is.
pub quantize_price-nonzero :
    (price : Decimal) → is_zero price ≡ false → is_zero (quantize_price price) ≡ false
unfolding quantize_price quantize_price_to is_zero
quantize_price-nonzero price h =
    let size : IsNonZero price = ground (arith, h) in
    let rounded : IsNonZero (quantize_price_to price_sig_figs price) =
      if_rule IsNonZero (is_zero price) (λ e. size)
        λ _.
          if_rule IsNonZero (leb (digits (nat_abs price.coef)) price_sig_figs)
            (λ _. pad-IsNonZero (price_sig_figs - digits (nat_abs price.coef)) price size)
            λ e.
              drop_digits-IsNonZero (digits (nat_abs price.coef) - price_sig_figs) price size
                (ground (arith, e)) in
    ground (arith, rounded)
