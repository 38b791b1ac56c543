-- ===== src/Core/Pricing.antt =====
-- core/pricing.py: quantization to a number of significant figures.
pub mod NonZero
use afterhours.Prelude.{ℕ, ◌-◌, leb, if◌then◌else◌}
use afterhours.Prelude.Int.{nat_abs}
use afterhours.Decimal.{Decimal, pad, drop_digits, is_zero}
use afterhours.Decimal.Round.{digits}

-- `PRICE_SIG_FIGS`
abbrev pub price_sig_figs : ℕ
price_sig_figs = 8

-- `quantize_price`. The quantum stands `sig_figs - 1` decades below the leading digit: a longer
-- coefficient loses the digits beyond `sig_figs`, a shorter one gets zeros.
unfoldable pub quantize_price_to : ℕ → Decimal → Decimal
quantize_price_to sig_figs price =
    let n = digits (nat_abs price.coef) in
    if is_zero price
    then price
    else if leb n sig_figs
    then pad (sig_figs - n) price
    else drop_digits (n - sig_figs) price

unfoldable pub quantize_price : Decimal → Decimal
unfolding quantize_price_to
quantize_price price = quantize_price_to price_sig_figs price
