-- ===== src/Risk/Sizing.antt =====
-- risk/sizing.py: fixed-fractional position sizing.
use afterhours.Prelude.{Option, none, some, if◌then◌else◌}
use afterhours.Decimal.{Decimal, mul, div, quantize, le_decimal, min_decimal, zero_value}

-- The size in dollars before rounding: the risk budget over the stop distance, at most the cap.
unfoldable pub capped_size : Decimal → Decimal → Decimal → Decimal → Option Decimal
capped_size portfolio_value max_trade_loss_pct stop_loss_pct max_position_pct =
    elim (div (mul portfolio_value max_trade_loss_pct) stop_loss_pct) [
      | none ↦ none
      | some raw_size ↦ some (min_decimal raw_size (mul portfolio_value max_position_pct))
    ]

-- `deterministic_size`; `none` is an arithmetic error.
unfoldable pub deterministic_size : Decimal → Decimal → Decimal → Decimal → Option Decimal
deterministic_size portfolio_value max_trade_loss_pct stop_loss_pct max_position_pct =
    if le_decimal portfolio_value zero_value
    then some zero_value
    else if le_decimal stop_loss_pct zero_value
    then some zero_value
    else elim (capped_size portfolio_value max_trade_loss_pct stop_loss_pct max_position_pct) [
      | none ↦ none
      | some size ↦ quantize 2 size
    ]
