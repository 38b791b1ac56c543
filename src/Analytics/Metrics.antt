-- ===== src/Analytics/Metrics.antt =====
-- analytics/metrics.py, `economic_metrics`, and analytics/pnl.py. The win rate is kept as its two
-- numbers.
use afterhours.Prelude.{ℕ, Bool, Option, none, some, List, [], ◌∷◌, length, if◌then◌else◌}
use afterhours.Decimal.{
  Decimal, add, sub, mul, neg, div, sum, of_ℕ, lt_decimal, max_decimal, zero_value,
}
use afterhours.Core.Events.{Side, long, short}

pub record EconomicMetrics : Type 0 where
  pub trades : ℕ
  pub net_pnl : Decimal
  pub expectancy : Option Decimal
  pub win_rate : Option (ℕ × ℕ)
  pub profit_factor : Option Decimal
  pub max_drawdown : Decimal

abbrev pub is_win : Decimal → Bool
is_win r = lt_decimal zero_value r

abbrev pub is_loss : Decimal → Bool
is_loss r = lt_decimal r zero_value

-- The members of the list that pass the test.
unfoldable pub filter_by : (Decimal → Bool) → List Decimal → List Decimal
filter_by f [] = []
filter_by f (r ∷ rs) = let rest = filter_by f rs in if f r then r ∷ rest else rest

-- The loop over the realized curve, from its peak, its sum and its worst drawdown so far.
unfoldable pub drawdown_from : Decimal → Decimal → Decimal → List Decimal → Decimal
drawdown_from peak cum max_dd [] = max_dd
drawdown_from peak cum max_dd (r ∷ rs) =
    let cum' = add cum r in
    let peak' = max_decimal peak cum' in
    drawdown_from peak' cum' (max_decimal max_dd (sub peak' cum')) rs

abbrev pub gross_win : List Decimal → Decimal
gross_win realized = sum (filter_by is_win realized)

abbrev pub gross_loss : List Decimal → Decimal
gross_loss realized = neg (sum (filter_by is_loss realized))

-- `economic_metrics`
unfoldable pub economic_metrics : List Decimal → EconomicMetrics
economic_metrics [] = record {
  trades = 0;
  net_pnl = zero_value;
  expectancy = none;
  win_rate = none;
  profit_factor = none;
  max_drawdown = zero_value;
}
economic_metrics (r ∷ rs) =
    let realized = r ∷ rs in
    record {
      trades = length realized;
      net_pnl = sum realized;
      expectancy = div (sum realized) (of_ℕ (length realized));
      win_rate = some (length (filter_by is_win realized), length realized);
      profit_factor =
          if lt_decimal zero_value (gross_loss realized)
          then div (gross_win realized) (gross_loss realized)
          else none;
      max_drawdown = drawdown_from zero_value zero_value zero_value realized;
    }

-- `realized_pnl`
unfoldable pub realized_pnl : Side → Decimal → Decimal → Decimal → Decimal → Decimal → Decimal
realized_pnl side entry_price exit_price quantity entry_fee exit_fee =
    let gross = mul (sub exit_price entry_price) quantity in
    sub (sub (elim side [ long ↦ gross | short ↦ neg gross ]) entry_fee) exit_fee
