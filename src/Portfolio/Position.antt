-- ===== src/Portfolio/Position.antt =====
-- portfolio/models.py and portfolio/settings.py.
use afterhours.Prelude.{ℕ, String, Option}
use afterhours.Decimal.{Decimal, add, sub, mul}
use afterhours.Core.Events.{Side, long, short}

pub record Position : Type 0 where
  pub instrument : String
  pub side : Side
  pub entry_price : Decimal
  pub quantity : Decimal
  pub current_price : Decimal
  pub stop_price : Option Decimal
  pub entry_fee : Decimal
  pub decision_id : String

abbrev pub size_usd : Position → Decimal
size_usd p = mul p.entry_price p.quantity

abbrev pub unrealized_pnl : Position → Decimal
unrealized_pnl p = elim p.side [
  | long ↦ mul (sub p.current_price p.entry_price) p.quantity
  | short ↦ mul (sub p.entry_price p.current_price) p.quantity
]

abbrev pub equity_contribution : Position → Decimal
equity_contribution p = add (size_usd p) (unrealized_pnl p)

-- `Decimal(str(f))` of the settings that are floats is the decimal that is written there.
pub record PortfolioSettings : Type 0 where
  pub initial_cash : Decimal
  pub slippage_pct : Decimal
  pub fee_pct : Decimal
  pub pending_ttl_seconds : ℕ
