-- ===== src/Calibration.antt =====
-- calibration/: how well the confidence of the decisions matches what came of them.
pub mod Resolver
pub mod Engine
pub mod Gates
use afterhours.Prelude.{ℕ}
use afterhours.Decimal.{Decimal}

-- `CalibrationSettings`
pub record CalibrationSettings : Type 0 where
  pub horizon_scalp_minutes : ℕ
  pub horizon_intraday_hours : ℕ
  pub horizon_swing_days : ℕ
  pub horizon_position_days : ℕ
  pub ece_buckets : ℕ
  pub gate_observe_min_sample : ℕ
  pub gate_observe_max_ece : Decimal
  pub gate_paper_min_sample : ℕ
  pub gate_paper_min_days : ℕ
  pub gate_paper_max_ece : Decimal
  pub gate_econ_min_trades : ℕ
  pub gate_econ_min_profit_factor : Decimal
  pub gate_econ_max_drawdown_pct : Decimal
