-- ===== src/Calibration/Gates.antt =====
-- calibration/gates.py, `GateTracker`: the criteria of the next modes. A criterion keeps its name,
-- its group and whether it passed; the texts that it shows are left out, and so are the criteria
-- that are deferred to the operator. The span of the samples is compared in microseconds, and not as
-- a float of days.
pub mod Ready
use afterhours.Prelude.{
  ℕ, suc, ◌+◌, ◌-◌, ◌*◌, String, Bool, true, false, not, ◌&&◌, ◌||◌, Option, none, some, List, [],
  ◌∷◌, ◌++◌, length, str_eq, leb, ◌==◌, if◌then◌else◌,
}
use afterhours.Decimal.{Decimal, mul, le_decimal, lt_decimal, zero_value}
use afterhours.Core.Events.{Breach}
use afterhours.Analytics.Metrics.{EconomicMetrics, economic_metrics}
use afterhours.Calibration.{CalibrationSettings}
use afterhours.Calibration.Engine.{Floats, ResolvedSample, samples_in, compute_ece}

-- `_is_hard_breach`
abbrev pub is_hard_breach : Breach → Bool
is_hard_breach breach = not (str_eq breach.reason "stop_loss")

-- `seed`: the count is set, not added to.
unfoldable pub hard_breaches : List Breach → ℕ
hard_breaches [] = 0
hard_breaches (b ∷ breaches) = (if is_hard_breach b then 1 else 0) + hard_breaches breaches

abbrev pub seed_breaches : List Breach → ℕ → ℕ
seed_breaches breaches limit_breaches = hard_breaches breaches

-- `_handle_breach`
unfoldable pub handle_breach : Breach → ℕ → ℕ
handle_breach breach limit_breaches =
    if is_hard_breach breach then suc limit_breaches else limit_breaches

unfoldable pub handle_breaches : List Breach → ℕ → ℕ
handle_breaches [] limit_breaches = limit_breaches
handle_breaches (b ∷ breaches) limit_breaches =
    handle_breaches breaches (handle_breach b limit_breaches)

-- `TradeBook`
pub record TradeBook : Type 0 where
  pub realized_trades : List Decimal
  pub initial_cash : Decimal

pub data Group : Type 0 where
  operational calibration economic : Group

pub record Criterion : Type 0 where
  pub name : String
  pub passed : Bool
  pub group : Group

-- `_criterion`
abbrev pub criterion : String → Bool → Group → Criterion
criterion name passed group = record { name = name; passed = passed; group = group }

-- `all(c["passed"] for c in criteria)`
unfoldable pub ready : List Criterion → Bool
ready [] = true
ready (c ∷ criteria) = c.passed && ready criteria

unfoldable pub earliest : {F : Type 0} → ℕ → List (ResolvedSample F) → ℕ
earliest t [] = t
earliest t (s ∷ samples) = earliest (if leb t s.resolved_at then t else s.resolved_at) samples

unfoldable pub latest : {F : Type 0} → ℕ → List (ResolvedSample F) → ℕ
latest t [] = t
latest t (s ∷ samples) = latest (if leb s.resolved_at t then t else s.resolved_at) samples

-- `_span_days`, in microseconds
unfoldable pub span : {F : Type 0} → List (ResolvedSample F) → ℕ
span [] = 0
span (s ∷ samples) = latest s.resolved_at samples - earliest s.resolved_at samples

-- `pf is None and net > 0`, or a profit factor that is high enough
unfoldable pub is_profitable : Decimal → EconomicMetrics → Bool
is_profitable min_pf m = elim m.profit_factor [
  | none ↦ lt_decimal zero_value m.net_pnl
  | some pf ↦ le_decimal min_pf pf
]

unfoldable pub is_expected : EconomicMetrics → Bool
is_expected m = elim m.expectancy [ none ↦ false | some x ↦ lt_decimal zero_value x ]

-- `_economic_criteria`
unfoldable pub economic_criteria : CalibrationSettings → Option TradeBook → List Criterion
economic_criteria s none = []
economic_criteria s (some book) =
    let m = economic_metrics book.realized_trades in
    let dd_cap = mul book.initial_cash s.gate_econ_max_drawdown_pct in
    criterion "closed_trades" (leb s.gate_econ_min_trades m.trades) economic
    ∷ criterion "net_pnl" (lt_decimal zero_value m.net_pnl) economic
    ∷ criterion "expectancy" (is_expected m) economic
    ∷ criterion "profit_factor" (is_profitable s.gate_econ_min_profit_factor m) economic
    ∷ criterion "max_drawdown" (le_decimal m.max_drawdown dd_cap) economic
    ∷ []

-- `_PAPER_MODES`
abbrev pub paper_modes : List String
paper_modes = "paper" ∷ "assisted" ∷ []

module _ {F : Type 0} (fl : Floats F) (to_float : Decimal → F) where
  -- `ece is not None and ece <= cap`
  unfoldable pub is_calibrated : Decimal → Option F → Bool
  is_calibrated cap ece = elim ece [ none ↦ false | some e ↦ fl.le e (to_float cap) ]

  -- The criteria of `_observe_to_paper`; `none` is what `compute_ece` raises.
  unfoldable pub observe_to_paper :
      CalibrationSettings → List (ResolvedSample F) → Option (List Criterion)
  observe_to_paper s samples =
      let shadow = samples_in ("observe" ∷ []) samples in
      elim (compute_ece fl shadow s.ece_buckets) [
        | none ↦ none
        | some ece ↦ some (
            criterion "resolved_shadow_decisions" (leb s.gate_observe_min_sample (length shadow))
              operational
            ∷ criterion "ece" (is_calibrated s.gate_observe_max_ece ece) calibration
            ∷ [])
      ]

  -- The criteria of `_paper_to_assisted`
  unfoldable pub paper_to_assisted :
      CalibrationSettings → List (ResolvedSample F) → ℕ → Option TradeBook → Option (List Criterion)
  paper_to_assisted s samples limit_breaches book =
      let paper = samples_in paper_modes samples in
      elim (compute_ece fl paper s.ece_buckets) [
        | none ↦ none
        | some ece ↦ some (
            criterion "resolved_paper_decisions" (leb s.gate_paper_min_sample (length paper))
              operational
            ∷ criterion "sample_span_days"
                (leb (s.gate_paper_min_days * 86_400_000_000) (span paper)) operational
            ∷ criterion "ece" (is_calibrated s.gate_paper_max_ece ece) calibration
            ∷ criterion "risk_limit_breaches" (limit_breaches == 0) operational
            ∷ economic_criteria s book)
      ]
