-- ===== src/Risk/Engine.antt =====
-- risk/engine.py: the pre-trade checks, and the stop monitor. `evaluate` publishes nothing; the
-- events of `_handle_proposed` and `_handle_tick` are published where the components are wired.
pub mod Gate
use mathlib.Core.Option
use afterhours.Prelude.{
  ℕ, String, ◌≡◌, Bool, true, false, ◌&&◌, ◌||◌, Option, none, some, List, [], ◌∷◌, str_eq, leb,
  if◌then◌else◌, length,
}
use afterhours.Prelude.Dict.{lookup, contains}
use afterhours.Decimal.{
  Decimal, add, sub, mul, div, neg, quantize, le_decimal, lt_decimal, min_decimal, of_ℕ, zero_value,
}
use afterhours.Core.Mode.{AutonomyMode, observe, mode_eq}
use afterhours.Core.Pricing.{quantize_price}
use afterhours.Core.Events.{
  Side, long, short, Raw, absent, malformed, number, RiskVerdict, RiskAssessment, DecisionStatus,
  Reason, observe_mode, daily_loss_limit, insufficient_capital, no_stop_price, max_open_positions,
  position_exists, insufficient_cash, Decision, Tick, Breach,
}
use afterhours.Portfolio.Position.{Position}
use afterhours.Portfolio.Ledger.{
  Fault, invalid_operation, division_by_zero, Portfolio, total_value, open_position_count,
  current_price, daily_realized_pnl,
}
use afterhours.Portfolio.Orders.{truthy}
use afterhours.Desk.{Desk, Config, RiskSettings, Verdict, passed, refused, raised}
use afterhours.Risk.Sizing.{deterministic_size}

-- The daily loss circuit breaker; `none` is an arithmetic error.
unfoldable pub loss_tripped : Config → Decimal → ℕ → Portfolio → Option Bool
loss_tripped c value now p =
    if lt_decimal zero_value value
    then elim (div (neg (daily_realized_pnl c.trading_day now p)) value) [
      | none ↦ none
      | some loss ↦ some (c.float_at_least loss c.risk_settings.max_daily_loss_pct)
    ]
    else some false

-- The cash that a trade may use.
abbrev pub affordable : Config → Portfolio → Decimal
affordable c p = mul p.cash (sub (of_ℕ 1) c.risk_settings.cash_buffer_pct)

-- The stop for an entry at `price`.
unfoldable pub stop_price_at : Config → String → Decimal → Decimal
stop_price_at c side price =
    let offset = mul price c.risk_settings.stop_loss_pct in
    quantize_price (if str_eq side "long" then sub price offset else add price offset)

-- The payload that goes on, with its new size and stop.
unfoldable pub approved_payload : Config → Decision → Decimal → Decimal → Decision
approved_payload c payload size stop =
    let proposal = payload.proposal in
    record payload {
      proposal = record proposal { size_usd = number size };
      risk = some (record {
        max_loss_pct = c.risk_settings.max_trade_loss_pct;
        stop_price = some stop;
        risk_engine_verdict = RiskVerdict.approved;
        rejection_reasons = [];
      });
      status = DecisionStatus.approved;
    }

-- The last check of `evaluate`: a stop must be computable.
unfoldable pub with_stop : Config → Decision → Decimal → Portfolio → Verdict
with_stop c payload size p = elim (truthy (current_price p payload.proposal.instrument)) [
  | none ↦ refused (no_stop_price ∷ [])
  | some price ↦ passed (
      approved_payload c payload size
        (stop_price_at c (Option.get_or payload.proposal.side "long") price))
]

-- The affordability gate of `evaluate`, for the size that the sizing code gives.
unfoldable pub within_cash : Config → Decision → Decimal → Portfolio → Verdict
within_cash c payload size p = elim (quantize 2 (min_decimal size (affordable c p))) [
  | none ↦ raised invalid_operation
  | some bounded ↦
      if lt_decimal bounded c.risk_settings.min_trade_size_usd
      then refused (insufficient_cash bounded ∷ [])
      else with_stop c payload bounded p
]

-- The sizing step of `evaluate`.
unfoldable pub with_size : Config → Decision → Decimal → Portfolio → Verdict
with_size c payload value p =
    elim (deterministic_size value c.risk_settings.max_trade_loss_pct c.risk_settings.stop_loss_pct
      c.risk_settings.max_position_pct) [
        | none ↦ raised invalid_operation
        | some size ↦
            if le_decimal size zero_value
            then refused (insufficient_capital ∷ [])
            else within_cash c payload size p
      ]

-- The daily loss check of `evaluate`.
unfoldable pub within_loss : Config → Decision → ℕ → Decimal → Portfolio → Verdict
within_loss c payload now value p = elim (loss_tripped c value now p) [
  | none ↦ raised invalid_operation
  | some tripped ↦ if tripped then refused (daily_loss_limit ∷ []) else with_size c payload value p
]

-- `RiskEngine.evaluate`
unfoldable pub evaluate : Config → Decision → ℕ → Desk → Verdict
evaluate c payload now d =
    let p = d.portfolio in
    let limit = c.risk_settings.max_open_positions in
    let instrument = payload.proposal.instrument in
    if mode_eq d.mode observe
    then refused (observe_mode ∷ [])
    else if leb limit (open_position_count p)
    then refused (max_open_positions limit ∷ [])
    else if contains instrument p.positions
    then refused (position_exists instrument ∷ [])
    else within_loss c payload now (total_value p) p

-- The payload of a rejection by the risk engine.
unfoldable pub rejected_payload : Decision → List Reason → Decision
rejected_payload payload reasons = record payload {
  status = DecisionStatus.rejected;
  risk = some (record {
    max_loss_pct = zero_value;
    stop_price = none;
    risk_engine_verdict = RiskVerdict.rejected;
    rejection_reasons = reasons;
  });
}

-- The stop of a position is reached at `price`.
unfoldable pub is_breached : Side → Decimal → Decimal → Bool
is_breached long price stop = le_decimal price stop
is_breached short price stop = le_decimal stop price

-- The breach that `_handle_tick` finds on a position, if any.
unfoldable pub breach_of : Position → String → Decimal → Option Breach
breach_of pos instrument price = elim (truthy pos.stop_price) [
  | none ↦ none
  | some stop ↦
      if is_breached pos.side price stop
      then some (record {
        instrument = instrument;
        reason = "stop_loss";
        trigger_price = price;
        stop_price = stop;
        decision_id = pos.decision_id;
      })
      else none
]

-- `RiskEngine._handle_tick`, up to the publication; a price that is no number raises, and does
-- nothing.
unfoldable pub watch_tick : Tick → Portfolio → Option Breach
watch_tick tick p =
    if str_eq tick.instrument "" then none else elim (lookup tick.instrument p.positions) [
      | none ↦ none
      | some pos ↦ elim tick.price [
        | absent ↦ none
        | malformed ↦ none
        | number price ↦ breach_of pos tick.instrument price
      ]
    ]
