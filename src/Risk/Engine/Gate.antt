-- ===== src/Risk/Engine/Gate.antt =====
-- What an approval by `RiskEngine.evaluate` of risk/engine.py means.
use mathlib.Core.Option
use afterhours.Prelude.{
  ℕ, ◌<◌, ◌≡◌, ◌↔◌, sym, ap, false, Option, some, arith, if_inv, option_inv, length, leb,
}
use afterhours.Prelude.Dict.{contains}
use afterhours.Decimal.{Decimal, quantize, le_decimal, lt_decimal, min_decimal, zero_value}
use afterhours.Core.Mode.{observe, mode_eq}
use afterhours.Core.Events.{Decision}
use afterhours.Portfolio.Ledger.{Portfolio, total_value, current_price}
use afterhours.Portfolio.Orders.{truthy}
use afterhours.Desk.{Desk, Config, passed}
use afterhours.Risk.Sizing.{deterministic_size}
use afterhours.Risk.Engine.{
  evaluate, within_loss, with_size, within_cash, with_stop, loss_tripped, affordable, stop_price_at,
  approved_payload,
}

module _ (c : Config) (payload : Decision) where
  -- The stages of the check, each with what it lets through.
  evaluate_stage :
      (now : ℕ) (d : Desk) (q : Decision)
      → evaluate c payload now d ≡ passed q
      → (mode_eq d.mode observe ≡ false)
        × (length d.portfolio.positions < c.risk_settings.max_open_positions)
        × (contains payload.proposal.instrument d.portfolio.positions ≡ false)
        × (within_loss c payload now (total_value d.portfolio) d.portfolio ≡ passed q)
  unfolding evaluate
  evaluate_stage now d q h = ground arith

  loss_stage :
      (now : ℕ) (value : Decimal) (p : Portfolio) (q : Decision)
      → within_loss c payload now value p ≡ passed q
      → (loss_tripped c value now p ≡ some false) × (with_size c payload value p ≡ passed q)
  unfolding within_loss
  loss_stage now value p q h = ground arith

  abbrev size_of : Decimal → Option Decimal
  size_of value =
      deterministic_size value c.risk_settings.max_trade_loss_pct c.risk_settings.stop_loss_pct
        c.risk_settings.max_position_pct

  size_stage :
      (value : Decimal) (p : Portfolio) (q : Decision)
      → with_size c payload value p ≡ passed q
      → (size : Decimal) × (size_of value ≡ some size)
        × (le_decimal size zero_value ≡ false)
        × (within_cash c payload size p ≡ passed q)
  unfolding with_size
  size_stage value p q h =
      let (size, e, rest) = option_inv (size_of value) h (λ r. cc) in
      let (pos, rest') = if_inv (le_decimal size zero_value) rest (λ r. cc) in (size, e, pos, rest')

  cash_stage :
      (size : Decimal) (p : Portfolio) (q : Decision)
      → within_cash c payload size p ≡ passed q
      → (bounded : Decimal) × (quantize 2 (min_decimal size (affordable c p)) ≡ some bounded)
        × (lt_decimal bounded c.risk_settings.min_trade_size_usd ≡ false)
        × (with_stop c payload bounded p ≡ passed q)
  unfolding within_cash
  cash_stage size p q h =
      let (bounded, e, rest) =
        option_inv (quantize 2 (min_decimal size (affordable c p))) h (λ r. cc) in
      let (large, rest') =
        if_inv (lt_decimal bounded c.risk_settings.min_trade_size_usd) rest (λ r. cc) in
      (bounded, e, large, rest')

  stop_stage :
      (size : Decimal) (p : Portfolio) (q : Decision)
      → with_stop c payload size p ≡ passed q
      → (price : Decimal) × (truthy (current_price p payload.proposal.instrument) ≡ some price)
        × (q
            ≡ approved_payload c payload size
                (stop_price_at c (Option.get_or payload.proposal.side "long") price))
  unfolding with_stop
  stop_stage size p q h =
      let (price, e, rest) =
        option_inv (truthy (current_price p payload.proposal.instrument)) h (λ r. cc) in
      (price, e, cc)

-- What an approval of `payload` as `q` rests on, in the state of the desk at the time.
pub record IsCleared (c : Config) (payload : Decision) (now : ℕ) (d : Desk) (q : Decision)
    : Type 0 where
  pub armed : mode_eq d.mode observe ≡ false
  pub room : length d.portfolio.positions < c.risk_settings.max_open_positions
  pub fresh : contains payload.proposal.instrument d.portfolio.positions ≡ false
  pub breaker : loss_tripped c (total_value d.portfolio) now d.portfolio ≡ some false
  pub size : Decimal
  pub sized : size_of c payload (total_value d.portfolio) ≡ some size
  pub positive : le_decimal size zero_value ≡ false
  pub bounded : Decimal
  pub affords : quantize 2 (min_decimal size (affordable c d.portfolio)) ≡ some bounded
  pub large : lt_decimal bounded c.risk_settings.min_trade_size_usd ≡ false
  pub price : Decimal
  pub priced : truthy (current_price d.portfolio payload.proposal.instrument) ≡ some price
  pub result :
      q
      ≡ approved_payload c payload bounded
          (stop_price_at c (Option.get_or payload.proposal.side "long") price)

-- `evaluate` approves exactly where every check passes: not in OBSERVE mode, fewer positions than
-- the limit, no position in the instrument, the daily loss below its limit, a positive size, a
-- rounded affordable size of at least the minimum, and a price to compute the stop from; and the
-- approved payload then has that size and that stop.
pub evaluate-passed :
    (c : Config) (payload : Decision) (now : ℕ) (d : Desk) (q : Decision)
    → (evaluate c payload now d ≡ passed q) ↔ IsCleared c payload now d q
unfolding evaluate within_loss with_size within_cash with_stop
evaluate-passed c payload now d q = (
  λ h.
      let (armed, room, fresh, rest) = evaluate_stage c payload now d q h in
      let (breaker, rest') =
        loss_stage c payload now (total_value d.portfolio) d.portfolio q rest in
      let (size, sized, positive, rest'') =
        size_stage c payload (total_value d.portfolio) d.portfolio q rest' in
      let (bounded, affords, large, last) = cash_stage c payload size d.portfolio q rest'' in
      let (price, priced, result) = stop_stage c payload bounded d.portfolio q last in
      record {
        armed = armed;
        room = room;
        fresh = fresh;
        breaker = breaker;
        size = size;
        sized = sized;
        positive = positive;
        bounded = bounded;
        affords = affords;
        large = large;
        price = price;
        priced = priced;
        result = result;
      },
  λ k.
      let full : leb c.risk_settings.max_open_positions (length d.portfolio.positions) ≡ false =
        ground arith in
      rw (k.armed, full, k.fresh, evaluate)
        (rw (k.breaker, within_loss)
          (rw (k.sized, k.positive, with_size)
            (rw (k.affords, k.large, within_cash)
              (rw (k.priced, with_stop) (ap passed (sym k.result)))))),
)
