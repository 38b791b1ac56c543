-- ===== src/Portfolio/Orders.antt =====
-- portfolio/executor.py, the orders: idempotent submission, closing and opening fills. Subscriptions,
-- log lines and the ids of fills are left out; a method that raises returns its fault with the state
-- that it leaves. Order and fill ids are texts; a correlation id is the test that its construction does not raise.
pub mod Closing
pub mod Keys
use Prim.Native.String.{◌++◌ as str_append}
use mathlib.Core.Option
use afterhours.Prelude.{
  ℕ, String, Bool, true, false, Option, none, some, [], ◌∷◌, ◌++◌, if◌then◌else◌,
}
use afterhours.Prelude.Dict.{lookup}
use afterhours.Prelude.Texts.{mem}
use afterhours.Decimal.{
  Decimal, add, sub, mul, div, quantize, le_decimal, is_zero, of_ℕ, zero_value,
}
use afterhours.Core.Pricing.{quantize_price}
use afterhours.Core.Events.{
  Side, long, short, side_value, parse_side, Raw, absent, number, Decision, Intent, opening,
  closing, Order, Fill, order_submitted,
}
use afterhours.Portfolio.Position.{Position}
use afterhours.Portfolio.Ledger.{
  value_error, invalid_operation, division_by_zero, Result, ok, err, current_price, decimal_or_zero,
}
use afterhours.Desk.{Desk, Config, correlates, tell, publish_filled}

-- A method call: it returns or raises, and leaves a state.
abbrev pub Run : Type 0 → Type 0
Run A = Result A × Desk

-- What follows a call, unless it raised.
abbrev pub after : {A B : Type 0} → Run A → (Desk → Run B) → Run B
after (ok _, d) f = f d
after (err e, d) f = (err e, d)

abbrev pub intent_value : Intent → String
intent_value opening = ":open"
intent_value closing = ":close"

-- `Order.make_client_order_id`
unfoldable pub make_client_order_id : String → Intent → String
make_client_order_id decision_id intent = str_append decision_id (intent_value intent)

-- A price that `if not price` lets through.
unfoldable pub truthy : Option Decimal → Option Decimal
truthy none = none
truthy (some price) = if is_zero price then none else some price

-- The key of an order is remembered.
abbrev pub remember : Order → Desk → Desk
remember order d = record d { submitted_orders = d.submitted_orders ++ order.client_order_id ∷ [] }

-- `PaperExecutor._submit`. The key is remembered before the envelope is built, whose correlation id
-- may raise.
unfoldable pub submit : Config → Order → ℕ → Desk → Run Bool
submit c order now d =
    if mem order.client_order_id d.submitted_orders
    then (ok false, d)
    else if correlates c order.decision_id
    then (ok true, tell "paper_executor" now (order_submitted order) (remember order d))
    else (err value_error, remember order d)

-- The market price after slippage: against the trader on either leg.
abbrev pub slipped_up : Config → Decimal → Decimal
slipped_up c price = mul price (add (of_ℕ 1) c.portfolio_settings.slippage_pct)

abbrev pub slipped_down : Config → Decimal → Decimal
slipped_down c price = mul price (sub (of_ℕ 1) c.portfolio_settings.slippage_pct)

-- The price at which `pos` is closed in a market at `price`.
unfoldable pub close_price : Config → Position → Decimal → Decimal
close_price c pos price = elim pos.side [ long ↦ slipped_down c price | short ↦ slipped_up c price ]

-- The closing order and its fill.
unfoldable pub close_order : Config → Position → String → Decimal → ℕ → Order
close_order c pos instrument price now = record {
  client_order_id = make_client_order_id pos.decision_id closing;
  decision_id = pos.decision_id;
  instrument = instrument;
  side = pos.side;
  intent = closing;
  size_usd = mul (close_price c pos price) pos.quantity;
  created_at = now;
}

unfoldable pub close_fill : Config → Position → String → Decimal → Fill
close_fill c pos instrument price = record {
  instrument = instrument;
  action = some "close";
  side = some (side_value pos.side);
  client_order_id = make_client_order_id pos.decision_id closing;
  fill_price = number (close_price c pos price);
  quantity = number pos.quantity;
  cost_usd = number zero_value;
  fee = number (mul (mul (close_price c pos price) pos.quantity) c.portfolio_settings.fee_pct);
  stop_price = absent;
  decision_id = pos.decision_id;
}

-- The end of `PaperExecutor.close_position`, after the submission.
unfoldable pub close_submitted : Config → Position → String → Decimal → ℕ → Run Bool → Run Bool
close_submitted c pos instrument price now (err e, d) = (err e, d)
close_submitted c pos instrument price now (ok false, d) = (ok false, d)
close_submitted c pos instrument price now (ok true, d) =
    (ok true, publish_filled c now (close_fill c pos instrument price) d)

-- `PaperExecutor.close_position` past its two guards.
unfoldable pub close_at : Config → Position → String → Decimal → ℕ → Desk → Run Bool
close_at c pos instrument price now d =
    close_submitted c pos instrument price now
      (submit c (close_order c pos instrument price now) now d)

-- `PaperExecutor.close_position`
unfoldable pub close_position : Config → String → ℕ → Desk → Run Bool
close_position c instrument now d = elim (lookup instrument d.portfolio.positions) [
  | none ↦ (ok false, d)
  | some pos ↦ elim (truthy (current_price d.portfolio instrument)) [
    | none ↦ (ok false, d)
    | some price ↦ close_at c pos instrument price now d
  ]
]

-- The opening order and its fill.
unfoldable pub open_order : Decision → Side → Decimal → ℕ → Order
open_order payload side size_usd now = record {
  client_order_id = make_client_order_id payload.id opening;
  decision_id = payload.id;
  instrument = payload.proposal.instrument;
  side = side;
  intent = opening;
  size_usd = size_usd;
  created_at = now;
}

-- `str(risk["stop_price"])`, where the payload has one.
abbrev pub stop_of : Decision → Raw
stop_of payload = elim payload.risk [
  | none ↦ absent
  | some risk ↦ elim risk.stop_price [ none ↦ absent | some stop ↦ number stop ]
]

unfoldable pub open_fill : Config → Decision → Side → Decimal → Decimal → Decimal → Fill
open_fill c payload side size_usd fill_price quantity = record {
  instrument = payload.proposal.instrument;
  action = some "open";
  side = some (side_value side);
  client_order_id = make_client_order_id payload.id opening;
  fill_price = number fill_price;
  quantity = number quantity;
  cost_usd = number size_usd;
  fee = number (mul size_usd c.portfolio_settings.fee_pct);
  stop_price = stop_of payload;
  decision_id = payload.id;
}

-- The price at which a position is opened in a market at `price`.
unfoldable pub open_price : Config → Side → Decimal → Decimal
open_price c side price =
    quantize_price (elim side [ long ↦ slipped_up c price | short ↦ slipped_down c price ])

-- `(size_usd / fill_price).quantize(Decimal("0.00000001"))`
unfoldable pub open_quantity : Decimal → Decimal → Result Decimal
open_quantity size_usd fill_price = elim (div size_usd fill_price) [
  | none ↦ err division_by_zero
  | some q ↦ elim (quantize 8 q) [ none ↦ err invalid_operation | some quantity ↦ ok quantity ]
]

-- The end of `PaperExecutor._fill`, for an order that was submitted. The quantity is computed only
-- here, so an arithmetic error leaves a submitted order without a fill.
unfoldable pub fill_submitted :
    Config → Decision → Side → Decimal → Decimal → Result Decimal → ℕ → Desk → Run (Unit {0})
fill_submitted c payload side size_usd fill_price (err e) now d = (err e, d)
fill_submitted c payload side size_usd fill_price (ok quantity) now d =
    (ok tt, publish_filled c now (open_fill c payload side size_usd fill_price quantity) d)

-- `PaperExecutor._fill` after the submission. The correlation id of the fill is that of the order.
unfoldable pub fill_ordered :
    Config → Decision → Side → Decimal → Decimal → ℕ → Run Bool → Run (Unit {0})
unfolding fill_submitted
fill_ordered c payload side size_usd price now (err e, d) = (err e, d)
fill_ordered c payload side size_usd price now (ok false, d) = (ok tt, d)
fill_ordered c payload side size_usd price now (ok true, d) =
    let fill_price = open_price c side price in
    fill_submitted c payload side size_usd fill_price (open_quantity size_usd fill_price) now d

-- `PaperExecutor._fill` from the construction of the order on.
unfoldable pub fill_at : Config → Decision → Side → Decimal → Decimal → ℕ → Desk → Run (Unit {0})
fill_at c payload side size_usd price now d =
    fill_ordered c payload side size_usd price now
      (submit c (open_order payload side size_usd now) now d)

-- `_fill` for a size that is a number.
unfoldable pub fill_sized : Config → Decision → Decimal → ℕ → Desk → Run (Unit {0})
fill_sized c payload size_usd now d =
    if le_decimal size_usd zero_value
    then (ok tt, d)
    else elim (truthy (current_price d.portfolio payload.proposal.instrument)) [
      | none ↦ (ok tt, d)
      | some price ↦ elim (parse_side (Option.get_or payload.proposal.side "long")) [
        | none ↦ (err value_error, d)
        | some side ↦ fill_at c payload side size_usd price now d
      ]
    ]

-- `PaperExecutor._fill`
unfoldable pub fill : Config → Decision → ℕ → Desk → Run (Unit {0})
fill c payload now d = elim (decimal_or_zero payload.proposal.size_usd) [
  | err e ↦ (err e, d)
  | ok size_usd ↦ fill_sized c payload size_usd now d
]
