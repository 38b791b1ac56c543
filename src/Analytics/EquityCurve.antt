-- ===== src/Analytics/EquityCurve.antt =====
-- analytics/equity_curve.py: the equity at the end of each calendar day, from the stored fills and
-- ticks. Times are microseconds since the epoch, and days are counted from it; `trading_day` is the
-- one of the ledger. The ledger here is a calculator: its prices are never written.
pub mod Due
pub mod Replayed
use afterhours.Prelude.{
  ℕ, zero, suc, ◌-◌, ◌/◌, String, Option, none, some, List, [], ◌∷◌, str_eq, leb, if◌then◌else◌,
}
use afterhours.Prelude.Dict.{Dict, lookup, insert}
use afterhours.Decimal.{Decimal}
use afterhours.Core.Events.{Raw, absent, malformed, number, Tick, Fill}
use afterhours.Portfolio.Position.{Position}
use afterhours.Portfolio.Ledger.{
  Portfolio, new_portfolio, Result, ok, err, invalid_operation, handle_fill, total_value,
}

pub record EquityPoint : Type 0 where
  pub day : ℕ
  pub equity : Decimal

-- `event_time.astimezone(UTC).date()`
abbrev pub utc_day : ℕ → ℕ
utc_day time = time / 86_400_000_000

-- What the loop over the days carries: the events that are not reached yet (`fi` and `ti`), the last
-- prices, and the ledger.
pub record Replay : Type 0 where
  pub fills : List (Fill × ℕ)
  pub ticks : List (Tick × ℕ)
  pub last_price : Dict Decimal
  pub portfolio : Portfolio

-- The last prices after a tick.
unfoldable pub note_price : Tick → Dict Decimal → Result (Dict Decimal)
note_price tick prices = if str_eq tick.instrument "" then ok prices else elim tick.price [
  | absent ↦ ok prices
  | malformed ↦ err invalid_operation
  | number price ↦ ok (insert tick.instrument price prices)
]

-- The loop over the ticks of a day.
unfoldable pub note_due :
    ℕ → List (Tick × ℕ) → Dict Decimal → Result (Dict Decimal × List (Tick × ℕ))
note_due day [] prices = ok (prices, [])
note_due day ((tick, time) ∷ ticks) prices =
    if leb (utc_day time) day
    then elim (note_price tick prices) [ err e ↦ err e | ok prices' ↦ note_due day ticks prices' ]
    else ok (prices, (tick, time) ∷ ticks)

-- The marking of the open positions to the last known prices.
unfoldable pub mark_each : Dict Decimal → Dict Position → Dict Position
mark_each prices [] = []
mark_each prices ((instrument, position) ∷ positions) =
    (
      instrument,
      elim (lookup instrument prices) [
        | none ↦ position
        | some price ↦ record position { current_price = price }
      ],
    )
    ∷ mark_each prices positions

unfoldable pub mark_all : Dict Decimal → Portfolio → Portfolio
mark_all prices p = record p { positions = mark_each prices p.positions }

module _ (trading_day : ℕ → ℕ) where
  -- The loop over the fills of a day.
  unfoldable pub apply_due : ℕ → List (Fill × ℕ) → Portfolio → Result (Portfolio × List (Fill × ℕ))
  apply_due day [] p = ok (p, [])
  apply_due day ((f, time) ∷ fills) p =
      if leb (utc_day time) day
      then elim (handle_fill trading_day f time p) [
        | err e ↦ err e
        | ok p' ↦ apply_due day fills p'
      ]
      else ok (p, (f, time) ∷ fills)

  -- The body of the loop over the days, up to the point that it appends.
  unfoldable pub advance : ℕ → Replay → Result Replay
  advance day s = elim (apply_due day s.fills s.portfolio) [
    | err e ↦ err e
    | ok (p, fills) ↦ elim (note_due day s.ticks s.last_price) [
      | err e ↦ err e
      | ok (prices, ticks) ↦ ok (record {
        fills = fills;
        ticks = ticks;
        last_price = prices;
        portfolio = mark_all prices p;
      })
    ]
  ]

  -- `points.append(...)` in front of the points of the later days
  unfoldable pub append_point :
      EquityPoint → Option (Result (List EquityPoint)) → Option (Result (List EquityPoint))
  append_point point none = none
  append_point point (some (err e)) = some (err e)
  append_point point (some (ok points)) = some (ok (point ∷ points))

  -- `while day <= today`, on fuel; `none` is the fuel running out.
  unfoldable pub curve : ℕ → ℕ → ℕ → Replay → Option (Result (List EquityPoint))
  curve zero day today s = if leb day today then none else some (ok [])
  curve (suc fuel) day today s =
      if leb day today
      then elim (advance day s) [
        | err e ↦ some (err e)
        | ok s' ↦
            append_point (record { day = day; equity = total_value s'.portfolio })
              (curve fuel (suc day) today s')
      ]
      else some (ok [])

  -- `build_equity_curve`
  unfoldable pub build_equity_curve :
      Decimal → List (Fill × ℕ) → List (Tick × ℕ) → ℕ → Option (Result (List EquityPoint))
  build_equity_curve initial_cash [] ticks today = some (ok [])
  build_equity_curve initial_cash ((f, time) ∷ fills) ticks today =
      curve (suc today - utc_day time) (utc_day time) today (record {
        fills = (f, time) ∷ fills;
        ticks = ticks;
        last_price = [];
        portfolio = new_portfolio initial_cash;
      })
