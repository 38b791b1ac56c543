-- ===== src/Analytics/EquityCurve/Replayed.antt =====
-- analytics/equity_curve.py: the loop over the days ends, with a point for each, and every point is
-- the value of a book that the replay of the fills up to its day gives.
use afterhours.Prelude.{ℕ, ◌≤◌, ◌≡◌, Option, none, some, List, [], ◌++◌, map, All}
use afterhours.Prelude.Dict.{Dict}
use afterhours.Decimal.{Decimal}
use afterhours.Core.Events.{Tick, Fill}
use afterhours.Portfolio.Ledger.{
  Portfolio, new_portfolio, Result, ok, err, Booking, read_fill, book, rehydrate, total_value,
}
use afterhours.Portfolio.Ledger.Replay.{unmark}
use afterhours.Analytics.EquityCurve.{EquityPoint, Replay, note_price, note_due, mark_all}
use afterhours.Analytics.EquityCurve.Due.{due, days_from, IsDue}

-- The price of the tick can be read, whatever the prices before it.
abbrev pub IsReadable : Tick × ℕ → Type 0
IsReadable (tick, _) =
    (prices : Dict Decimal) → (prices' : Dict Decimal) × (note_price tick prices ≡ ok prices')

-- The values of the fill can be read.
abbrev pub IsBookable : Fill × ℕ → Type 0
IsBookable (f, _) = (b : Booking) × (read_fill f ≡ ok b)

module _ (trading_day : ℕ → ℕ) where
  module _ (initial_cash : Decimal) (fills : List (Fill × ℕ)) (ticks : List (Tick × ℕ)) where
    -- The book is the replay of the fills in front whose day has come, up to its marks.
    abbrev IsReplayOf : ℕ → Portfolio → Type 0
    IsReplayOf day p =
        unmark p ≡ unmark (rehydrate trading_day (due day fills) (new_portfolio initial_cash))

    -- The loop stands before the day: it has replayed some fills that are due by then, and noted
    -- some ticks.
    record IsBefore (day : ℕ) (s : Replay) : Type 0 where
      done : List (Fill × ℕ)
      split : fills ≡ done ++ s.fills
      past : All (λ x. IsDue day x) done
      replayed :
          unmark s.portfolio ≡ unmark (rehydrate trading_day done (new_portfolio initial_cash))
      bookable : All IsBookable s.fills
      readable : All IsReadable s.ticks
      noted :
          (later : ℕ) → day ≤ later → note_due later ticks [] ≡ note_due later s.ticks s.last_price

    -- The value of a book that is the replay of the fills up to the day, with the positions marked
    -- at the last prices up to it.
    abbrev pub IsValue : ℕ → Decimal → Type 0
    IsValue day equity =
        (book : Portfolio) × (prices : Dict Decimal) × (rest : List (Tick × ℕ)) × (note_due day
            ticks []
          ≡ ok (prices, rest))
        × (equity ≡ total_value (mark_all prices book))
        × IsReplayOf day book

    -- The loop has ended, with a point for each of `n` days.
    abbrev pub IsCurve : ℕ → ℕ → Option (Result (List EquityPoint)) → Type 0
    IsCurve n day none = ⊥
    IsCurve n day (some (err _)) = ⊥
    IsCurve n day (some (ok points)) =
        (map (λ point. point.day) points ≡ days_from n day)
        × All (λ point. IsValue point.day point.equity) points
