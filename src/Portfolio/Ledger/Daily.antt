-- ===== src/Portfolio/Ledger/Daily.antt =====
-- The day's accumulator of portfolio/ledger.py against its list of trades.
use mathlib.Core.List.{foldl-append}
use afterhours.Prelude.{
  String, ℕ, ◌≡◌, refl, sym, ap, ◌∙◌, Option, none, some, List, [], ◌∷◌, ◌++◌, append-nil,
  append_assoc, Bool-cases, Option-cases, inl, inr, ltb,
}
use afterhours.Prelude.Dict.{lookup}
use afterhours.Decimal.{Decimal, add, sum}
use afterhours.Core.Events.{Fill, Side}
use afterhours.Portfolio.Position.{Position}
use afterhours.Portfolio.Ledger.{
  Portfolio, Trade, new_portfolio, apply_fill, rehydrate, open_position, close_position, settle,
  advance_to, book, Booking, opens, closes, nothing, apply_fill_induction, rehydrate_induction,
  rollover_if_new_day, daily_realized_pnl, daily_trades_at, is_current_day,
}

abbrev cons_close : Option Decimal → List Decimal → List Decimal
cons_close none rs = rs
cons_close (some r) rs = r ∷ rs

-- The realized P&L of the closes among the trades.
abbrev pub closed_pnl : List Trade → List Decimal
closed_pnl [] = []
closed_pnl (t ∷ ts) = cons_close t.realized_pnl (closed_pnl ts)

cons_close-append :
    (o : Option Decimal) (rs qs : List Decimal) → cons_close o (rs ++ qs) ≡ cons_close o rs ++ qs
cons_close-append none rs qs = refl
cons_close-append (some r) rs qs = refl

closed_pnl-append : (ts us : List Trade) → closed_pnl (ts ++ us) ≡ closed_pnl ts ++ closed_pnl us
closed_pnl-append [] us = refl
closed_pnl-append (t ∷ ts) us =
    rw (closed_pnl-append ts us) (cons_close-append t.realized_pnl (closed_pnl ts) (closed_pnl us))

sum-append_one : (rs : List Decimal) (r : Decimal) → sum (rs ++ r ∷ []) ≡ add (sum rs) r
sum-append_one rs r = rw foldl-append

-- The accumulator is the sum of the closes among the day's trades, added in their order, and these
-- closes are the end of the series of all closes.
pub record IsBooked (p : Portfolio) : Type 0 where
  pub daily : p.daily_pnl ≡ sum (closed_pnl p.daily_trades)
  pub series : (earlier : List Decimal) × (p.realized_trades ≡ earlier ++ closed_pnl p.daily_trades)

IsBooked-new : (cash : Decimal) → IsBooked (new_portfolio cash)
unfolding new_portfolio
IsBooked-new cash = record { daily = refl; series = ([], refl) }

advance_to-IsBooked :
    (day : ℕ) (o : Option ℕ) (p : Portfolio) → IsBooked p → IsBooked (advance_to day o p)
unfolding advance_to
advance_to-IsBooked day none p h = record { daily = h.daily; series = h.series }
advance_to-IsBooked day (some date) p h = elim (Bool-cases (ltb date day)) [
  | inl e ↦
      rw e
        (record { daily = refl; series = (p.realized_trades, sym (append-nil p.realized_trades)) })
  | inr e ↦ rw e h
]

-- A trade that closes nothing leaves the books as they are.
append_open-IsBooked :
    (p : Portfolio) (t : Trade)
    → t.realized_pnl ≡ none
    → IsBooked p
    → IsBooked (record p { daily_trades = p.daily_trades ++ t ∷ [] })
append_open-IsBooked p t e h =
    let same : closed_pnl (p.daily_trades ++ t ∷ []) ≡ closed_pnl p.daily_trades =
      rw (closed_pnl-append p.daily_trades (t ∷ []), e) (append-nil _) in
    record { daily = rw same h.daily; series = (h.series.0, rw same h.series.1) }

append_close-IsBooked :
    (p : Portfolio) (t : Trade) (r : Decimal)
    → t.realized_pnl ≡ some r
    → IsBooked p
    → IsBooked (record p {
      daily_pnl = add p.daily_pnl r;
      realized_trades = p.realized_trades ++ r ∷ [];
      daily_trades = p.daily_trades ++ t ∷ [];
    })
append_close-IsBooked p t r e h =
    let same : closed_pnl (p.daily_trades ++ t ∷ []) ≡ closed_pnl p.daily_trades ++ r ∷ [] =
      rw (closed_pnl-append p.daily_trades (t ∷ []), e) in
    record {
      daily = rw (same, sum-append_one (closed_pnl p.daily_trades) r) (ap (λ d. add d r) h.daily);
      series = (
        h.series.0,
        rw same (
            ap (λ rs. rs ++ r ∷ []) h.series.1
            ∙ append_assoc h.series.0 (closed_pnl p.daily_trades) (r ∷ [])),
      );
    }

module _ (trading_day : ℕ → ℕ) where
  open_position-IsBooked :
      (instrument : String) (side : Side) (fill_price quantity cost_usd fee : Decimal)
      (stop_price : Option Decimal) (decision_id : String) (time : ℕ) (p : Portfolio)
      → IsBooked p
      → IsBooked (
          open_position trading_day instrument side fill_price quantity cost_usd fee stop_price
            decision_id time p)
  unfolding open_position rollover_if_new_day
  open_position-IsBooked instrument side fill_price quantity cost_usd fee stop_price id time p h =
      append_open-IsBooked _ _ refl (
        advance_to-IsBooked (trading_day time) p.daily_date _
          (record { daily = h.daily; series = h.series }))

  settle-IsBooked :
      (pos : Position) (instrument : String) (fill_price fee : Decimal) (time : ℕ) (p : Portfolio)
      → IsBooked p
      → IsBooked (settle trading_day pos instrument fill_price fee time p).1
  unfolding settle rollover_if_new_day
  settle-IsBooked pos instrument fill_price fee time p h = append_close-IsBooked _ _ _ refl (
      advance_to-IsBooked (trading_day time) p.daily_date _
        (record { daily = h.daily; series = h.series }))

  close_position-IsBooked :
      (instrument : String) (fill_price fee : Decimal) (time : ℕ) (p : Portfolio)
      → IsBooked p
      → IsBooked (close_position trading_day instrument fill_price fee time p).1
  unfolding close_position
  close_position-IsBooked instrument fill_price fee time p h =
      elim (Option-cases (lookup instrument p.positions)) [
        | inl e ↦ rw (e, close_position) h
        | inr (pos, e) ↦
            rw (e, close_position) (settle-IsBooked pos instrument fill_price fee time p h)
      ]

  book-IsBooked :
      (b : Booking) (time : ℕ) (p : Portfolio) → IsBooked p → IsBooked (book trading_day b time p)
  unfolding book
  book-IsBooked (opens instrument side fill_price quantity cost fee stop_price id) time p h =
      open_position-IsBooked instrument side fill_price quantity cost fee stop_price id time p h
  book-IsBooked (closes instrument fill_price fee) time p h =
      close_position-IsBooked instrument fill_price fee time p h
  book-IsBooked nothing time p h = h

  -- From a new book, whatever fills are replayed, the accumulator of the day is the sum of the
  -- closes among the day's trades, and these are the last closes in the series of all closes.
  pub rehydrate-IsBooked :
      (fills : List (Fill × ℕ)) (cash : Decimal)
      → IsBooked (rehydrate trading_day fills (new_portfolio cash))
  rehydrate-IsBooked fills cash =
      rehydrate_induction trading_day IsBooked book-IsBooked fills (new_portfolio cash)
        (IsBooked-new cash)

  -- One more fill keeps the books.
  pub apply_fill-IsBooked :
      (f : Fill) (time : ℕ) (p : Portfolio)
      → IsBooked p
      → IsBooked (apply_fill trading_day f time p)
  apply_fill-IsBooked = apply_fill_induction trading_day IsBooked book-IsBooked

  -- The two daily reports agree at every clock: the P&L is the sum of the closes in the list of
  -- trades that is shown, also after the day has passed and both are empty.
  daily_realized_pnl-daily_trades_at :
      (as_of : ℕ) (p : Portfolio)
      → IsBooked p
      → daily_realized_pnl trading_day as_of p
        ≡ sum (closed_pnl (daily_trades_at trading_day as_of p))
  unfolding daily_realized_pnl daily_trades_at
  daily_realized_pnl-daily_trades_at as_of p h =
      elim (Bool-cases (is_current_day trading_day as_of p)) [ inl e ↦ rw e h.daily | inr e ↦ rw e ]
