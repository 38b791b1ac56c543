-- ===== src/Portfolio/Ledger/Replay.antt =====
-- `Portfolio.rehydrate` against the live ledger of portfolio/ledger.py.
use afterhours.Prelude.{
  ℕ, String, ◌≡◌, refl, sym, ap, ◌∙◌, Option, none, some, List, [], ◌∷◌, ◌++◌, Bool, true, false,
  ltb, Option-cases, inl, inr, str_eq, if◌then◌else◌,
}
use afterhours.Prelude.Dict.{
  lookup, map_values, map_values-insert, map_values-erase, lookup-map_values, map_values-adjust,
}
use afterhours.Decimal.{Decimal, add, sub, zero_value}
use afterhours.Core.Events.{Fill, Tick, Raw, absent, malformed, number}
use afterhours.Portfolio.Position.{Position}
use afterhours.Portfolio.Ledger.{
  Portfolio, Result, ok, err, Booking, opens, closes, nothing, read_fill, mark, handle_tick,
  handle_fill, apply_fill, rehydrate, book, open_position, close_position, settle, advance_to,
  rollover_if_new_day, Trade, invalid_operation, realized_on_close, cash_on_close, ◌>>=◌,
}

abbrev pub unmark_position : Position → Position
unmark_position pos = record pos { current_price = pos.entry_price }

-- The book without its market marks: every position at its entry price, and no last prices. Cash,
-- the positions' terms, the day's accumulator and both series of trades are kept.
abbrev pub unmark : Portfolio → Portfolio
unmark p = record p { positions = map_values unmark_position p.positions; prices = [] }

-- The handler of a tick, as the bus runs it: what it raises is dropped.
unfoldable pub apply_tick : Tick → Portfolio → Portfolio
apply_tick tick p = elim (handle_tick tick p) [ ok p' ↦ p' | err _ ↦ p ]

unmark-mark :
    (instrument : String) (price : Decimal) (p : Portfolio)
    → unmark (mark instrument price p) ≡ unmark p
unfolding mark
unmark-mark instrument price p =
    ap (λ ps. record p { positions = ps; prices = [] })
      (map_values-adjust unmark_position instrument (λ pos. record pos { current_price = price })
        p.positions (λ v. refl))

-- A property that holds of the book, and of the book with any new mark, holds after a tick.
pub apply_tick_induction {ℓ} :
    (P : Portfolio → Type ℓ) (tick : Tick) (p : Portfolio)
    → P p
    → ((price : Decimal) → P (mark tick.instrument price p))
    → P (apply_tick tick p)
unfolding apply_tick handle_tick
apply_tick_induction P tick p h keep = go (str_eq tick.instrument "") tick.price
  where
    go :
        (empty : Bool) (price : Raw)
        → P
            (elim (if empty then ok p else elim price [
              | absent ↦ ok p
              | malformed ↦ err invalid_operation
              | number d ↦ ok (mark tick.instrument d p)
            ]) [ ok p' ↦ p' | err _ ↦ p ])
    go true price = h
    go false absent = h
    go false malformed = h
    go false (number d) = keep d

pub unmark-apply_tick : (tick : Tick) (p : Portfolio) → unmark (apply_tick tick p) ≡ unmark p
unmark-apply_tick tick p =
    apply_tick_induction (λ q. unmark q ≡ unmark p) tick p refl
      (λ price. unmark-mark tick.instrument price p)

unmark-advance_to :
    (day : ℕ) (o : Option ℕ) (p : Portfolio)
    → unmark (advance_to day o p) ≡ advance_to day o (unmark p)
unfolding advance_to
unmark-advance_to day none p = refl
unmark-advance_to day (some date) p = go (ltb date day)
  where
    go :
        (later : Bool)
        → unmark (
            if later
            then record p { daily_date = some day; daily_pnl = zero_value; daily_trades = [] }
            else p)
          ≡ (if later
              then record (unmark p) {
                daily_date = some day;
                daily_pnl = zero_value;
                daily_trades = [];
              }
              else unmark p)
    go true = refl
    go false = refl

abbrev append_close : Decimal → Trade → Portfolio → Portfolio
append_close r t q = record q {
  daily_pnl = add q.daily_pnl r;
  realized_trades = q.realized_trades ++ r ∷ [];
  daily_trades = q.daily_trades ++ t ∷ [];
}

abbrev append_open : Trade → Portfolio → Portfolio
append_open t q = record q { daily_trades = q.daily_trades ++ t ∷ [] }

module _ (trading_day : ℕ → ℕ) where
  unmark-settle :
      (pos : Position) (instrument : String) (fill_price fee : Decimal) (time : ℕ) (p : Portfolio)
      → unmark (settle trading_day pos instrument fill_price fee time p).1
        ≡ (settle trading_day (unmark_position pos) instrument fill_price fee time (unmark p)).1
  unfolding settle rollover_if_new_day realized_on_close cash_on_close
  unmark-settle pos instrument fill_price fee time p =
      ap (append_close (realized_on_close pos fill_price fee) _) (
        unmark-advance_to (trading_day time) p.daily_date _
        ∙ ap
            (λ ps. advance_to (trading_day time) p.daily_date (record p {
              cash = add p.cash (cash_on_close pos fill_price fee);
              positions = ps;
              prices = [];
            }))
            (map_values-erase unmark_position instrument p.positions))

  unmark-close_position :
      (instrument : String) (fill_price fee : Decimal) (time : ℕ) (p : Portfolio)
      → unmark (close_position trading_day instrument fill_price fee time p).1
        ≡ (close_position trading_day instrument fill_price fee time (unmark p)).1
  unfolding close_position
  unmark-close_position instrument fill_price fee time p =
      let known = lookup-map_values unmark_position instrument p.positions in
      elim (Option-cases (lookup instrument p.positions)) [
        | inl e ↦
            let e' : lookup instrument (map_values unmark_position p.positions) ≡ none =
              rw known (rw e) in
            rw (e, e', close_position)
        | inr (pos, e) ↦
            let e' : lookup instrument (map_values unmark_position p.positions)
                ≡ some (unmark_position pos) =
              rw known (rw e) in
            rw (e, e', close_position) (unmark-settle pos instrument fill_price fee time p)
      ]

  unmark-book :
      (b : Booking) (time : ℕ) (p : Portfolio)
      → unmark (book trading_day b time p) ≡ book trading_day b time (unmark p)
  unfolding book open_position rollover_if_new_day
  unmark-book (opens instrument side fill_price quantity cost fee stop_price id) time p =
      ap (append_open _) (
        unmark-advance_to (trading_day time) p.daily_date _
        ∙ ap
            (λ ps.
              advance_to (trading_day time) p.daily_date
                (record p { cash = sub p.cash (add cost fee); positions = ps; prices = [] }))
            (map_values-insert unmark_position instrument _ p.positions))
  unmark-book (closes instrument fill_price fee) time p =
      unmark-close_position instrument fill_price fee time p
  unmark-book nothing time p = refl

  pub unmark-apply_fill :
      (f : Fill) (time : ℕ) (p : Portfolio)
      → unmark (apply_fill trading_day f time p) ≡ apply_fill trading_day f time (unmark p)
  unfolding apply_fill handle_fill
  unmark-apply_fill f time p = go (read_fill f)
    where
      go :
          (r : Result Booking)
          → unmark (elim (r >>= λ b. ok (book trading_day b time p)) [ ok p' ↦ p' | err _ ↦ p ])
            ≡ elim (r >>= λ b. ok (book trading_day b time (unmark p))) [
              | ok p' ↦ p'
              | err _ ↦ unmark p
            ]
      go (ok b) = unmark-book b time p
      go (err _) = refl

  pub unmark-rehydrate :
      (fills : List (Fill × ℕ)) (p : Portfolio)
      → unmark (rehydrate trading_day fills p) ≡ rehydrate trading_day fills (unmark p)
  unfolding rehydrate
  unmark-rehydrate [] p = refl
  unmark-rehydrate ((f, time) ∷ fills) p =
      unmark-rehydrate fills (apply_fill trading_day f time p)
      ∙ ap (rehydrate trading_day fills) (unmark-apply_fill f time p)

-- What the live ledger hears, in the order of arrival.
pub data Heard : Type 0 where
  heard_tick : Tick → Heard
  heard_fill : Fill → ℕ → Heard

-- The fills among the events: what the event store hands to `rehydrate`.
abbrev pub fills_of : List Heard → List (Fill × ℕ)
fills_of [] = []
fills_of (heard_tick _ ∷ hs) = fills_of hs
fills_of (heard_fill f time ∷ hs) = (f, time) ∷ fills_of hs

module _ (trading_day : ℕ → ℕ) where
  -- The ledger that hears events live.
  unfoldable pub live : List Heard → Portfolio → Portfolio
  live [] p = p
  live (heard_tick tick ∷ hs) p = live hs (apply_tick tick p)
  live (heard_fill f time ∷ hs) p = live hs (apply_fill trading_day f time p)

  -- Replaying the stored fills rebuilds the live book up to its market marks: the same cash, the
  -- same positions but for their current price, the same daily P&L, day and trades, and the same
  -- series of closes, whatever ticks came between, and with malformed fills and ticks among them.
  pub unmark-live :
      (heard : List Heard) (p : Portfolio)
      → unmark (live heard p) ≡ unmark (rehydrate trading_day (fills_of heard) p)
  unfolding live rehydrate
  unmark-live [] p = refl
  unmark-live (heard_tick tick ∷ hs) p =
      unmark-live hs (apply_tick tick p)
      ∙ unmark-rehydrate trading_day (fills_of hs) (apply_tick tick p)
      ∙ ap (rehydrate trading_day (fills_of hs)) (unmark-apply_tick tick p)
      ∙ sym (unmark-rehydrate trading_day (fills_of hs) p)
  unmark-live (heard_fill f time ∷ hs) p = unmark-live hs (apply_fill trading_day f time p)
