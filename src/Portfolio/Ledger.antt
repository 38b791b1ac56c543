-- ===== src/Portfolio/Ledger.antt =====
-- portfolio/ledger.py: the book of cash, positions and realized P&L.
-- Every method takes the portfolio and returns the new one. Times are microseconds since an epoch; `trading_day`, the
-- New York calendar day of a time, comes from the time zone database and is a parameter.
pub mod Daily
pub mod Replay
pub mod Count
use mathlib.Core.Option
use afterhours.Prelude.{
  ℕ, String, Bool, true, false, not, Option, none, some, List, [], ◌∷◌, ◌++◌, map, str_eq, ltb, leb,
  if◌then◌else◌, length,
}
use afterhours.Prelude.Dict.{Dict, lookup, insert, erase, adjust, contains, values}
use afterhours.Decimal.{Decimal, add, sub, mul, zero_value, sum}
use afterhours.Core.Events.{
  Side, long, short, side_value, parse_side, Raw, absent, malformed, number, Fill, Tick,
}
use afterhours.Portfolio.Position.{Position, equity_contribution, unrealized_pnl}

pub data Action : Type 0 where
  open_action close_action : Action

-- An entry of `_daily_trades`.
pub record Trade : Type 0 where
  pub instrument : String
  pub action : Action
  pub side : Side
  pub fill_price : Decimal
  pub quantity : Decimal
  pub fee : Decimal
  pub cost_usd : Decimal
  pub decision_id : String
  pub ts : ℕ
  pub realized_pnl : Option Decimal

pub record Portfolio : Type 0 where
  pub cash : Decimal
  pub positions : Dict Position
  pub prices : Dict Decimal
  pub daily_pnl : Decimal
  pub daily_date : Option ℕ
  pub realized_trades : List Decimal
  pub daily_trades : List Trade

-- `Portfolio.__init__`
unfoldable pub new_portfolio : Decimal → Portfolio
new_portfolio initial_cash = record {
  cash = initial_cash;
  positions = [];
  prices = [];
  daily_pnl = zero_value;
  daily_date = none;
  realized_trades = [];
  daily_trades = [];
}

-- What a call raises: a ValueError, the ArithmeticErrors of `decimal`, and the errors of the
-- executor.
pub data Fault : Type 0 where
  value_error invalid_operation division_by_zero halted_error stale_decision : Fault

pub data Result (A : Type 0) : Type 0 where
  ok : A → Result A
  err : Fault → Result A

infixl 5 ◌>>=◌
abbrev pub ◌>>=◌ : {A B : Type 0} → Result A → (A → Result B) → Result B
ok a >>= f = f a
err e >>= f = err e

-- `Decimal(str(p.get(key, "0")))`
abbrev pub decimal_or_zero : Raw → Result Decimal
decimal_or_zero absent = ok zero_value
decimal_or_zero malformed = err invalid_operation
decimal_or_zero (number d) = ok d

-- `Decimal(text) if text else None`
abbrev pub decimal_if_given : Raw → Result (Option Decimal)
decimal_if_given absent = ok none
decimal_if_given malformed = err invalid_operation
decimal_if_given (number d) = ok (some d)

-- `Side(text)`
abbrev pub side_or_raise : String → Result Side
side_or_raise s = elim (parse_side s) [ none ↦ err value_error | some side ↦ ok side ]

-- `Portfolio.total_value`
unfoldable pub total_value : Portfolio → Decimal
total_value p = add p.cash (sum (map equity_contribution (values p.positions)))

-- `Portfolio.open_position_count`
abbrev pub open_position_count : Portfolio → ℕ
open_position_count p = length p.positions

-- `Portfolio.unrealized_pnl`
unfoldable pub total_unrealized : Portfolio → Decimal
total_unrealized p = sum (map unrealized_pnl (values p.positions))

-- `Portfolio.current_price`
abbrev pub current_price : Portfolio → String → Option Decimal
current_price p instrument = lookup instrument p.prices

-- Write a price, and the mark of a position in it.
unfoldable pub mark : String → Decimal → Portfolio → Portfolio
mark instrument price p = record p {
  positions = adjust instrument (λ pos. record pos { current_price = price }) p.positions;
  prices = insert instrument price p.prices;
}

-- `Portfolio._handle_tick`
unfoldable pub handle_tick : Tick → Portfolio → Result Portfolio
handle_tick tick p = if str_eq tick.instrument "" then ok p else elim tick.price [
  | absent ↦ ok p
  | malformed ↦ err invalid_operation
  | number price ↦ ok (mark tick.instrument price p)
]

-- `Portfolio.seed_prices`
unfoldable pub seed_prices : Dict Raw → Portfolio → Result Portfolio
seed_prices [] p = ok p
seed_prices ((instrument, absent) ∷ ticks) p = seed_prices ticks p
seed_prices ((instrument, malformed) ∷ ticks) p = err invalid_operation
seed_prices ((instrument, number price) ∷ ticks) p = seed_prices ticks (mark instrument price p)

-- The realized P&L of closing `pos` at `fill_price` with `fee`, net of both legs' fees.
unfoldable pub realized_on_close : Position → Decimal → Decimal → Decimal
realized_on_close pos fill_price fee =
    let proceeds = mul fill_price pos.quantity in
    let cost_basis = mul pos.entry_price pos.quantity in
    let total_fees = add fee pos.entry_fee in
    elim pos.side [
      | long ↦ sub (sub proceeds cost_basis) total_fees
      | short ↦ sub (sub cost_basis proceeds) total_fees
    ]

-- The cash that closing `pos` brings in.
unfoldable pub cash_on_close : Position → Decimal → Decimal → Decimal
cash_on_close pos fill_price fee =
    let proceeds = mul fill_price pos.quantity in
    let cost_basis = mul pos.entry_price pos.quantity in
    elim pos.side [
      | long ↦ sub proceeds fee
      | short ↦ sub (add cost_basis (sub cost_basis proceeds)) fee
    ]

-- The three branches of the rollover, by the day that the accumulator belongs to.
unfoldable pub advance_to : ℕ → Option ℕ → Portfolio → Portfolio
advance_to day none p = record p { daily_date = some day }
advance_to day (some date) p =
    if ltb date day
    then record p { daily_date = some day; daily_pnl = zero_value; daily_trades = [] }
    else p

-- The values that `_handle_fill` reads from a payload before it changes the book, by the action.
pub data Booking : Type 0 where
  opens : String → Side → Decimal → Decimal → Decimal → Decimal → Option Decimal → String → Booking
  closes : String → Decimal → Decimal → Booking
  nothing : Booking

-- The reading half of `Portfolio._handle_fill`, which raises before anything is changed.
unfoldable pub read_fill : Fill → Result Booking
read_fill f = do
  fill_price ← decimal_or_zero f.fill_price
  quantity ← decimal_or_zero f.quantity
  cost_usd ← decimal_or_zero f.cost_usd
  fee ← decimal_or_zero f.fee
  stop_price ← decimal_if_given f.stop_price
  let action = Option.get_or f.action "open"
  if str_eq action "open"
      then (do
        side ← side_or_raise (Option.get_or f.side "long")
        ok (opens f.instrument side fill_price quantity cost_usd fee stop_price f.decision_id))
      else if str_eq action "close"
      then ok (closes f.instrument fill_price fee)
      else ok nothing

module _ (trading_day : ℕ → ℕ) where
  -- `Portfolio._is_current_day`
  unfoldable pub is_current_day : ℕ → Portfolio → Bool
  is_current_day as_of p = elim p.daily_date [
    | none ↦ false
    | some date ↦ leb (trading_day as_of) date
  ]

  -- `Portfolio.daily_realized_pnl`
  unfoldable pub daily_realized_pnl : ℕ → Portfolio → Decimal
  daily_realized_pnl as_of p = if not (is_current_day as_of p) then zero_value else p.daily_pnl

  -- `Portfolio.daily_trades`, read at the wall clock `now`
  unfoldable pub daily_trades_at : ℕ → Portfolio → List Trade
  daily_trades_at now p = if is_current_day now p then p.daily_trades else []

  -- `Portfolio._rollover_if_new_day`
  unfoldable pub rollover_if_new_day : ℕ → Portfolio → Portfolio
  unfolding advance_to
  rollover_if_new_day as_of p = advance_to (trading_day as_of) p.daily_date p

  -- `Portfolio.open_position`
  unfoldable pub open_position :
      String
      → Side
      → Decimal
      → Decimal
      → Decimal
      → Decimal
      → Option Decimal
      → String
      → ℕ
      → Portfolio
      → Portfolio
  open_position instrument side fill_price quantity cost_usd entry_fee stop_price decision_id time
        p =
      let paid = record p {
        cash = sub p.cash (add cost_usd entry_fee);
        positions =
            insert instrument
              (record {
                instrument = instrument;
                side = side;
                entry_price = fill_price;
                quantity = quantity;
                current_price = fill_price;
                stop_price = stop_price;
                entry_fee = entry_fee;
                decision_id = decision_id;
              })
              p.positions;
      } in
      let rolled = rollover_if_new_day time paid in
      record rolled {
        daily_trades =
            rolled.daily_trades
            ++ record {
              instrument = instrument;
              action = open_action;
              side = side;
              fill_price = fill_price;
              quantity = quantity;
              fee = entry_fee;
              cost_usd = cost_usd;
              decision_id = decision_id;
              ts = time;
              realized_pnl = none;
            }
              ∷ [];
      }

  -- `Portfolio.close_position` past its guard, for the position `pos` that was held.
  unfoldable pub settle :
      Position → String → Decimal → Decimal → ℕ → Portfolio → Decimal × Portfolio
  settle pos instrument fill_price fee time p =
      let realized = realized_on_close pos fill_price fee in
      let paid = record p {
        cash = add p.cash (cash_on_close pos fill_price fee);
        positions = erase instrument p.positions;
      } in
      let rolled = rollover_if_new_day time paid in
      (
        realized,
        record rolled {
          daily_pnl = add rolled.daily_pnl realized;
          realized_trades = rolled.realized_trades ++ realized ∷ [];
          daily_trades =
              rolled.daily_trades
              ++ record {
                instrument = instrument;
                action = close_action;
                side = pos.side;
                fill_price = fill_price;
                quantity = pos.quantity;
                fee = fee;
                cost_usd = mul fill_price pos.quantity;
                decision_id = pos.decision_id;
                ts = time;
                realized_pnl = some realized;
              }
                ∷ [];
        },
      )

  -- `Portfolio.close_position`
  unfoldable pub close_position : String → Decimal → Decimal → ℕ → Portfolio → Decimal × Portfolio
  close_position instrument fill_price fee time p = elim (lookup instrument p.positions) [
    | none ↦ (zero_value, p)
    | some pos ↦ settle pos instrument fill_price fee time p
  ]

  -- What `_handle_fill` does with the values that it has read.
  unfoldable pub book : Booking → ℕ → Portfolio → Portfolio
  book (opens instrument side fill_price quantity cost_usd fee stop_price decision_id) time p =
      open_position instrument side fill_price quantity cost_usd fee stop_price decision_id time p
  book (closes instrument fill_price fee) time p =
      (close_position instrument fill_price fee time p).1
  book nothing time p = p

  -- `Portfolio._handle_fill`
  unfoldable pub handle_fill : Fill → ℕ → Portfolio → Result Portfolio
  handle_fill f time p = do b ← read_fill f; ok (book b time p)

  -- The bus drops what a handler raises, and `rehydrate` skips the fill: the book stays.
  unfoldable pub apply_fill : Fill → ℕ → Portfolio → Portfolio
  apply_fill f time p = elim (handle_fill f time p) [ ok p' ↦ p' | err _ ↦ p ]

  -- A property that opening and closing keep is kept by every fill.
  pub apply_fill_induction :
      (P : Portfolio → Type 0)
      → ((b : Booking) (time : ℕ) (p : Portfolio) → P p → P (book b time p))
      → (f : Fill) (time : ℕ) (p : Portfolio) → P p
      → P (apply_fill f time p)
  unfolding apply_fill handle_fill
  apply_fill_induction P keep f time p h = go (read_fill f)
    where
      go :
          (r : Result Booking) → P (elim (r >>= λ b. ok (book b time p)) [ ok p' ↦ p' | err _ ↦ p ])
      go (ok b) = keep b time p h
      go (err _) = h

  -- `Portfolio.rehydrate`
  unfoldable pub rehydrate : List (Fill × ℕ) → Portfolio → Portfolio
  rehydrate [] p = p
  rehydrate ((f, time) ∷ fills) p = rehydrate fills (apply_fill f time p)

  pub rehydrate_induction :
      (P : Portfolio → Type 0)
      → ((b : Booking) (time : ℕ) (p : Portfolio) → P p → P (book b time p))
      → (fills : List (Fill × ℕ)) (p : Portfolio) → P p
      → P (rehydrate fills p)
  unfolding rehydrate
  rehydrate_induction P keep [] p h = h
  rehydrate_induction P keep ((f, time) ∷ fills) p h =
      rehydrate_induction P keep fills (apply_fill f time p)
        (apply_fill_induction P keep f time p h)
