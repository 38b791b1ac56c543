-- ===== src/Ingestion/Alerts.antt =====
-- ingestion/alerts/generator.py, `PriceAlertGenerator`. Times are microseconds. The texts of the
-- summaries are left out, and the share of the window that must be covered, 0.8, is exact here.
pub mod Cooldown
use afterhours.Prelude.{
  ℕ, ◌+◌, ◌*◌, String, Bool, true, false, not, ◌&&◌, Option, none, some, List, [], ◌∷◌, ◌++◌,
  str_eq, ltb, leb, if◌then◌else◌,
}
use afterhours.Prelude.Dict.{Dict, lookup, insert}
use afterhours.Prelude.Texts.{mem}
use afterhours.Prelude.Int.{pos, nat_abs}
use afterhours.Decimal.{
  Decimal, fix, sub, mul, div, of_ℕ, quantize, le_decimal, lt_decimal, zero_value,
}
use afterhours.Core.Events.{Raw, absent, malformed, number}

-- `AlertSettings`
pub record AlertSettings : Type 0 where
  pub price_move_pct_threshold : Decimal
  pub price_move_window_minutes : ℕ
  pub alert_cooldown_minutes : ℕ

pub data Direction : Type 0 where
  up down : Direction

-- What an alert reports: the level that was crossed, or the move and its size.
pub data Alert : Type 0 where
  high_cross low_cross : Decimal → Alert
  pct_move : Direction → Decimal → Alert

abbrev pub alert_type : Alert → String
alert_type (high_cross _) = "24h_high_cross"
alert_type (low_cross _) = "24h_low_cross"
alert_type (pct_move _ _) = "pct_move"

-- The `signal.created` of an alert.
pub record PriceAlert : Type 0 where
  pub instrument : String
  pub alert : Alert
  pub price : Decimal
  pub event_time : ℕ

-- The payload of a tick.
pub record PriceTick : Type 0 where
  pub instrument : String
  pub price : Raw
  pub high_24h : Raw
  pub low_24h : Raw

abbrev pub Window : Type 0
Window = List (ℕ × Decimal)

-- The cooldowns by instrument and type, the latest first; nothing lists them. `fired` is what was
-- published, the oldest first.
pub record Alerts : Type 0 where
  pub last_price : Dict Decimal
  pub windows : Dict Window
  pub cooldowns : List (String × String × ℕ)
  pub fired : List PriceAlert

abbrev pub new_alerts : Alerts
new_alerts = record { last_price = []; windows = []; cooldowns = []; fired = [] }

-- How the handler of a tick ends: it returns, or it raises InvalidOperation.
pub data Outcome : Type 0 where
  returned raised : Alerts → Outcome

abbrev pub state_of : Outcome → Alerts
state_of (returned a) = a
state_of (raised a) = a

-- `abs(d)`
abbrev abs_decimal : Decimal → Decimal
abs_decimal d = fix (record d { coef = pos (nat_abs d.coef) })

-- `self._cooldowns.get((instrument, alert_type))`
unfoldable pub last_fired : String → String → List (String × String × ℕ) → Option ℕ
last_fired instrument kind [] = none
last_fired instrument kind ((i, k, t) ∷ rest) =
    if str_eq i instrument && str_eq k kind then some t else last_fired instrument kind rest

-- `_cooldown_ok`, less the note that it takes
unfoldable pub cooldown_ok : AlertSettings → String → String → ℕ → Alerts → Bool
cooldown_ok s instrument kind now a = elim (last_fired instrument kind a.cooldowns) [
  | none ↦ true
  | some last ↦ leb (last + s.alert_cooldown_minutes * 60_000_000) now
]

-- One round of the loop over the alerts of a tick: the cooldown is noted, and the alert published.
unfoldable pub fire : AlertSettings → String → Decimal → ℕ → Alert → Alerts → Alerts
fire s instrument price now alert a =
    if cooldown_ok s instrument (alert_type alert) now a
    then record a {
      cooldowns = (instrument, alert_type alert, now) ∷ a.cooldowns;
      fired =
          a.fired
          ++ record { instrument = instrument; alert = alert; price = price; event_time = now }
            ∷ [];
    }
    else a

unfoldable pub fire_each : AlertSettings → String → Decimal → ℕ → List Alert → Alerts → Alerts
fire_each s instrument price now [] a = a
fire_each s instrument price now (alert ∷ alerts) a =
    fire_each s instrument price now alerts (fire s instrument price now alert a)

-- The alert of a crossing of the level, `none` where the level is no number.
unfoldable pub crossing :
    Raw → Option Decimal → (Decimal → Decimal → Option Alert) → Option (List Alert)
crossing absent prev test = some []
crossing malformed none test = some []
crossing malformed (some _) test = none
crossing (number level) none test = some []
crossing (number level) (some prev) test = elim (test prev level) [
  | none ↦ some []
  | some alert ↦ some (alert ∷ [])
]

unfoldable pub breaks_above : Decimal → Decimal → Decimal → Option Alert
breaks_above price prev high =
    if lt_decimal prev high && le_decimal high price then some (high_cross high) else none

unfoldable pub breaks_below : Decimal → Decimal → Decimal → Option Alert
breaks_below price prev low =
    if lt_decimal low prev && le_decimal price low then some (low_cross low) else none

-- `while window and window[0][0] < cutoff: window.popleft()`
unfoldable pub pop_stale : ℕ → ℕ → Window → Window
pop_stale width now [] = []
pop_stale width now ((t, p) ∷ w) =
    let rest = pop_stale width now w in if ltb (t + width) now then rest else (t, p) ∷ w

-- The window of the instrument with this tick, without what is older than the width.
unfoldable pub slide : AlertSettings → String → Decimal → ℕ → Alerts → Window
slide s instrument price now a =
    let window : Window = elim (lookup instrument a.windows) [ none ↦ [] | some w ↦ w ] in
    pop_stale (s.price_move_window_minutes * 60_000_000) now (window ++ (now, price) ∷ [])

-- The percentage that the price has moved, where that is enough; a division by zero is excluded
-- by the test before it. `none` is the InvalidOperation of a move too large to be printed.
unfoldable pub move_from : AlertSettings → Decimal → Decimal → Option (List Alert)
move_from s price oldest = elim (div (sub price oldest) oldest) [
  | none ↦ none
  | some q ↦
      let pct = abs_decimal (mul q (of_ℕ 100)) in
      if le_decimal s.price_move_pct_threshold pct
      then elim (quantize 2 pct) [
        | none ↦ none
        | some shown ↦ some (pct_move (if lt_decimal oldest price then up else down) shown ∷ [])
      ]
      else some []
]

-- The alert of a move over the window.
unfoldable pub moved : AlertSettings → Decimal → ℕ → Window → Option (List Alert)
moved s price now [] = some []
moved s price now (_ ∷ []) = some []
moved s price now ((t, oldest) ∷ _ ∷ _) =
    if leb (t + s.price_move_window_minutes * 48_000_000) now && lt_decimal zero_value oldest
    then move_from s price oldest
    else some []

-- The rest of the handler, after the crossings: the window slides whether or not the move is told.
unfoldable pub slide_and_fire : AlertSettings → String → Decimal → ℕ → List Alert → Alerts → Outcome
slide_and_fire s instrument price now crossed a =
    let window = slide s instrument price now a in
    let a' : Alerts = record a { windows = insert instrument window a.windows } in
    elim (moved s price now window) [
      | none ↦ raised a'
      | some alerts ↦ returned (
          fire_each s instrument price now (crossed ++ alerts)
            (record a' { last_price = insert instrument price a.last_price }))
    ]

-- The handler on a tick with a price.
unfoldable pub watch_price : AlertSettings → PriceTick → Decimal → ℕ → Alerts → Outcome
watch_price s tick price now a =
    let prev = lookup tick.instrument a.last_price in
    elim (crossing tick.high_24h prev (breaks_above price)) [
      | none ↦ raised a
      | some highs ↦ elim (crossing tick.low_24h prev (breaks_below price)) [
        | none ↦ raised a
        | some lows ↦ slide_and_fire s tick.instrument price now (highs ++ lows) a
      ]
    ]

-- `instrument not in self._watchlist.active_instruments`, where there is a watchlist
unfoldable pub is_ignored : Option (List String) → String → Bool
is_ignored none instrument = false
is_ignored (some active) instrument = not (mem instrument active)

-- `_handle_tick`
unfoldable pub handle_tick : AlertSettings → Option (List String) → PriceTick → ℕ → Alerts → Outcome
handle_tick s watched tick now a =
    if str_eq tick.instrument "" then returned a else elim tick.price [
      | absent ↦ returned a
      | malformed ↦ if is_ignored watched tick.instrument then returned a else raised a
      | number price ↦
          if is_ignored watched tick.instrument then returned a else watch_price s tick price now a
    ]

-- Ticks in the order of their arrival, each with the watchlist of its time; a fault stays in the
-- bus.
unfoldable pub run : AlertSettings → List (Option (List String) × PriceTick × ℕ) → Alerts → Alerts
run s [] a = a
run s ((watched, tick, now) ∷ ticks) a = run s ticks (state_of (handle_tick s watched tick now a))
