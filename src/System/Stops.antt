-- ===== src/System/Stops.antt =====
-- A tick through the stop of a position: the ledger's mark, the risk engine's watch and the
-- executor's close, in one step.
use afterhours.Prelude.{
  ℕ, String, ◌≡◌, refl, ◌∙◌, Bool, true, false, Bool-cases, inl, inr, not, ◌&&◌, Option, none, some,
  List, [], ◌∷◌, str_eq, eq_refl, if_rule,
}
use afterhours.Prelude.Dict.{lookup, contains, lookup-adjust, lookup-insert_self}
use afterhours.Prelude.Texts.{mem}
use afterhours.Decimal.{Decimal, is_zero}
use afterhours.Core.Events.{Tick, number, closing}
use afterhours.Portfolio.Position.{Position}
use afterhours.Portfolio.Ledger.{Portfolio, mark, handle_tick, current_price}
use afterhours.Portfolio.Ledger.Replay.{apply_tick}
use afterhours.Portfolio.Orders.{Run, after, make_client_order_id, truthy, close_position}
use afterhours.Portfolio.Orders.Closing.{returns_true, lookup-close_position, lookup-closed}
use afterhours.Portfolio.Queue.{emit_expired, expire_each, sweep_expired}
use afterhours.Portfolio.Executor.{retried, retry_close, handle_stop}
use afterhours.Portfolio.Executor as Executor
use afterhours.Portfolio.Ledger.{ok, err}
use afterhours.Desk.{Desk, Config, correlates, tell}
use afterhours.Risk.Engine.{is_breached, breach_of, watch_tick}
use afterhours.System.{on_tick, publish_breach}

portfolio-expire_each :
    (c : Config) (ids : List String) (now : ℕ) (d : Desk)
    → (expire_each c ids now d).1.portfolio ≡ d.portfolio
unfolding expire_each emit_expired tell
portfolio-expire_each c [] now d = refl
portfolio-expire_each c (id ∷ ids) now d = elim (Bool-cases (correlates c id)) [
  | inl e ↦ rw e (portfolio-expire_each c ids now _)
  | inr e ↦ rw e refl
]

abbrev IsAbsent : String → Desk → Type 0
IsAbsent k d = lookup k d.portfolio.positions ≡ none

-- No close brings a position back.
close_position-IsAbsent :
    (c : Config) (k instrument : String) (now : ℕ) (d : Desk)
    → IsAbsent k d
    → IsAbsent k (close_position c instrument now d).1
close_position-IsAbsent c k instrument now d h =
    lookup-close_position c k instrument now d
    ∙ if_rule (λ (o : Option Position). o ≡ none)
        (str_eq instrument k && returns_true (close_position c instrument now d).0) (λ _. refl)
        (λ _. h)

-- The retry of a deferred close opens nothing.
retried-IsAbsent :
    (k instrument : String) (r : Run Bool) → IsAbsent k r.1 → IsAbsent k (retried instrument r).1
unfolding retried
retried-IsAbsent k instrument (ok true, d) h = h
retried-IsAbsent k instrument (ok false, d) h = h
retried-IsAbsent k instrument (err _, d) h = h

retry_close-IsAbsent :
    (c : Config) (k instrument : String) (time : ℕ) (d : Desk)
    → IsAbsent k d
    → IsAbsent k (retry_close c instrument time d).1
unfolding retry_close
retry_close-IsAbsent c k instrument time d h =
    if_rule (λ (r : Run (Unit {0})). IsAbsent k r.1) (not (mem instrument d.close_pending)) (λ _. h)
      λ _.
        if_rule (λ (r : Run (Unit {0})). IsAbsent k r.1)
          (not (contains instrument d.portfolio.positions)) (λ _. h)
          λ _.
            retried-IsAbsent k instrument (close_position c instrument time d)
              (close_position-IsAbsent c k instrument time d h)

-- The sweep of the queue leaves the book.
swept-IsAbsent :
    (c : Config) (k : String) (time : ℕ) (r : Run (Unit {0}))
    → IsAbsent k r.1
    → IsAbsent k (after r (λ e. sweep_expired c time e)).1
unfolding sweep_expired
swept-IsAbsent c k time (ok _, d) h = rw (portfolio-expire_each c) h
swept-IsAbsent c k time (err _, d) h = h

-- The executor's part of a tick opens nothing.
handle_tick-IsAbsent :
    (c : Config) (k : String) (tick : Tick) (time : ℕ) (d : Desk)
    → IsAbsent k d
    → IsAbsent k (Executor.handle_tick c tick time d)
unfolding Executor.handle_tick
handle_tick-IsAbsent c k tick time d h =
    swept-IsAbsent c k time (retry_close c tick.instrument time d)
      (retry_close-IsAbsent c k tick.instrument time d h)

-- The ledger after a tick at a price.
apply_tick-number :
    (instrument : String) (price : Decimal) (p : Portfolio)
    → str_eq instrument "" ≡ false
    → apply_tick (record { instrument = instrument; price = number price }) p
      ≡ mark instrument price p
unfolding apply_tick handle_tick
apply_tick-number instrument price p named = rw (apply_tick, handle_tick, named) refl

lookup-mark :
    (instrument : String) (price : Decimal) (pos : Position) (p : Portfolio)
    → lookup instrument p.positions ≡ some pos
    → lookup instrument (mark instrument price p).positions
      ≡ some (record pos { current_price = price })
unfolding mark
lookup-mark instrument price pos p held = rw (lookup-adjust, eq_refl instrument, held) refl

current_price-mark :
    (instrument : String) (price : Decimal) (p : Portfolio)
    → is_zero price ≡ false
    → truthy (current_price (mark instrument price p) instrument) ≡ some price
unfolding mark truthy
current_price-mark instrument price p nonzero = rw (lookup-insert_self, nonzero) refl

-- The watch on a marked book finds the breach, and the executor closes the position.
publish_breach-closes :
    (c : Config) (instrument : String) (price stop : Decimal) (pos : Position) (time : ℕ)
    → (d : Desk) → str_eq instrument "" ≡ false
    → truthy (current_price d.portfolio instrument) ≡ some price
    → lookup instrument d.portfolio.positions ≡ some pos
    → truthy pos.stop_price ≡ some stop
    → is_breached pos.side price stop ≡ true
    → mem (make_client_order_id pos.decision_id closing) d.submitted_orders ≡ false
    → correlates c pos.decision_id ≡ true
    → IsAbsent instrument (
        publish_breach c
          (watch_tick (record { instrument = instrument; price = number price }) d.portfolio)
          time
          d)
unfolding publish_breach watch_tick breach_of handle_stop tell
publish_breach-closes c instrument price stop pos time d named priced held armed breached new u =
    rw (named, held, breach_of, armed, breached, handle_stop, named)
      (lookup-closed c instrument pos price time _ held priced new u)

-- A tick that reaches the stop of a position closes it in the same step, whatever the mode: the
-- instrument is named, the price is not zero, the position has a stop that the price has reached,
-- its close was not submitted before, and the id of its decision is empty or a UUID.
pub on_tick-breached :
    (c : Config) (instrument : String) (price stop : Decimal) (pos : Position) (time : ℕ)
    → (d : Desk) → str_eq instrument "" ≡ false
    → is_zero price ≡ false
    → lookup instrument d.portfolio.positions ≡ some pos
    → truthy pos.stop_price ≡ some stop
    → is_breached pos.side price stop ≡ true
    → mem (make_client_order_id pos.decision_id closing) d.submitted_orders ≡ false
    → correlates c pos.decision_id ≡ true
    → let e = on_tick c (record { instrument = instrument; price = number price }) time d in
      lookup instrument e.portfolio.positions ≡ none
unfolding on_tick
on_tick-breached c instrument price stop pos time d named nonzero held armed breached new u =
    handle_tick-IsAbsent c instrument _ time _ (
      rw (apply_tick-number instrument price d.portfolio named) (
        publish_breach-closes c instrument price stop (record pos { current_price = price }) time
          (record d { portfolio = mark instrument price d.portfolio }) named
          (current_price-mark instrument price d.portfolio nonzero)
          (lookup-mark instrument price pos d.portfolio held) armed breached new u))
