-- ===== src/System/Moves.antt =====
-- The moves that the desk is made of: every operation of portfolio/executor.py, risk/engine.py and
-- core/mode.py is a sequence of them.
pub mod Executor
pub mod Steps
pub mod Calls
pub mod Runs
use afterhours.Prelude.{
  ℕ, ◌<◌, String, ◌≡◌, ◌⊎◌, Bool, true, false, some, List, [], ◌∷◌, ◌++◌, length,
}
use afterhours.Prelude.Dict.{Dict}
use afterhours.Prelude.Texts.{mem}
use afterhours.Core.Mode.{AutonomyMode, observe, mode_eq}
use afterhours.Core.Events.{Order, Fill, Tick, Event, order_submitted, order_filled}
use afterhours.Portfolio.Ledger.Replay.{apply_tick}
use afterhours.Portfolio.Ledger.{ok, err}
use afterhours.Portfolio.Orders.{Run, after, remember}
use afterhours.Desk.{Desk, Parked, Config, tell, publish_filled}

-- An event that is neither an order nor a fill.
abbrev pub IsQuiet : Event → Type 0
IsQuiet (order_submitted _) = ⊥
IsQuiet (order_filled _) = ⊥
IsQuiet _ = Unit

-- The desk after an order was submitted.
abbrev pub ordered_desk : Order → ℕ → Desk → Desk
ordered_desk order time d = tell "paper_executor" time (order_submitted order) (remember order d)

-- The desk may open a position: it is not in OBSERVE mode, and below the limit of positions.
abbrev pub MayOpen : Config → Desk → Type 0
MayOpen c d =
    (mode_eq d.mode observe ≡ false)
    × (length d.portfolio.positions < c.risk_settings.max_open_positions)

-- A fill that closes, or one on a desk that may open.
abbrev pub IsBounded : Config → Fill → Desk → Type 0
IsBounded c f d = (f.action ≡ some "close") ⊎ MayOpen c d

-- Sequences of moves; only a `free` one may leave the OBSERVE mode.
pub data Moves (c : Config) (free : Bool) : Desk → Desk → Type 0 where
  here : (d : Desk) → Moves c free d d
  chain : {d e f : Desk} → Moves c free d e → Moves c free e f → Moves c free d f
  told :
      (source : String) (time : ℕ) (event : Event) (d : Desk)
      → IsQuiet event
      → Moves c free d (tell source time event d)
  marked :
      (tick : Tick) (d : Desk)
      → Moves c free d (record d { portfolio = apply_tick tick d.portfolio })
  remoded :
      (mode : AutonomyMode) (d : Desk)
      → (free ≡ true) ⊎ (mode ≡ observe)
      → Moves c free d (record d { mode = mode })
  requeued : (pending : Dict Parked) (d : Desk) → Moves c free d (record d { pending = pending })
  deferred : (texts : List String) (d : Desk) → Moves c free d (record d { close_pending = texts })
  -- A submission that raised: its key is remembered, and its order is not published.
  spent :
      (order : Order) (d : Desk)
      → mem order.client_order_id d.submitted_orders ≡ false
      → Moves c free d (remember order d)
  ordered :
      (order : Order) (time : ℕ) (d : Desk)
      → mem order.client_order_id d.submitted_orders ≡ false
      → Moves c free d (ordered_desk order time d)
  filled :
      (order : Order) (f : Fill) (time : ℕ) (d : Desk)
      → mem order.client_order_id d.submitted_orders ≡ false
      → f.client_order_id ≡ order.client_order_id
      → IsBounded c f d
      → Moves c free d (publish_filled c time f (ordered_desk order time d))

-- A call and what follows it.
pub after-Moves :
    {A B : Type 0} {c : Config} {free : Bool} {d : Desk} (r : Run A) (f : Desk → Run B)
    → Moves c free d r.1
    → ((e : Desk) → Moves c free e (f e).1)
    → Moves c free d (after r f).1
after-Moves (ok _, e) f m n = chain m (n e)
after-Moves (err _, e) f m n = m
