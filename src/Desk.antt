-- ===== src/Desk.antt =====
-- The state that the components of one process share, and the bus between them. `Bus.publish`
-- awaits the store and then every handler, so a publication is a function on this state: it appends
-- the event to the log, and the handlers that react to it are called by the publisher's model.
use afterhours.Prelude.{ℕ, String, Bool, ◌||◌, List, [], ◌∷◌, ◌++◌, str_eq}
use afterhours.Prelude.Dict.{Dict}
use afterhours.Decimal.{Decimal}
use afterhours.Core.Mode.{AutonomyMode}
use afterhours.Core.Events.{Decision, Reason, Event, Envelope, Fill, order_filled}
use afterhours.Portfolio.Position.{PortfolioSettings}
use afterhours.Portfolio.Ledger.{Fault, Portfolio, new_portfolio, apply_fill}

-- `_ParkedDecision`
pub record Parked : Type 0 where
  pub approved_at : ℕ
  pub payload : Decision

pub record Desk : Type 0 where
  -- `ModeController._mode`
  pub mode : AutonomyMode
  pub portfolio : Portfolio
  -- `PaperExecutor._pending`, `_submitted_orders`, `_close_pending`
  pub pending : Dict Parked
  pub submitted_orders : List String
  pub close_pending : List String
  -- the events published since the start of the process, oldest first
  pub log : List Envelope

pub record RiskSettings : Type 0 where
  pub max_position_pct : Decimal
  pub max_trade_loss_pct : Decimal
  pub stop_loss_pct : Decimal
  pub cash_buffer_pct : Decimal
  pub min_trade_size_usd : Decimal
  pub max_open_positions : ℕ
  pub max_daily_loss_pct : Decimal

-- The settings, and what the program takes from outside: the New York calendar day of a time, the
-- comparison `float(x) >= y` of binary floating point, and the texts that `UUID` parses.
pub record Config : Type 0 where
  pub portfolio_settings : PortfolioSettings
  pub risk_settings : RiskSettings
  pub trading_day : ℕ → ℕ
  pub float_at_least : Decimal → Decimal → Bool
  pub is_uuid : String → Bool

-- `UUID(decision_id) if decision_id else None` returns; where it does not, it raises a ValueError.
unfoldable pub correlates : Config → String → Bool
correlates c decision_id = str_eq decision_id "" || c.is_uuid decision_id

-- The state at the start of a process: the mode is not persisted.
unfoldable pub new_desk : Config → Desk
new_desk c = record {
  mode = AutonomyMode.observe;
  portfolio = new_portfolio c.portfolio_settings.initial_cash;
  pending = [];
  submitted_orders = [];
  close_pending = [];
  log = [];
}

-- Publish an event that no component of the desk reacts to.
unfoldable pub tell : String → ℕ → Event → Desk → Desk
tell source time event d = record d {
  log = d.log ++ record { source = source; event_time = time; event = event } ∷ [];
}

-- Publish `order.filled`; the ledger's handler applies it.
unfoldable pub publish_filled : Config → ℕ → Fill → Desk → Desk
unfolding tell
publish_filled c time f d =
    let told = tell "paper_executor" time (order_filled f) d in
    record told { portfolio = apply_fill c.trading_day f time told.portfolio }

-- A pre-trade check: the payload to execute, or the reasons against it, or the exception.
pub data Verdict : Type 0 where
  passed : Decision → Verdict
  refused : List Reason → Verdict
  raised : Fault → Verdict
