-- ===== src/Core/Events.antt =====
-- core/schemas/: what travels on the bus. A payload is a record with the keys that the handlers
-- read. An `Option` is a key that may be missing; for a text whose default is "", a missing key is
-- the empty text. Event ids and ingest times, which no decision here reads, are left out.
use afterhours.Prelude.{ℕ, String, Option, none, some, List, str_eq, if◌then◌else◌}
use afterhours.Decimal.{Decimal}
use afterhours.Core.Mode.{AutonomyMode}

pub data Side : Type 0 where
  long short : Side

abbrev pub side_value : Side → String
side_value long = "long"
side_value short = "short"

-- `Side(text)`; `none` is the ValueError.
abbrev pub parse_side : String → Option Side
parse_side s = if str_eq s "long" then some long else if str_eq s "short" then some short else none

-- A payload's number: missing (or empty), a text that is no number, or a number.
pub data Raw : Type 0 where
  absent malformed : Raw
  number : Decimal → Raw

pub data RiskVerdict : Type 0 where
  approved rejected modified : RiskVerdict

pub data DecisionStatus : Type 0 where
  proposed approved rejected expired executing executed failed : DecisionStatus

-- The reasons that the risk engine gives for a rejection.
pub data Reason : Type 0 where
  observe_mode daily_loss_limit insufficient_capital no_stop_price : Reason
  max_open_positions : ℕ → Reason
  position_exists : String → Reason
  insufficient_cash : Decimal → Reason

pub record RiskAssessment : Type 0 where
  pub max_loss_pct : Decimal
  pub stop_price : Option Decimal
  pub risk_engine_verdict : RiskVerdict
  pub rejection_reasons : List Reason

pub record Proposal : Type 0 where
  pub instrument : String
  pub side : Option String
  pub size_usd : Raw
  pub time_horizon : String

-- `HumanAction`, as the operator's rejection fills it in.
pub record HumanAction : Type 0 where
  pub actor : String
  pub note : Option String
  pub ts : ℕ

-- The payload of the events of a decision's life.
pub record Decision : Type 0 where
  pub id : String
  pub originating_thesis_id : String
  pub confidence : Decimal
  pub proposal : Proposal
  pub risk : Option RiskAssessment
  pub status : DecisionStatus
  pub human : Option HumanAction

pub data Intent : Type 0 where
  opening closing : Intent

pub record Order : Type 0 where
  pub client_order_id : String
  pub decision_id : String
  pub instrument : String
  pub side : Side
  pub intent : Intent
  pub size_usd : Decimal
  pub created_at : ℕ

-- The payload of `order.filled`.
pub record Fill : Type 0 where
  pub instrument : String
  pub action : Option String
  pub side : Option String
  pub client_order_id : String
  pub fill_price : Raw
  pub quantity : Raw
  pub cost_usd : Raw
  pub fee : Raw
  pub stop_price : Raw
  pub decision_id : String

pub record Tick : Type 0 where
  pub instrument : String
  pub price : Raw

pub record Breach : Type 0 where
  pub instrument : String
  pub reason : String
  pub trigger_price : Decimal
  pub stop_price : Decimal
  pub decision_id : String

-- Why a parked decision expired.
pub data Expiry : Type 0 where
  ttl_expired ttl_expired_on_restart mode_changed shutdown : Expiry
  halted : String → Expiry
  revalidation_failed : List Reason → Expiry

pub data Event : Type 0 where
  market_tick : Tick → Event
  decision_proposed decision_approved decision_rejected : Decision → Event
  decision_expired : String → Expiry → Event
  order_submitted : Order → Event
  order_filled : Fill → Event
  risk_limit_breached : Breach → Event
  risk_halt : String → Event
  system_mode_changed : AutonomyMode → AutonomyMode → String → Event
  thesis_invalidated : String → String → Event

-- `EventEnvelope`
pub record Envelope : Type 0 where
  pub source : String
  pub event_time : ℕ
  pub event : Event

-- The topic of an event: the registry `EventType`.
abbrev pub event_type : Event → String
event_type (market_tick _) = "market.tick"
event_type (decision_proposed _) = "decision.proposed"
event_type (decision_approved _) = "decision.approved"
event_type (decision_rejected _) = "decision.rejected"
event_type (decision_expired _ _) = "decision.expired"
event_type (order_submitted _) = "order.submitted"
event_type (order_filled _) = "order.filled"
event_type (risk_limit_breached _) = "risk.limit_breached"
event_type (risk_halt _) = "risk.halt"
event_type (system_mode_changed _ _ _) = "system.mode_changed"
event_type (thesis_invalidated _ _) = "thesis.invalidated"
