-- ===== src/System.antt =====
-- The wiring of the desk: `ModeController` of core/mode.py, the publishing handlers of
-- risk/engine.py, and what each event and each call of the operator sets off. The handlers of one
-- event run one after the other, in the order in which gateway/app.py starts their components:
-- portfolio, risk engine, executor.
pub mod Moves
pub mod Capped
pub mod Idempotent
pub mod Recovery
pub mod KillSwitch
pub mod Stops
pub mod Flush
use afterhours.Prelude.{
  ℕ, String, Bool, true, false, not, Option, none, some, List, [], ◌∷◌, if◌then◌else◌,
}
use afterhours.Core.Mode.{AutonomyMode, observe, mode_eq, can_transition}
use afterhours.Core.Events.{
  Decision, Reason, Tick, Breach, Event, market_tick, decision_proposed, decision_approved,
  decision_rejected, risk_limit_breached, risk_halt, system_mode_changed, thesis_invalidated,
}
use afterhours.Portfolio.Ledger.Replay.{apply_tick}
use afterhours.Portfolio.Orders.{close_position}
use afterhours.Portfolio.Queue.{execute, reject, rehydrate_pending, stop}
use afterhours.Portfolio.Executor.{
  handle_mode_change, handle_halt, handle_approved, handle_stop, handle_tick,
  handle_thesis_invalidated, reconcile_orphans,
}
use afterhours.Risk.Engine.{evaluate, rejected_payload, watch_tick}
use afterhours.Desk.{Desk, Config, Verdict, passed, refused, raised, correlates, tell}

-- `ModeController._publish_mode_changed`, and the handler of the executor
unfoldable pub publish_mode_changed :
    Config → AutonomyMode → AutonomyMode → String → String → ℕ → Desk → Desk
publish_mode_changed c previous to actor reason now d =
    handle_mode_change c now (tell actor now (system_mode_changed previous to reason) d)

pub data Transition : Type 0 where
  kept changed invalid : Transition

-- `ModeController.set`; `invalid` is the exception `InvalidModeTransition`.
unfoldable pub set_mode : Config → AutonomyMode → String → String → ℕ → Desk → Transition × Desk
set_mode c to actor reason now d =
    if mode_eq to d.mode
    then (kept, d)
    else if not (can_transition d.mode to)
    then (invalid, d)
    else (changed, publish_mode_changed c d.mode to actor reason now (record d { mode = to }))

-- `ModeController.halt`
unfoldable pub halt : Config → String → String → ℕ → Desk → Desk
halt c reason actor now d =
    let halted = record d { mode = observe } in
    let flushed = handle_halt c reason now (tell actor now (risk_halt reason) halted) in
    if mode_eq d.mode observe
    then flushed
    else publish_mode_changed c d.mode observe actor reason now flushed

-- `RiskEngine._handle_proposed` and `RiskEngine._reject`; a correlation id that raises leaves the
-- decision without an answer.
unfoldable pub handle_proposed : Config → Decision → ℕ → Desk → Desk
handle_proposed c payload time d = elim (evaluate c payload time d) [
  | raised _ ↦ d
  | refused reasons ↦
      if correlates c payload.id
      then tell "risk_engine" time (decision_rejected (rejected_payload payload reasons)) d
      else d
  | passed approved ↦
      if correlates c payload.id
      then handle_approved c approved time (tell "risk_engine" time (decision_approved approved) d)
      else d
]

-- The publication in `RiskEngine._handle_tick`, and the handler of the executor
unfoldable pub publish_breach : Config → Option Breach → ℕ → Desk → Desk
publish_breach c none time d = d
publish_breach c (some b) time d =
    handle_stop c b time (tell "risk_engine" time (risk_limit_breached b) d)

-- The handlers of `market.tick`: the ledger's, the risk engine's, the executor's.
unfoldable pub on_tick : Config → Tick → ℕ → Desk → Desk
on_tick c tick time d =
    let marked = record d { portfolio = apply_tick tick d.portfolio } in
    handle_tick c tick time (publish_breach c (watch_tick tick marked.portfolio) time marked)

-- What can happen to the desk: an event from the components around it, a call by the operator, or
-- a step of its start or its shutdown.
pub data Happening : Type 0 where
  proposed : String → Decision → ℕ → Happening
  ticked : String → Tick → ℕ → Happening
  thesis_died : String → String → String → ℕ → Happening
  operator_set_mode : AutonomyMode → String → String → ℕ → Happening
  operator_halt : String → String → ℕ → Happening
  operator_execute : String → ℕ → Happening
  operator_reject : String → String → String → ℕ → Happening
  operator_close : String → ℕ → Happening
  restored : List (Decision × ℕ) → List String → ℕ → Happening
  reconciled : List String → ℕ → Happening
  stopped : ℕ → Happening

unfoldable pub step : Config → Happening → Desk → Desk
step c (proposed source payload time) d =
    handle_proposed c payload time (tell source time (decision_proposed payload) d)
step c (ticked source tick time) d = on_tick c tick time (tell source time (market_tick tick) d)
step c (thesis_died source thesis_id instrument time) d =
    handle_thesis_invalidated c instrument time
      (tell source time (thesis_invalidated thesis_id instrument) d)
step c (operator_set_mode to actor reason now) d = (set_mode c to actor reason now d).1
step c (operator_halt reason actor now) d = halt c reason actor now d
step c (operator_execute decision_id now) d = (execute c (some (evaluate c)) decision_id now d).1
step c (operator_reject decision_id reason actor now) d =
    (reject c decision_id reason actor now d).1
step c (operator_close instrument now) d = (close_position c instrument now d).1
step c (restored approvals terminal_ids now) d =
    (rehydrate_pending c approvals terminal_ids now d).1
step c (reconciled instruments now) d = (reconcile_orphans c instruments now d).1
step c (stopped now) d = (stop c now d).1

unfoldable pub run : Config → List Happening → Desk → Desk
run c [] d = d
run c (h ∷ hs) d = run c hs (step c h d)
