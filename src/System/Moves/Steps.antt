-- ===== src/System/Moves/Steps.antt =====
-- The handlers of portfolio/executor.py and risk/engine.py, the mode controller of core/mode.py and
-- whole runs of the desk as moves.

use afterhours.Prelude.{
  ℕ, String, Bool, true, false, if◌then◌else◌, not, ◌||◌, List, [], ◌∷◌, if_rule, str_eq, ltb,
}
use afterhours.Prelude.Dict.{contains}
use afterhours.Prelude.Texts.{mem}
use afterhours.Core.Mode.{AutonomyMode, observe, paper, assisted, semi_auto, supervised, level}
use afterhours.Core.Events.{Decision, Tick, Breach, mode_changed}
use afterhours.Portfolio.Ledger.{ok, err}
use afterhours.Portfolio.Orders.{Run, close_position, fill}
use afterhours.Portfolio.Queue.{sweep_expired}
use afterhours.Portfolio.Executor.{
  handle_mode_change, park, handle_approved, handle_stop, retried, retry_close, handle_tick,
  closed_or_deferred, close_or_defer, handle_thesis_invalidated, reconcile_orphans,
}
use afterhours.Desk.{Desk, Config}
use afterhours.System.Moves.{MayOpen, Moves, here, chain, requeued, deferred, after-Moves}
use afterhours.System.Moves.Executor.{
  close_position-Moves, fill-Moves, expire_pending-Moves, sweep_expired-Moves,
}

module _ (c : Config) (free : Bool) where
  pub handle_mode_change-Moves :
      (time : ℕ) (d : Desk) → Moves c free d (handle_mode_change c time d)
  unfolding handle_mode_change
  handle_mode_change-Moves time d =
      if_rule (Moves c free d) (ltb (level d.mode) (level assisted))
        (λ _. expire_pending-Moves c free mode_changed time d) (λ _. here d)

  pub handle_approved-Moves :
      (payload : Decision) (time : ℕ) (d : Desk)
      → MayOpen c d
      → Moves c free d (handle_approved c payload time d)
  unfolding handle_approved park
  handle_approved-Moves payload time d room = go d.mode
    where
      go :
          (mode : AutonomyMode)
          → Moves c free d (elim mode as (λ _. Desk) [
            | observe ↦ d
            | paper ↦ (fill c payload time d).1
            | assisted ↦ park payload time d
            | semi_auto ↦ d
            | supervised ↦ d
          ])
      go observe = here d
      go paper = fill-Moves c free payload time d room
      go assisted =
          if_rule (Moves c free d) (str_eq payload.id "") (λ _. here d) (λ _. requeued _ d)
      go semi_auto = here d
      go supervised = here d

  pub handle_stop-Moves :
      (b : Breach) (time : ℕ) (d : Desk) → Moves c free d (handle_stop c b time d)
  unfolding handle_stop
  handle_stop-Moves b time d =
      if_rule (Moves c free d) (str_eq b.instrument "") (λ _. here d)
        (λ _. close_position-Moves c free b.instrument time d)

  retried-Moves :
      {d : Desk} (instrument : String) (r : Run Bool)
      → Moves c free d r.1
      → Moves c free d (retried instrument r).1
  unfolding retried
  retried-Moves instrument (ok true, e) m = chain m (deferred _ e)
  retried-Moves instrument (ok false, e) m = m
  retried-Moves instrument (err _, e) m = m

  pub retry_close-Moves :
      (instrument : String) (time : ℕ) (d : Desk)
      → Moves c free d (retry_close c instrument time d).1
  unfolding retry_close
  retry_close-Moves instrument time d =
      if_rule (λ (r : Run (Unit {0})). Moves c free d r.1) (not (mem instrument d.close_pending))
        (λ _. here d)
        λ _.
          if_rule (λ (r : Run (Unit {0})). Moves c free d r.1)
            (not (contains instrument d.portfolio.positions)) (λ _. deferred _ d)
            λ _.
              retried-Moves instrument (close_position c instrument time d)
                (close_position-Moves c free instrument time d)

  pub handle_tick-Moves :
      (tick : Tick) (time : ℕ) (d : Desk) → Moves c free d (handle_tick c tick time d)
  unfolding handle_tick
  handle_tick-Moves tick time d =
      after-Moves (retry_close c tick.instrument time d) (λ e. sweep_expired c time e)
        (retry_close-Moves tick.instrument time d) (λ e. sweep_expired-Moves c free time e)

  closed_or_deferred-Moves :
      {d : Desk} (instrument : String) (r : Run Bool)
      → Moves c free d r.1
      → Moves c free d (closed_or_deferred instrument r).1
  unfolding closed_or_deferred
  closed_or_deferred-Moves instrument (ok true, e) m = chain m (deferred _ e)
  closed_or_deferred-Moves {d} instrument (ok false, e) m =
      if_rule (λ (r : Run (Unit {0})). Moves c free d r.1)
        (contains instrument e.portfolio.positions) (λ _. chain m (deferred _ e)) (λ _. m)
  closed_or_deferred-Moves instrument (err _, e) m = m

  pub close_or_defer-Moves :
      (instrument : String) (time : ℕ) (d : Desk)
      → Moves c free d (close_or_defer c instrument time d).1
  unfolding close_or_defer
  close_or_defer-Moves instrument time d =
      closed_or_deferred-Moves instrument (close_position c instrument time d)
        (close_position-Moves c free instrument time d)

  pub handle_thesis-Moves :
      (instrument : String) (time : ℕ) (d : Desk)
      → Moves c free d (handle_thesis_invalidated c instrument time d)
  unfolding handle_thesis_invalidated
  handle_thesis-Moves instrument time d =
      if_rule (Moves c free d)
        (str_eq instrument "" || not (contains instrument d.portfolio.positions)) (λ _. here d)
        (λ _. close_or_defer-Moves instrument time d)

  pub reconcile_orphans-Moves :
      (instruments : List String) (now : ℕ) (d : Desk)
      → Moves c free d (reconcile_orphans c instruments now d).1
  unfolding reconcile_orphans
  reconcile_orphans-Moves [] now d = here d
  reconcile_orphans-Moves (instrument ∷ instruments) now d =
      after-Moves
        (if contains instrument d.portfolio.positions
          then close_or_defer c instrument now d
          else (ok tt, d))
        (λ e. reconcile_orphans c instruments now e)
        (if_rule (λ (r : Run (Unit {0})). Moves c free d r.1)
          (contains instrument d.portfolio.positions) (λ _. close_or_defer-Moves instrument now d)
          (λ _. here d))
        (λ e. reconcile_orphans-Moves instruments now e)
