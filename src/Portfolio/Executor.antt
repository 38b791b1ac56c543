-- ===== src/Portfolio/Executor.antt =====
-- portfolio/executor.py, the handlers of the bus, and the closing of positions whose thesis is dead.
-- The bus drops what a handler raises: the state that it left stays.
use afterhours.Prelude.{
  ℕ, String, Bool, true, false, ◌||◌, not, List, [], ◌∷◌, str_eq, if◌then◌else◌, ltb,
}
use afterhours.Prelude.Dict.{contains, insert}
use afterhours.Prelude.Texts.{mem, include, discard}
use afterhours.Core.Mode.{observe, paper, assisted, semi_auto, supervised, level}
use afterhours.Core.Events.{Decision, Tick, Breach, mode_changed, halted}
use afterhours.Desk.{Desk, Config}
use afterhours.Portfolio.Ledger.{ok, err}
use afterhours.Portfolio.Orders.{Run, after, close_position, fill}
use afterhours.Portfolio.Queue.{expire_pending, sweep_expired}

-- `PaperExecutor._handle_mode_change`
unfoldable pub handle_mode_change : Config → ℕ → Desk → Desk
handle_mode_change c time d =
    if ltb (level d.mode) (level assisted) then (expire_pending c mode_changed time d).1 else d

-- `PaperExecutor._handle_halt`
unfoldable pub handle_halt : Config → String → ℕ → Desk → Desk
handle_halt c reason time d = (expire_pending c (halted reason) time d).1

-- Park an approval.
unfoldable pub park : Decision → ℕ → Desk → Desk
park payload time d = if str_eq payload.id "" then d else record d {
  pending = insert payload.id (record { approved_at = time; payload = payload }) d.pending;
}

-- `PaperExecutor._handle_approved`. The bus drops what `_fill` raises.
unfoldable pub handle_approved : Config → Decision → ℕ → Desk → Desk
handle_approved c payload time d = elim d.mode [
  | observe ↦ d
  | paper ↦ (fill c payload time d).1
  | assisted ↦ park payload time d
  | semi_auto ↦ d
  | supervised ↦ d
]

-- `PaperExecutor._handle_stop`
unfoldable pub handle_stop : Config → Breach → ℕ → Desk → Desk
handle_stop c breach time d =
    if str_eq breach.instrument "" then d else (close_position c breach.instrument time d).1

-- The close is no longer deferred.
abbrev pub undefer : String → Desk → Desk
undefer instrument d = record d { close_pending = discard instrument d.close_pending }

-- What the retry does with the answer of `close_position`.
unfoldable pub retried : String → Run Bool → Run (Unit {0})
retried instrument (err e, d) = (err e, d)
retried instrument (ok false, d) = (ok tt, d)
retried instrument (ok true, d) = (ok tt, undefer instrument d)

-- The retry of a deferred close in `_handle_tick`.
unfoldable pub retry_close : Config → String → ℕ → Desk → Run (Unit {0})
retry_close c instrument time d =
    if not (mem instrument d.close_pending)
    then (ok tt, d)
    else if not (contains instrument d.portfolio.positions)
    then (ok tt, undefer instrument d)
    else retried instrument (close_position c instrument time d)

-- `PaperExecutor._handle_tick`; a retry that raises ends the handler.
unfoldable pub handle_tick : Config → Tick → ℕ → Desk → Desk
handle_tick c tick time d =
    (after (retry_close c tick.instrument time d) (λ e. sweep_expired c time e)).1

-- What `_close_or_defer` does with the answer of `close_position`.
unfoldable pub closed_or_deferred : String → Run Bool → Run (Unit {0})
closed_or_deferred instrument (err e, d) = (err e, d)
closed_or_deferred instrument (ok true, d) = (ok tt, undefer instrument d)
closed_or_deferred instrument (ok false, d) =
    if contains instrument d.portfolio.positions
    then (ok tt, record d { close_pending = include instrument d.close_pending })
    else (ok tt, d)

-- `PaperExecutor._close_or_defer`
unfoldable pub close_or_defer : Config → String → ℕ → Desk → Run (Unit {0})
close_or_defer c instrument time d =
    closed_or_deferred instrument (close_position c instrument time d)

-- `PaperExecutor._handle_thesis_invalidated`
unfoldable pub handle_thesis_invalidated : Config → String → ℕ → Desk → Desk
handle_thesis_invalidated c instrument time d =
    if str_eq instrument "" || not (contains instrument d.portfolio.positions)
    then d
    else (close_or_defer c instrument time d).1

-- `PaperExecutor.reconcile_orphans`
unfoldable pub reconcile_orphans : Config → List String → ℕ → Desk → Run (Unit {0})
reconcile_orphans c [] now d = (ok tt, d)
reconcile_orphans c (instrument ∷ instruments) now d =
    after
      (if contains instrument d.portfolio.positions
        then close_or_defer c instrument now d
        else (ok tt, d))
      (λ e. reconcile_orphans c instruments now e)
