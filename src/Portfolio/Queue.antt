-- ===== src/Portfolio/Queue.antt =====
-- portfolio/executor.py, the queue of parked approvals: execution and rejection by the operator,
-- expiry, and the restoration of the queue at a restart. Where the source reads the wall clock the
-- method takes `now`.
pub mod Stale
use afterhours.Prelude.{
  ℕ, ◌+◌, ◌*◌, String, Bool, true, false, ◌||◌, Option, none, some, List, [], ◌∷◌, str_eq, ltb, leb,
  if◌then◌else◌,
}
use afterhours.Prelude.Dict.{Dict, lookup, insert, erase, contains, keys}
use afterhours.Prelude.Texts.{mem}
use afterhours.Core.Mode.{assisted, level}
use afterhours.Core.Events.{
  DecisionStatus, Decision, Expiry, ttl_expired, ttl_expired_on_restart, shutdown,
  revalidation_failed, decision_expired, decision_rejected,
}
use afterhours.Portfolio.Ledger.{value_error, halted_error, stale_decision, ok, err}
use afterhours.Desk.{Desk, Parked, Config, Verdict, passed, refused, raised, correlates, tell}
use afterhours.Portfolio.Orders.{Run, after, fill}

-- `PaperExecutor._emit_expired`; the correlation id may raise.
unfoldable pub emit_expired : Config → String → Expiry → ℕ → Desk → Run (Unit {0})
emit_expired c decision_id reason now d =
    if correlates c decision_id
    then (ok tt, tell "paper_executor" now (decision_expired decision_id reason) d)
    else (err value_error, d)

-- `PaperExecutor._is_expired`
unfoldable pub is_expired : Config → Parked → ℕ → Bool
is_expired c parked now =
    leb (parked.approved_at + c.portfolio_settings.pending_ttl_seconds * 1_000_000) now

-- A pre-trade check that `execute` runs again, such as `RiskEngine.evaluate`.
abbrev pub Validator : Type 0
Validator = Decision → ℕ → Desk → Verdict

-- The execution of a payload by the operator: a fault of `_fill` reaches the caller.
unfoldable pub execute_payload : Config → Decision → ℕ → Desk → Run Bool
execute_payload c payload now d =
    let (r, d') = fill c payload now d in elim r [ ok _ ↦ (ok true, d') | err e ↦ (err e, d') ]

-- `execute` for a decision that is parked, `d` no longer holding it.
unfoldable pub execute_parked : Config → Option Validator → String → Parked → ℕ → Desk → Run Bool
execute_parked c validator decision_id parked now d =
    if is_expired c parked now
    then after (emit_expired c decision_id ttl_expired now d) (λ e. (err stale_decision, e))
    else elim validator [
      | none ↦ execute_payload c parked.payload now d
      | some check ↦ elim (check parked.payload now d) [
        | raised e ↦ (err e, d)
        | refused reasons ↦
            after (emit_expired c decision_id (revalidation_failed reasons) now d)
              (λ e. (err stale_decision, e))
        | passed refreshed ↦ execute_payload c refreshed now d
      ]
    ]

-- `PaperExecutor.execute`
unfoldable pub execute : Config → Option Validator → String → ℕ → Desk → Run Bool
execute c validator decision_id now d =
    if ltb (level d.mode) (level assisted)
    then (err halted_error, d)
    else elim (lookup decision_id d.pending) [
      | none ↦ (ok false, d)
      | some parked ↦
          execute_parked c validator decision_id parked now
            (record d { pending = erase decision_id d.pending })
    ]

-- The payload of an operator's rejection.
unfoldable pub rejected_by : Decision → String → String → ℕ → Decision
rejected_by payload reason actor now = record payload {
  status = DecisionStatus.rejected;
  human =
      some
        (record { actor = actor; note = if str_eq reason "" then none else some reason; ts = now });
}

-- `PaperExecutor.reject`
unfoldable pub reject : Config → String → String → String → ℕ → Desk → Run Bool
reject c decision_id reason actor now d = elim (lookup decision_id d.pending) [
  | none ↦ (ok false, d)
  | some parked ↦
      let popped = record d { pending = erase decision_id d.pending } in
      if correlates c decision_id
      then (
        ok true,
        tell "operator" now (decision_rejected (rejected_by parked.payload reason actor now))
            popped,
      )
      else (err value_error, popped)
]

-- One round of the loop of `rehydrate_pending`.
unfoldable pub repark : Config → List String → ℕ → Decision × ℕ → Desk → Run (Unit {0})
repark c terminal_ids now (payload, approved_at) d =
    let parked : Parked = record { approved_at = approved_at; payload = payload } in
    if str_eq payload.id "" || mem payload.id terminal_ids || contains payload.id d.pending
    then (ok tt, d)
    else if is_expired c parked now
    then emit_expired c payload.id ttl_expired_on_restart now d
    else (ok tt, record d { pending = insert payload.id parked d.pending })

-- `PaperExecutor.rehydrate_pending`, on the approvals with their event times
unfoldable pub rehydrate_pending :
    Config → List (Decision × ℕ) → List String → ℕ → Desk → Run (Unit {0})
rehydrate_pending c [] terminal_ids now d = (ok tt, d)
rehydrate_pending c (approval ∷ approvals) terminal_ids now d =
    after (repark c terminal_ids now approval d)
      (λ e. rehydrate_pending c approvals terminal_ids now e)

-- An audited expiry for each of the decisions.
unfoldable pub emit_each : Config → List String → Expiry → ℕ → Desk → Run (Unit {0})
emit_each c [] reason now d = (ok tt, d)
emit_each c (id ∷ ids) reason now d =
    after (emit_expired c id reason now d) (λ e. emit_each c ids reason now e)

-- `PaperExecutor._expire_pending`
unfoldable pub expire_pending : Config → Expiry → ℕ → Desk → Run (Unit {0})
expire_pending c reason now d = emit_each c (keys d.pending) reason now (record d { pending = [] })

-- The decisions that the sweep finds stale.
unfoldable pub stale_ids : Config → ℕ → Dict Parked → List String
stale_ids c now [] = []
stale_ids c now ((id, parked) ∷ rest) =
    let ids = stale_ids c now rest in if is_expired c parked now then id ∷ ids else ids

-- The loop of the sweep.
unfoldable pub expire_each : Config → List String → ℕ → Desk → Run (Unit {0})
expire_each c [] now d = (ok tt, d)
expire_each c (id ∷ ids) now d =
    after (emit_expired c id ttl_expired now (record d { pending = erase id d.pending }))
      (λ e. expire_each c ids now e)

-- `PaperExecutor._sweep_expired`
unfoldable pub sweep_expired : Config → ℕ → Desk → Run (Unit {0})
sweep_expired c now d = expire_each c (stale_ids c now d.pending) now d

-- `PaperExecutor.stop`
unfoldable pub stop : Config → ℕ → Desk → Run (Unit {0})
stop c now d = expire_pending c shutdown now d
