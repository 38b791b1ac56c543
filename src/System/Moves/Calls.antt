-- ===== src/System/Moves/Calls.antt =====
-- The calls of the operator, and the restoration of the queue, as moves of the desk.
use afterhours.Prelude.{
  ℕ, String, ◌≡◌, refl, Bool, ◌||◌, some, List, [], ◌∷◌, if_rule, option_rule, str_eq, ltb,
}
use afterhours.Prelude.Dict.{lookup, erase, contains}
use afterhours.Prelude.Texts.{mem}
use afterhours.Core.Mode.{assisted, level}
use afterhours.Core.Events.{Decision, ttl_expired, ttl_expired_on_restart, revalidation_failed}
use afterhours.Portfolio.Ledger.{ok, err, stale_decision}
use afterhours.Portfolio.Orders.{Run, after, fill}
use afterhours.Portfolio.Queue.{
  emit_expired, is_expired, execute_payload, execute_parked, execute, reject, repark,
  rehydrate_pending,
}
use afterhours.Risk.Engine.{evaluate}
use afterhours.Risk.Engine.Gate.{IsCleared, evaluate-passed}
use afterhours.Desk.{Desk, Parked, Config, Verdict, passed, refused, raised, correlates}
use afterhours.System.Moves.{MayOpen, Moves, here, chain, told, requeued, after-Moves}
use afterhours.System.Moves.Executor.{fill-Moves, emit_expired-Moves}

module _ (c : Config) (free : Bool) where
  execute_payload-Moves :
      (payload : Decision) (now : ℕ) (d : Desk)
      → MayOpen c d
      → Moves c free d (execute_payload c payload now d).1
  unfolding execute_payload
  execute_payload-Moves payload now d room =
      go (fill c payload now d) (fill-Moves c free payload now d room)
    where
      go :
          (r : Run (Unit {0}))
          → Moves c free d r.1
          → Moves c free d
              (elim r.0 as (λ _. Run Bool) [ ok _ ↦ (ok Bool.true, r.1) | err e ↦ (err e, r.1) ]).1
      go (ok _, d') m = m
      go (err _, d') m = m

  execute_parked-Moves :
      (decision_id : String) (parked : Parked) (now : ℕ) (d : Desk)
      → Moves c free d (execute_parked c (some (evaluate c)) decision_id parked now d).1
  unfolding execute_parked
  execute_parked-Moves decision_id parked now d =
      if_rule (λ (r : Run Bool). Moves c free d r.1) (is_expired c parked now)
        (λ _.
          after-Moves (emit_expired c decision_id ttl_expired now d) (λ e. (err stale_decision, e))
            (emit_expired-Moves c free decision_id ttl_expired now d) (λ e. here e))
        (λ _.
          go (evaluate c parked.payload now d) (λ q. (evaluate-passed c parked.payload now d q).0))
    where
      go :
          (v : Verdict)
          → ((q : Decision) → v ≡ passed q → IsCleared c parked.payload now d q)
          → Moves c free d
              (elim v as (λ _. Run Bool) [
                | raised e ↦ (err e, d)
                | refused reasons ↦
                    after
                      (emit_expired c decision_id (revalidation_failed reasons) now d)
                      (λ e. (err stale_decision, e))
                | passed refreshed ↦ execute_payload c refreshed now d
              ]).1
      go (raised e) _ = here d
      go (refused reasons) _ =
          after-Moves (emit_expired c decision_id (revalidation_failed reasons) now d)
            (λ e. (err stale_decision, e))
            (emit_expired-Moves c free decision_id (revalidation_failed reasons) now d)
            (λ e. here e)
      go (passed q) cleared =
          execute_payload-Moves q now d ((cleared q refl).armed, (cleared q refl).room)

  pub execute-Moves :
      (decision_id : String) (now : ℕ) (d : Desk)
      → Moves c free d (execute c (some (evaluate c)) decision_id now d).1
  unfolding execute
  execute-Moves decision_id now d =
      if_rule (λ (r : Run Bool). Moves c free d r.1) (ltb (level d.mode) (level assisted))
        (λ _. here d)
        λ _.
          option_rule (λ (r : Run Bool). Moves c free d r.1) (lookup decision_id d.pending)
            (λ _. here d)
            λ parked _. chain (requeued (erase decision_id d.pending) d) (
              execute_parked-Moves decision_id parked now
                (record d { pending = erase decision_id d.pending }))

  pub reject-Moves :
      (decision_id reason actor : String) (now : ℕ) (d : Desk)
      → Moves c free d (reject c decision_id reason actor now d).1
  unfolding reject
  reject-Moves decision_id reason actor now d =
      option_rule (λ (r : Run Bool). Moves c free d r.1) (lookup decision_id d.pending)
        (λ _. here d)
        λ parked _.
          let popped = requeued (erase decision_id d.pending) d in
          if_rule (λ (r : Run Bool). Moves c free d r.1) (correlates c decision_id)
            (λ _.
              chain popped
                (told "operator" now _ (record d { pending = erase decision_id d.pending }) tt))
            (λ _. popped)

  repark-Moves :
      (terminal_ids : List String) (now : ℕ) (approval : Decision × ℕ) (d : Desk)
      → Moves c free d (repark c terminal_ids now approval d).1
  unfolding repark
  repark-Moves terminal_ids now (payload, approved_at) d =
      if_rule (λ (r : Run (Unit {0})). Moves c free d r.1)
        (str_eq payload.id "" || mem payload.id terminal_ids || contains payload.id d.pending)
        (λ _. here d)
        λ _.
          if_rule (λ (r : Run (Unit {0})). Moves c free d r.1)
            (is_expired c (record { approved_at = approved_at; payload = payload }) now)
            (λ _. emit_expired-Moves c free payload.id ttl_expired_on_restart now d)
            (λ _. requeued _ d)

  pub rehydrate_pending-Moves :
      (approvals : List (Decision × ℕ)) (terminal_ids : List String) (now : ℕ) (d : Desk)
      → Moves c free d (rehydrate_pending c approvals terminal_ids now d).1
  unfolding rehydrate_pending
  rehydrate_pending-Moves [] terminal_ids now d = here d
  rehydrate_pending-Moves (approval ∷ approvals) terminal_ids now d =
      after-Moves (repark c terminal_ids now approval d)
        (λ e. rehydrate_pending c approvals terminal_ids now e)
        (repark-Moves terminal_ids now approval d)
        (λ e. rehydrate_pending-Moves approvals terminal_ids now e)
