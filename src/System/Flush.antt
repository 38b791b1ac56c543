-- ===== src/System/Flush.antt =====
-- The kill switch of core/mode.py with the executor's handlers of its events.
use afterhours.Prelude.{
  ℕ, String, ◌≡◌, sym, ap, ◌∙◌, List, [], ◌∷◌, ◌++◌, map, append-nil, append_assoc, Bool-cases, inl,
  inr, if◌then◌else◌,
}
use afterhours.Prelude.Dict.{keys}
use afterhours.Core.Mode.{AutonomyMode, observe, mode_eq}
use afterhours.Core.Events.{Envelope, risk_halt, system_mode_changed, halted, mode_changed}
use afterhours.Desk.{Desk, Config, tell}
use afterhours.Portfolio.Queue.Stale.{expiry, announced, expire_pending_lem}
use afterhours.Portfolio.Executor.{handle_halt, handle_mode_change}
use afterhours.System.{halt, publish_mode_changed}

-- The events that the kill switch publishes, in their order.
abbrev pub halt_events : Config → String → String → ℕ → Desk → List Envelope
halt_events c reason actor now d =
    record { source = actor; event_time = now; event = risk_halt reason }
      ∷ map (expiry (halted reason) now) (announced c (keys d.pending))
    ++ (if mode_eq d.mode observe
        then []
        else record {
          source = actor;
          event_time = now;
          event = system_mode_changed d.mode observe reason;
        }
          ∷ [])

-- With nothing parked, the change to OBSERVE is published and does no more.
publish_mode_changed-observe :
    (c : Config) (previous : AutonomyMode) (actor reason : String) (now : ℕ) (d : Desk)
    → publish_mode_changed c previous observe actor reason now
        (record d { mode = observe; pending = [] })
      ≡ tell actor now
          (system_mode_changed previous observe reason)
          (record d { mode = observe; pending = [] })
unfolding publish_mode_changed handle_mode_change tell announced
publish_mode_changed-observe c previous actor reason now d =
    expire_pending_lem c mode_changed now _
    ∙ ap (λ l. record d { mode = observe; pending = []; log = l }) (append-nil _)

append-three :
    (log : List Envelope) (first : Envelope) (xs ys : List Envelope)
    → ((log ++ first ∷ []) ++ xs) ++ ys ≡ log ++ (first ∷ (xs ++ ys))
append-three log first xs ys =
    append_assoc (log ++ first ∷ []) xs ys ∙ append_assoc log (first ∷ []) (xs ++ ys)

-- The kill switch leaves the desk in OBSERVE mode with nothing parked; it publishes the halt, then
-- an expiry for each parked decision in their order, up to the first whose id no envelope can
-- carry, then the change of mode unless the mode was OBSERVE already. The book, the submitted keys and the deferred closes stay.
pub halt_lem :
    (c : Config) (reason actor : String) (now : ℕ) (d : Desk)
    → halt c reason actor now d
      ≡ record d { mode = observe; pending = []; log = d.log ++ halt_events c reason actor now d }
unfolding halt handle_halt tell
halt_lem c reason actor now d = rw expire_pending_lem (elim (Bool-cases (mode_eq d.mode observe)) [
  | inl e ↦ rw e (ap with_log (sym (append-nil _) ∙ append-three d.log _ _ []))
  | inr e ↦ rw e (
      publish_mode_changed-observe c d.mode actor reason now (with_log _)
      ∙ ap with_log (append-three d.log _ _ _))
])
  where
    with_log : List Envelope → Desk
    with_log l = record d { mode = observe; pending = []; log = l }
