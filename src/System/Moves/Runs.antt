-- ===== src/System/Moves/Runs.antt =====
-- The mode controller, the pre-trade pipeline and whole runs of the desk as moves.
use afterhours.Prelude.{
  ℕ, String, ◌≡◌, refl, Bool, true, not, inl, inr, All, Option, none, some, List, [], ◌∷◌, if_rule,
  if◌then◌else◌,
}
use afterhours.Core.Mode.{AutonomyMode, observe, mode_eq, can_transition}
use afterhours.Core.Events.{
  Decision, Tick, Breach, decision_rejected, decision_approved, decision_proposed, market_tick,
  thesis_invalidated, system_mode_changed, risk_halt, risk_limit_breached, halted, shutdown,
}
use afterhours.Portfolio.Queue.{stop}
use afterhours.Portfolio.Executor.{handle_halt, handle_approved}
use afterhours.Risk.Engine.{evaluate, rejected_payload}
use afterhours.Risk.Engine.Gate.{IsCleared, evaluate-passed}
use afterhours.Desk.{Desk, Config, Verdict, passed, refused, raised, correlates, tell}
use afterhours.System.{
  publish_mode_changed, Transition, set_mode, halt, handle_proposed, publish_breach, on_tick,
  Happening, proposed, ticked, thesis_died, operator_set_mode, operator_halt, operator_execute,
  operator_reject, operator_close, restored, reconciled, stopped, step, run,
}
use afterhours.System.Moves.{Moves, here, chain, told, marked, remoded}
use afterhours.System.Moves.Executor.{close_position-Moves, expire_pending-Moves}
use afterhours.System.Moves.Steps.{
  handle_mode_change-Moves, handle_approved-Moves, handle_stop-Moves, handle_tick-Moves,
  handle_thesis-Moves, reconcile_orphans-Moves,
}
use afterhours.System.Moves.Calls.{execute-Moves, reject-Moves, rehydrate_pending-Moves}

-- A change of the mode by the operator needs a free sequence.
abbrev pub IsAllowed : Bool → Happening → Type 0
IsAllowed free (operator_set_mode _ _ _ _) = free ≡ true
IsAllowed free _ = Unit

module _ (c : Config) (free : Bool) where
  publish_mode_changed-Moves :
      (previous to : AutonomyMode) (actor reason : String) (now : ℕ) (d : Desk)
      → Moves c free d (publish_mode_changed c previous to actor reason now d)
  unfolding publish_mode_changed
  publish_mode_changed-Moves previous to actor reason now d =
      chain (told actor now (system_mode_changed previous to reason) d tt)
        (handle_mode_change-Moves c free now _)

  set_mode-Moves :
      free ≡ true
      → (to : AutonomyMode) (actor reason : String) (now : ℕ) (d : Desk)
      → Moves c free d (set_mode c to actor reason now d).1
  unfolding set_mode
  set_mode-Moves allowed to actor reason now d =
      if_rule (λ (r : Transition × Desk). Moves c free d r.1) (mode_eq to d.mode) (λ _. here d)
        λ _.
          if_rule (λ (r : Transition × Desk). Moves c free d r.1) (not (can_transition d.mode to))
            (λ _. here d)
            λ _.
              chain (remoded to d (inl allowed))
                (publish_mode_changed-Moves d.mode to actor reason now (record d { mode = to }))

  halt-Moves :
      (reason actor : String) (now : ℕ) (d : Desk) → Moves c free d (halt c reason actor now d)
  unfolding halt handle_halt
  halt-Moves reason actor now d =
      let flushed = chain (remoded observe d (inr refl)) (
        chain (told actor now (risk_halt reason) (record d { mode = observe }) tt)
          (expire_pending-Moves c free (halted reason) now _)) in
      if_rule (Moves c free d) (mode_eq d.mode observe) (λ _. flushed)
        (λ _. chain flushed (publish_mode_changed-Moves d.mode observe actor reason now _))

  handle_proposed-Moves :
      (payload : Decision) (time : ℕ) (d : Desk) → Moves c free d (handle_proposed c payload time d)
  unfolding handle_proposed
  handle_proposed-Moves payload time d =
      go (evaluate c payload time d) (λ q. (evaluate-passed c payload time d q).0)
    where
      go :
          (v : Verdict)
          → ((q : Decision) → v ≡ passed q → IsCleared c payload time d q)
          → Moves c free d (elim v as (λ _. Desk) [
            | raised _ ↦ d
            | refused reasons ↦
                if correlates c payload.id
                then tell "risk_engine" time
                    (decision_rejected (rejected_payload payload reasons))
                    d
                else d
            | passed approved ↦
                if correlates c payload.id
                then handle_approved c approved time
                    (tell "risk_engine" time (decision_approved approved) d)
                else d
          ])
      go (raised _) _ = here d
      go (refused reasons) _ =
          if_rule (Moves c free d) (correlates c payload.id) (λ _. told "risk_engine" time _ d tt)
            (λ _. here d)
      go (passed q) cleared =
          if_rule (Moves c free d) (correlates c payload.id)
            (λ _. chain (told "risk_engine" time (decision_approved q) d tt) (
              handle_approved-Moves c free q time (tell "risk_engine" time (decision_approved q) d)
                (unfold tell in ((cleared q refl).armed, (cleared q refl).room))))
            (λ _. here d)

  publish_breach-Moves :
      (b : Option Breach) (time : ℕ) (d : Desk) → Moves c free d (publish_breach c b time d)
  unfolding publish_breach
  publish_breach-Moves none time d = here d
  publish_breach-Moves (some b) time d =
      chain (told "risk_engine" time (risk_limit_breached b) d tt)
        (handle_stop-Moves c free b time _)

  on_tick-Moves : (tick : Tick) (time : ℕ) (d : Desk) → Moves c free d (on_tick c tick time d)
  unfolding on_tick
  on_tick-Moves tick time d =
      chain (marked tick d)
        (chain (publish_breach-Moves _ time _) (handle_tick-Moves c free tick time _))

  step-Moves : (h : Happening) (d : Desk) → IsAllowed free h → Moves c free d (step c h d)
  unfolding step stop
  step-Moves (proposed source payload time) d allowed =
      chain (told source time (decision_proposed payload) d tt)
        (handle_proposed-Moves payload time _)
  step-Moves (ticked source tick time) d allowed =
      chain (told source time (market_tick tick) d tt) (on_tick-Moves tick time _)
  step-Moves (thesis_died source thesis_id instrument time) d allowed =
      chain (told source time (thesis_invalidated thesis_id instrument) d tt)
        (handle_thesis-Moves c free instrument time _)
  step-Moves (operator_set_mode to actor reason now) d allowed =
      set_mode-Moves allowed to actor reason now d
  step-Moves (operator_halt reason actor now) d allowed = halt-Moves reason actor now d
  step-Moves (operator_execute decision_id now) d allowed = execute-Moves c free decision_id now d
  step-Moves (operator_reject decision_id reason actor now) d allowed =
      reject-Moves c free decision_id reason actor now d
  step-Moves (operator_close instrument now) d allowed =
      close_position-Moves c free instrument now d
  step-Moves (restored approvals terminal_ids now) d allowed =
      rehydrate_pending-Moves c free approvals terminal_ids now d
  step-Moves (reconciled instruments now) d allowed =
      reconcile_orphans-Moves c free instruments now d
  step-Moves (stopped now) d allowed = expire_pending-Moves c free shutdown now d

  -- A run of the desk is a sequence of moves.
  pub run_allowed-Moves :
      (hs : List Happening) (d : Desk) → All (IsAllowed free) hs → Moves c free d (run c hs d)
  unfolding run
  run_allowed-Moves [] d allowed = here d
  run_allowed-Moves (h ∷ hs) d allowed =
      chain (step-Moves h d allowed.0) (run_allowed-Moves hs (step c h d) allowed.1)

All-IsAllowed : (hs : List Happening) → All (IsAllowed true) hs
All-IsAllowed [] = tt
All-IsAllowed (proposed _ _ _ ∷ hs) = (tt, All-IsAllowed hs)
All-IsAllowed (ticked _ _ _ ∷ hs) = (tt, All-IsAllowed hs)
All-IsAllowed (thesis_died _ _ _ _ ∷ hs) = (tt, All-IsAllowed hs)
All-IsAllowed (operator_set_mode _ _ _ _ ∷ hs) = (refl, All-IsAllowed hs)
All-IsAllowed (operator_halt _ _ _ ∷ hs) = (tt, All-IsAllowed hs)
All-IsAllowed (operator_execute _ _ ∷ hs) = (tt, All-IsAllowed hs)
All-IsAllowed (operator_reject _ _ _ _ ∷ hs) = (tt, All-IsAllowed hs)
All-IsAllowed (operator_close _ _ ∷ hs) = (tt, All-IsAllowed hs)
All-IsAllowed (restored _ _ _ ∷ hs) = (tt, All-IsAllowed hs)
All-IsAllowed (reconciled _ _ ∷ hs) = (tt, All-IsAllowed hs)
All-IsAllowed (stopped _ ∷ hs) = (tt, All-IsAllowed hs)

pub run-Moves : (c : Config) (hs : List Happening) (d : Desk) → Moves c true d (run c hs d)
run-Moves c hs d = run_allowed-Moves c true hs d (All-IsAllowed hs)
