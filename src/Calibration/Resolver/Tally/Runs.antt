-- ===== src/Calibration/Resolver/Tally/Runs.antt =====
-- calibration/resolver.py: the tally of a decision over the handlers, and over a run.
use afterhours.Prelude.{
  ℕ, ◌+◌, ◌≤◌, String, ap, ◌||◌, List, [], ◌∷◌, arith, str_eq, if_rule, option_rule, if◌then◌else◌,
}
use afterhours.Prelude.Dict.{contains, contains-adjust}
use afterhours.Prelude.Dict.Keys.{contains-insert}
use afterhours.Core.Mode.{AutonomyMode}
use afterhours.Core.Events.{
  Decision, Tick, Envelope, Event, number, market_tick, decision_proposed, decision_approved,
  thesis_invalidated, parse_side,
}
use afterhours.Calibration.{CalibrationSettings}
use afterhours.Calibration.Resolver.{
  Resolver, new_resolver, tracked, add_pending, stop_of, with_stop, handle_approved, tick_at,
  handle_tick, handle_thesis_invalidated,
}
use afterhours.Calibration.Resolver.Runs.{handle, run}
use afterhours.Calibration.Resolver.Keyed.{IsKeyed, IsKeyed-handle, IsKeyed-new}
use afterhours.Calibration.Resolver.Tally.{one_if, resolutions, tally, tally-tick_at, tally-thesis}

-- How often decision `k` was proposed.
abbrev pub proposed_by : String → Event → ℕ
proposed_by k (decision_proposed payload) = one_if (str_eq payload.id k)
proposed_by k _ = 0

unfoldable pub proposals : String → List (AutonomyMode × Envelope) → ℕ
proposals k [] = 0
proposals k ((_, e) ∷ es) = proposed_by k e.event + proposals k es

-- The tally of decision `k` grows by `n` at most.
abbrev pub IsTallied : String → ℕ → Resolver → Resolver → Type 0
IsTallied k n r r' = tally k r' ≤ tally k r + n

pub tally-add_pending :
    (k : String) (s : CalibrationSettings) (mode : AutonomyMode) (payload : Decision) (now : ℕ)
    (r : Resolver)
    → IsTallied k (one_if (str_eq payload.id k)) r (add_pending s mode payload now r)
unfolding add_pending
tally-add_pending k s mode payload now r =
    let P = IsTallied k (one_if (str_eq payload.id k)) r in
    if_rule P (str_eq payload.id "" || str_eq payload.proposal.instrument "") (λ _. omega arith)
      (λ _.
        option_rule P payload.proposal.side (λ _. omega arith)
          (λ text _.
            option_rule P (parse_side text) (λ _. omega arith)
              (λ side _.
                let known =
                  contains-insert payload.id k (tracked s mode payload side now) r.pending in
                ground (arith, known))))

tally-handle_approved :
    (k : String) (payload : Decision) (r : Resolver) → IsTallied k 0 r (handle_approved payload r)
unfolding handle_approved
tally-handle_approved k payload r =
    option_rule (IsTallied k 0 r) (stop_of payload) (λ _. omega arith)
      (λ stop _. omega (arith, ap one_if (contains-adjust payload.id k (with_stop stop) r.pending)))

pub tally-handle_tick :
    (k : String) (tick : Tick) (now : ℕ) (r : Resolver)
    → IsKeyed r.pending
    → IsTallied k 0 r (handle_tick tick now r)
unfolding handle_tick
tally-handle_tick k tick now r h =
    elim tick.price
      as (λ x. IsTallied k 0 r (elim x [
        | number price ↦
            if str_eq tick.instrument "" then r else tick_at tick.instrument price now r
        | _ ↦ r
      ])) [
        | number price ↦
            if_rule (IsTallied k 0 r) (str_eq tick.instrument "") (λ _. omega arith)
              (λ _. omega (arith, tally-tick_at k tick.instrument price now r h))
        | _ ↦ omega arith
      ]

pub tally-handle_thesis_invalidated :
    (k thesis_id : String) (now : ℕ) (r : Resolver)
    → IsKeyed r.pending
    → IsTallied k 0 r (handle_thesis_invalidated thesis_id now r)
unfolding handle_thesis_invalidated
tally-handle_thesis_invalidated k thesis_id now r h =
    if_rule (IsTallied k 0 r) (str_eq thesis_id "") (λ _. omega arith)
      (λ _. omega (arith, tally-thesis k thesis_id now r h))

tally-handle :
    (k : String) (s : CalibrationSettings) (mode : AutonomyMode) (e : Envelope) (r : Resolver)
    → IsKeyed r.pending
    → IsTallied k (proposed_by k e.event) r (handle s (mode, e) r)
unfolding handle
tally-handle k s mode e r h = elim e.event as (λ x. IsTallied k (proposed_by k x) r (on_event x)) [
  | decision_proposed payload ↦ tally-add_pending k s mode payload e.event_time r
  | decision_approved payload ↦ tally-handle_approved k payload r
  | market_tick tick ↦ tally-handle_tick k tick e.event_time r h
  | thesis_invalidated thesis_id _ ↦ tally-handle_thesis_invalidated k thesis_id e.event_time r h
  | _ ↦ omega arith
]
  where
    on_event : Event → Resolver
    on_event x = handle s (mode, record e { event = x }) r

pub tally-run :
    (k : String) (s : CalibrationSettings) (es : List (AutonomyMode × Envelope)) (r : Resolver)
    → IsKeyed r.pending
    → tally k (run s es r) ≤ tally k r + proposals k es
unfolding run proposals
tally-run k s [] r h = omega arith
tally-run k s ((mode, e) ∷ es) r h = omega (
  arith,
  tally-handle k s mode e r h,
  tally-run k s es (handle s (mode, e) r) (IsKeyed-handle s mode e r h),
)

-- In every run from the start in which each event is handled to its end before the next, no
-- decision is resolved more often than it was proposed; one that is still tracked was resolved less
-- often than that.
pub resolutions-proposals :
    (k : String) (s : CalibrationSettings) (es : List (AutonomyMode × Envelope))
    → resolutions k (run s es new_resolver).resolved
        + one_if (contains k (run s es new_resolver).pending)
      ≤ proposals k es
unfolding contains
resolutions-proposals k s es = omega (arith, tally-run k s es new_resolver IsKeyed-new)
