-- ===== src/Gateway/Startup/Resolved.antt =====
-- gateway/app.py and calibration/resolver.py: a restart resolves no decision again.
use afterhours.Prelude.{
  ℕ, ◌+◌, ◌≤◌, String, ◌≡◌, refl, true, false, List, [], ◌∷◌, arith, eq_iff, Bool-cases, inl, inr,
}
use afterhours.Prelude.Dict.{contains}
use afterhours.Prelude.Texts.{mem}
use afterhours.Core.Mode.{AutonomyMode}
use afterhours.Core.Events.{
  Decision, Envelope, Event, decision_proposed, market_tick, thesis_invalidated,
}
use afterhours.Calibration.{CalibrationSettings}
use afterhours.Calibration.Resolver.{
  Resolver, new_resolver, add_pending, handle_tick, handle_thesis_invalidated,
}
use afterhours.Calibration.Resolver.Runs.{seed, replay, run}
use afterhours.Calibration.Resolver.Keyed.{
  IsKept, IsKeyed-add_pending, IsKeyed-handle_tick, IsKeyed-handle_thesis_invalidated, IsKeyed-new,
}
use afterhours.Calibration.Resolver.Tally.{resolutions}
use afterhours.Calibration.Resolver.Tally.Runs.{
  proposed_by, proposals, IsTallied, tally-add_pending, tally-handle_tick,
  tally-handle_thesis_invalidated, tally-run,
}
use afterhours.Core.Store.{last}
use afterhours.Gateway.Startup.{
  startup_limit, history_limit, proposal_id, shadow_ids, unresolved, restart_resolver,
}

-- The state is kept, and the tally of the decision grew by `n` at most.
abbrev IsSeeded : String → ℕ → Resolver → Resolver → Type 0
IsSeeded k n r r' = IsKept r' × IsTallied k n r r'

seed-IsSeeded :
    (k : String) (s : CalibrationSettings) (es : List (AutonomyMode × Envelope)) (r : Resolver)
    → IsKept r
    → IsSeeded k (proposals k es) r (seed s es r)
unfolding seed proposals
seed-IsSeeded k s [] r h = (h, omega arith)
seed-IsSeeded k s ((mode, e) ∷ es) r h =
    elim e.event
      as (λ x. IsSeeded k (proposed_by k x + proposals k es) r (
        seed s es (elim x [
          | decision_proposed payload ↦ add_pending s mode payload e.event_time r
          | _ ↦ r
        ]))) [
          | decision_proposed payload ↦
              let r' = add_pending s mode payload e.event_time r in
              let (kept, grown) =
                seed-IsSeeded k s es r' (IsKeyed-add_pending s mode payload e.event_time r h) in
              (kept, omega (arith, grown, tally-add_pending k s mode payload e.event_time r))
          | _ ↦ let (kept, grown) = seed-IsSeeded k s es r h in (kept, omega (arith, grown))
        ]

replay-IsSeeded :
    (k : String) (es : List Envelope) (r : Resolver) → IsKept r → IsSeeded k 0 r (replay es r)
unfolding replay
replay-IsSeeded k [] r h = (h, omega arith)
replay-IsSeeded k (e ∷ es) r h =
    elim e.event
      as (λ x. IsSeeded k 0 r (
        replay es (elim x [
          | market_tick tick ↦ handle_tick tick e.event_time r
          | thesis_invalidated thesis_id _ ↦ handle_thesis_invalidated thesis_id e.event_time r
          | _ ↦ r
        ]))) [
          | market_tick tick ↦
              let (kept, grown) =
                replay-IsSeeded k es (handle_tick tick e.event_time r)
                  (IsKeyed-handle_tick tick e.event_time r h) in
              (kept, omega (arith, grown, tally-handle_tick k tick e.event_time r h))
          | thesis_invalidated thesis_id _ ↦
              let (kept, grown) =
                replay-IsSeeded k es (handle_thesis_invalidated thesis_id e.event_time r)
                  (IsKeyed-handle_thesis_invalidated thesis_id e.event_time r h) in
              (
                kept,
                omega (arith, grown, tally-handle_thesis_invalidated k thesis_id e.event_time r h),
              )
          | _ ↦ replay-IsSeeded k es r h
        ]

proposed_by-other :
    (k : String) (resolved : List String) (x : Event)
    → mem k resolved ≡ true
    → mem (proposal_id x) resolved ≡ false
    → proposed_by k x ≡ 0
proposed_by-other k resolved (decision_proposed payload) h e = ground (arith, eq_iff payload.id k)
proposed_by-other k resolved x h e = ground arith

-- Nothing that was resolved is left among the unresolved proposals.
proposals-unresolved :
    (k : String) (resolved shadow : List String) (es : List Envelope)
    → mem k resolved ≡ true
    → proposals k (unresolved resolved shadow es) ≡ 0
unfolding unresolved proposals
proposals-unresolved k resolved shadow [] h = refl
proposals-unresolved k resolved shadow (e ∷ es) h =
    elim (Bool-cases (mem (proposal_id e.event) resolved)) [
      | inl in_resolved ↦ rw in_resolved (proposals-unresolved k resolved shadow es h)
      | inr new ↦ rw new (
          omega (
            arith,
            proposed_by-other k resolved e.event h new,
            proposals-unresolved k resolved shadow es h,
          ))
    ]

-- A decision whose resolution is among those that the query of the restart reads, the latest 2000, is
-- not resolved again after it, neither by the replay of the history nor by the events that follow,
-- unless these propose it again: it is resolved at most as often as they do.
pub resolutions-restart :
    (k : String) (s : CalibrationSettings) (resolved : List String) (rejected : List Decision)
    (stored history : List Envelope) (es : List (AutonomyMode × Envelope))
    → mem k (last startup_limit resolved) ≡ true
    → resolutions k (run s es (restart_resolver s resolved rejected stored history)).resolved
      ≤ proposals k es
unfolding restart_resolver contains
resolutions-restart k s resolved rejected stored history es h =
    let latest = last startup_limit resolved in
    let shadow = shadow_ids (last startup_limit rejected) in
    let proposed = last startup_limit stored in
    let past = last history_limit history in
    let left = unresolved latest shadow proposed in
    let (kept, grown) = seed-IsSeeded k s left new_resolver IsKeyed-new in
    let (kept', grown') = replay-IsSeeded k past (seed s left new_resolver) kept in
    omega (
      arith,
      proposals-unresolved k latest shadow proposed h,
      grown,
      grown',
      tally-run k s es (replay past (seed s left new_resolver)) kept',
    )
