-- ===== src/Calibration/Resolver/Runs.antt =====
-- calibration/resolver.py, `OutcomeResolver`: its subscriptions, seeding and replay.
use afterhours.Prelude.{List, [], ◌∷◌}
use afterhours.Core.Mode.{AutonomyMode}
use afterhours.Core.Events.{
  Envelope, market_tick, decision_proposed, decision_approved, thesis_invalidated,
}
use afterhours.Calibration.{CalibrationSettings}
use afterhours.Calibration.Resolver.{
  Resolver, add_pending, handle_proposed, handle_approved, handle_tick, handle_thesis_invalidated,
}

-- An event with the mode of its time: `start` subscribes the four handlers.
unfoldable pub handle : CalibrationSettings → AutonomyMode × Envelope → Resolver → Resolver
handle s (mode, e) r = elim e.event [
  | decision_proposed payload ↦ handle_proposed s mode payload e.event_time r
  | decision_approved payload ↦ handle_approved payload r
  | market_tick tick ↦ handle_tick tick e.event_time r
  | thesis_invalidated thesis_id _ ↦ handle_thesis_invalidated thesis_id e.event_time r
  | _ ↦ r
]

-- Any events, one after the other, each handled to its end.
unfoldable pub run : CalibrationSettings → List (AutonomyMode × Envelope) → Resolver → Resolver
run s [] r = r
run s (e ∷ es) r = run s es (handle s e r)

-- `seed`
unfoldable pub seed : CalibrationSettings → List (AutonomyMode × Envelope) → Resolver → Resolver
seed s [] r = r
seed s ((mode, e) ∷ es) r =
    seed s es (elim e.event [
      | decision_proposed payload ↦ add_pending s mode payload e.event_time r
      | _ ↦ r
    ])

-- `replay`
unfoldable pub replay : List Envelope → Resolver → Resolver
replay [] r = r
replay (e ∷ es) r = replay es (elim e.event [
  | market_tick tick ↦ handle_tick tick e.event_time r
  | thesis_invalidated thesis_id _ ↦ handle_thesis_invalidated thesis_id e.event_time r
  | _ ↦ r
])
