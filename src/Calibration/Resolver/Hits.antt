-- ===== src/Calibration/Resolver/Hits.antt =====
-- calibration/resolver.py: a hit is a move of the price in the predicted direction.
use afterhours.Prelude.{
  ℕ, ◌≡◌, sym, ◌∙◌, Bool, true, false, ◌||◌, ◌&&◌, not, Bool-cases, inl, inr, arith, some, List, [],
  ◌∷◌, str_eq, if_rule, option_rule, All, All-append, if◌then◌else◌,
}
use afterhours.Prelude.Dict.{lookup}
use afterhours.Decimal.{Decimal, sub, div, neg, is_zero, lt_decimal, zero_value}
use afterhours.Decimal.Quotient.{is_pos-sub, is_neg-sub, is_neg-neg, lt_decimal-zero, IsAlike-div}
use afterhours.Core.Mode.{AutonomyMode}
use afterhours.Core.Events.{
  Side, long, short, Decision, Tick, Envelope, Event, number, market_tick, decision_proposed,
  decision_approved, thesis_invalidated, parse_side,
}
use afterhours.Calibration.{CalibrationSettings}
use afterhours.Calibration.Resolver.{
  Pending, Resolution, Resolver, Why, thesis_lost, new_resolver, add_pending, stop_of,
  handle_approved, side_adjusted, vanishes, float_of, resolve, resolve_each, tick_at, handle_tick,
  invalidate, invalidate_each, matching, to_resolve, handle_thesis_invalidated,
}
use afterhours.Calibration.Resolver.Runs.{handle, run}

-- The price moved in the direction of the side.
abbrev pub is_move : Side → Decimal → Decimal → Bool
is_move long entry price = lt_decimal entry price
is_move short entry price = lt_decimal price entry

-- Where the entry price is positive, the resolution is a hit exactly where the price moved in the
-- predicted direction, and the float of the return does not underflow.
abbrev pub IsScored : Resolution → Type 0
IsScored x =
    lt_decimal zero_value x.entry_price ≡ true
    → (q : Decimal) × (div (sub x.resolution_price x.entry_price) x.entry_price ≡ some q)
      × (x.hit ≡ (is_move x.predicted_side x.entry_price x.resolution_price && not (vanishes q)))

hit-is_move :
    (side : Side) (entry price q : Decimal)
    → div (sub price entry) entry ≡ some q
    → lt_decimal zero_value entry ≡ true
    → lt_decimal zero_value (side_adjusted side q) ≡ is_move side entry price
unfolding side_adjusted
hit-is_move long entry price q e h =
    let alike = IsAlike-div (sub price entry) entry q (sym (lt_decimal-zero entry) ∙ h) e in
    lt_decimal-zero q ∙ alike.positive ∙ is_pos-sub price entry
hit-is_move short entry price q e h =
    let alike = IsAlike-div (sub price entry) entry q (sym (lt_decimal-zero entry) ∙ h) e in
    lt_decimal-zero (neg q) ∙ is_neg-neg q ∙ alike.negative ∙ is_neg-sub price entry

nothing-gained : (side : Side) → lt_decimal zero_value (side_adjusted side zero_value) ≡ false
unfolding side_adjusted
nothing-gained long = lt_decimal-zero zero_value
nothing-gained short = lt_decimal-zero (neg zero_value) ∙ is_neg-neg zero_value

hit-float_of :
    (side : Side) (entry price q : Decimal)
    → div (sub price entry) entry ≡ some q
    → lt_decimal zero_value entry ≡ true
    → lt_decimal zero_value (side_adjusted side (float_of q))
      ≡ (is_move side entry price && not (vanishes q))
unfolding float_of
hit-float_of side entry price q e h = elim (Bool-cases (vanishes q)) [
  | inl v ↦ rw v (nothing-gained side ∙ sym (and_false (is_move side entry price)))
  | inr v ↦ rw v (hit-is_move side entry price q e h ∙ sym (and_true (is_move side entry price)))
]
  where
    and_false : (b : Bool) → (b && false) ≡ false
    and_false b = ground arith

    and_true : (b : Bool) → (b && true) ≡ b
    and_true b = ground arith

-- Everything that was published is scored.
abbrev AreScored : Resolver → Type 0
AreScored r = All IsScored r.resolved

AreScored-resolve :
    (p : Pending) (price : Decimal) (now : ℕ) (why : Why) (r : Resolver)
    → AreScored r
    → AreScored (resolve p price now why r)
unfolding resolve
AreScored-resolve p price now why r h =
    option_rule AreScored p.entry_price (λ _. h)
      (λ entry _.
        if_rule AreScored (is_zero entry) (λ _. h)
          (λ _.
            option_rule AreScored (div (sub price entry) entry) (λ _. h)
              (λ q e.
                All-append IsScored r.resolved _ h
                  (λ pos. (q, e, hit-float_of p.side entry price q e pos), tt))))

AreScored-resolve_each :
    (ps : List (Pending × Why)) (price : Decimal) (now : ℕ) (r : Resolver)
    → AreScored r
    → AreScored (resolve_each ps price now r)
unfolding resolve_each
AreScored-resolve_each [] price now r h = h
AreScored-resolve_each ((p, why) ∷ ps) price now r h =
    AreScored-resolve_each ps price now (resolve p price now why r)
      (AreScored-resolve p price now why r h)

AreScored-invalidate_each :
    (ps : List Pending) (now : ℕ) (r : Resolver)
    → AreScored r
    → AreScored (invalidate_each ps now r)
unfolding invalidate_each invalidate
AreScored-invalidate_each [] now r h = h
AreScored-invalidate_each (p ∷ ps) now r h = AreScored-invalidate_each ps now (invalidate p now r) (
    option_rule AreScored p.entry_price (λ _. h)
      (λ entry _.
        option_rule AreScored (lookup p.instrument r.last_price) (λ _. h)
          (λ price _. AreScored-resolve p price now thesis_lost r h)))

AreScored-handle_tick :
    (tick : Tick) (now : ℕ) (r : Resolver) → AreScored r → AreScored (handle_tick tick now r)
unfolding handle_tick tick_at
AreScored-handle_tick tick now r h =
    elim tick.price
      as (λ x. AreScored (elim x [
        | number price ↦
            if str_eq tick.instrument "" then r else tick_at tick.instrument price now r
        | _ ↦ r
      ])) [
        | number price ↦
            if_rule AreScored (str_eq tick.instrument "") (λ _. h)
              (λ _.
                AreScored-resolve_each (to_resolve tick.instrument price now r.pending) price now _
                  h)
        | _ ↦ h
      ]

AreScored-add_pending :
    (s : CalibrationSettings) (mode : AutonomyMode) (payload : Decision) (now : ℕ) (r : Resolver)
    → AreScored r
    → AreScored (add_pending s mode payload now r)
unfolding add_pending
AreScored-add_pending s mode payload now r h =
    if_rule AreScored (str_eq payload.id "" || str_eq payload.proposal.instrument "") (λ _. h)
      (λ _.
        option_rule AreScored payload.proposal.side (λ _. h)
          (λ text _. option_rule AreScored (parse_side text) (λ _. h) (λ side _. h)))

AreScored-handle :
    (s : CalibrationSettings) (mode : AutonomyMode) (e : Envelope) (r : Resolver)
    → AreScored r
    → AreScored (handle s (mode, e) r)
unfolding handle handle_approved handle_thesis_invalidated
AreScored-handle s mode e r h = elim e.event as (λ x. AreScored (on_event x)) [
  | decision_proposed payload ↦ AreScored-add_pending s mode payload e.event_time r h
  | decision_approved payload ↦ option_rule AreScored (stop_of payload) (λ _. h) (λ stop _. h)
  | market_tick tick ↦ AreScored-handle_tick tick e.event_time r h
  | thesis_invalidated thesis_id _ ↦
      if_rule AreScored (str_eq thesis_id "") (λ _. h)
        (λ _. AreScored-invalidate_each (matching thesis_id r.pending) e.event_time r h)
  | _ ↦ h
]
  where
    on_event : Event → Resolver
    on_event x = handle s (mode, record e { event = x }) r

-- In every run, each resolution of a decision with a positive entry price is a hit exactly where the
-- price moved in the predicted direction, up for a long side, down for a short one, and the return
-- is large enough for a float other than zero.
pub run-AreScored :
    (s : CalibrationSettings) (es : List (AutonomyMode × Envelope))
    → All IsScored (run s es new_resolver).resolved
unfolding run
run-AreScored s es = go es new_resolver tt
  where
    go : (es : List (AutonomyMode × Envelope)) (r : Resolver) → AreScored r → AreScored (run s es r)
    go [] r h = h
    go ((mode, e) ∷ es) r h = go es (handle s (mode, e) r) (AreScored-handle s mode e r h)
