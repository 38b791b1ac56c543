-- ===== src/Calibration/Resolver/Settled.antt =====
-- calibration/resolver.py: what a tick, and the loss of a thesis, do to each tracked decision.
use afterhours.Prelude.{
  ℕ, ◌<◌, ◌≤◌, String, ◌≡◌, ◌≢◌, refl, sym, ap, ◌∙◌, Bool, true, false, Option, none, some, List,
  [], ◌∷◌, map, arith, eq_iff, option_inv, if◌then◌else◌,
}
use afterhours.Prelude.Dict.{
  Dict, lookup, erase, map_values, keys, lookup-erase, lookup-map_values, contains-eq-lookup,
}
use afterhours.Prelude.Dict.Keys.{mem-keys, count}
use afterhours.Prelude.Texts.{mem}
use afterhours.Decimal.{Decimal}
use afterhours.Core.Mode.{AutonomyMode}
use afterhours.Core.Events.{number, Envelope}
use afterhours.Calibration.{CalibrationSettings}
use afterhours.Calibration.Resolver.{
  Pending, Resolver, Fate, keep, enter, drop, close, fate, is_from, enter_at, drop_each, to_drop,
  to_resolve, matching, tick_at, handle_tick, handle_thesis_invalidated, new_resolver,
}
use afterhours.Calibration.Resolver.Runs.{run}
use afterhours.Calibration.Resolver.Keyed.{
  id_of, resolved_ids, IsKeyed, IsKeyed-run, IsKeyed-new, pending-tick_at, pending-invalidate_each,
}

lookup-drop_each :
    (k : String) (ids : List String) (d : Dict Pending)
    → lookup k (drop_each ids d) ≡ (if mem k ids then none else lookup k d)
unfolding drop_each mem
lookup-drop_each k [] d = refl
lookup-drop_each k (id ∷ ids) d =
    ground (arith, lookup-drop_each k ids (erase id d), lookup-erase id k d)

-- The ids of the decisions that pass a test.
module _ (f : Pending → Bool) where
  unfoldable pub selected : Dict Pending → List String
  selected [] = []
  selected ((_, p) ∷ d) = let rest = selected d in if f p then p.decision_id ∷ rest else rest

  -- Where the table is keyed, a decision is selected exactly where it is there and passes.
  pub mem-selected :
      (k : String) (d : Dict Pending)
      → IsKeyed d
      → mem k (selected d) ≡ elim (lookup k d) [ none ↦ false | some p ↦ f p ]
  unfolding selected mem lookup
  mem-selected k [] h = refl
  mem-selected k ((j, p) ∷ d) h =
      let rest = mem-selected k d (record { named = h.named.1; distinct = h.distinct.1 }) in
      let new = mem-keys j d in
      let absent = contains-eq-lookup j d in
      ground (arith, h.named.0, h.distinct.0, eq_iff j k, eq_iff p.decision_id k)

  -- It is selected once at most.
  pub count-selected :
      (k : String) (d : Dict Pending) → IsKeyed d → count k (selected d) ≤ count k (keys d)
  unfolding selected
  count-selected k [] h = omega arith
  count-selected k ((j, p) ∷ d) h =
      let rest = count-selected k d (record { named = h.named.1; distinct = h.distinct.1 }) in
      ground (arith, h.named.0)

abbrev drops : Fate → Bool
drops drop = true
drops _ = false

abbrev pub closes : Fate → Bool
closes (close _) = true
closes _ = false

-- What becomes of a decision at a tick.
unfoldable pub settle : String → Decimal → ℕ → Pending → Option Pending
settle instrument price now p = elim (fate instrument price now p) [
  | keep ↦ some p
  | enter ↦ some (record p { entry_price = some price })
  | _ ↦ none
]

module _ (instrument : String) (price : Decimal) (now : ℕ) where
  pub to_drop-selected :
      (d : Dict Pending)
      → to_drop instrument price now d ≡ selected (λ p. drops (fate instrument price now p)) d
  unfolding to_drop selected
  to_drop-selected [] = refl
  to_drop-selected ((j, p) ∷ d) = ground (arith, to_drop-selected d)

  pub to_resolve-selected :
      (d : Dict Pending)
      → resolved_ids (to_resolve instrument price now d)
        ≡ selected (λ p. closes (fate instrument price now p)) d
  unfolding to_resolve selected
  to_resolve-selected [] = refl
  to_resolve-selected ((j, p) ∷ d) = ground (arith, to_resolve-selected d)

  -- A tick of a named instrument settles every decision, and no other is tracked after it.
  pub lookup-tick_at :
      (k : String) (r : Resolver)
      → IsKeyed r.pending
      → lookup k (tick_at instrument price now r).pending
        ≡ elim (lookup k r.pending) [ none ↦ none | some p ↦ settle instrument price now p ]
  unfolding settle enter_at
  lookup-tick_at k r h =
      let entered = map_values (enter_at instrument price now) r.pending in
      let dropped = to_drop instrument price now r.pending in
      let resolved = resolved_ids (to_resolve instrument price now r.pending) in
      let is_dropped =
        ap (mem k) (to_drop-selected r.pending)
        ∙ mem-selected (λ p. drops (fate instrument price now p)) k r.pending h in
      let is_resolved =
        ap (mem k) (to_resolve-selected r.pending)
        ∙ mem-selected (λ p. closes (fate instrument price now p)) k r.pending h in
      let popped = ap (lookup k) (pending-tick_at instrument price now r) in
      let settled = lookup-drop_each k resolved (drop_each dropped entered) in
      let kept = lookup-drop_each k dropped entered in
      let marked = lookup-map_values (enter_at instrument price now) k r.pending in ground arith

  settle-entered :
      (p q : Pending)
      → settle instrument price now p ≡ some q
      → q.instrument ≡ instrument
      → (now < q.deadline) × (q.proposed_at ≤ now → q.entry_price ≢ none)
  unfolding settle fate
  settle-entered p q h e = ground (arith, eq_iff p.instrument instrument)

-- After any events from the start, a tick of a named instrument with a price leaves no decision of
-- that instrument whose deadline has passed, and none without an entry price that was proposed by
-- then.
pub run-settled :
    (s : CalibrationSettings) (es : List (AutonomyMode × Envelope)) (instrument : String)
    (price : Decimal) (now : ℕ) (k : String) (p : Pending)
    → instrument ≢ ""
    → lookup k
        (handle_tick
          (record { instrument = instrument; price = number price })
          now
          (run s es new_resolver)).pending
      ≡ some p
    → p.instrument ≡ instrument
    → (now < p.deadline) × (p.proposed_at ≤ now → p.entry_price ≢ none)
unfolding handle_tick
run-settled s es instrument price now k p ne h e =
    let r = run s es new_resolver in
    let law = lookup-tick_at instrument price now k r (IsKeyed-run s es new_resolver IsKeyed-new) in
    let (q, _, settled) =
      option_inv (lookup k r.pending) (sym law ∙ at_tick r ne h) (λ eq. ground (arith, eq)) in
    settle-entered instrument price now q p settled e
  where
    at_tick :
        (r : Resolver)
        → instrument ≢ ""
        → lookup k
            (handle_tick (record { instrument = instrument; price = number price }) now r).pending
          ≡ some p
        → lookup k (tick_at instrument price now r).pending ≡ some p
    at_tick r ne h = ground (arith, eq_iff instrument "")

pub matching-selected :
    (thesis_id : String) (d : Dict Pending)
    → map id_of (matching thesis_id d) ≡ selected (is_from thesis_id) d
unfolding matching selected
matching-selected thesis_id [] = refl
matching-selected thesis_id ((j, p) ∷ d) = ground (arith, matching-selected thesis_id d)

-- Where the table is keyed, the loss of a named thesis ends exactly the decisions that rest on it.
pub lookup-handle_thesis_invalidated :
    (thesis_id k : String) (now : ℕ) (r : Resolver)
    → thesis_id ≢ ""
    → IsKeyed r.pending
    → lookup k (handle_thesis_invalidated thesis_id now r).pending ≡ elim (lookup k r.pending) [
      | none ↦ none
      | some p ↦ if is_from thesis_id p then none else some p
    ]
unfolding handle_thesis_invalidated
lookup-handle_thesis_invalidated thesis_id k now r ne h =
    let ids = map id_of (matching thesis_id r.pending) in
    let popped = ap (lookup k) (pending-invalidate_each (matching thesis_id r.pending) now r) in
    let kept = lookup-drop_each k ids r.pending in
    let is_matching =
      ap (mem k) (matching-selected thesis_id r.pending)
      ∙ mem-selected (is_from thesis_id) k r.pending h in
    ground (arith, eq_iff thesis_id "")
