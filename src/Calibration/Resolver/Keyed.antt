-- ===== src/Calibration/Resolver/Keyed.antt =====
-- calibration/resolver.py: the table of the tracked decisions is keyed by their ids.
use afterhours.Prelude.{
  ℕ, String, ◌≡◌, refl, ap, ◌∙◌, List, [], ◌∷◌, map, arith, str_eq, if_rule, option_rule, ◌||◌,
  if◌then◌else◌,
}
use afterhours.Prelude.Dict.{Dict, lookup, erase, insert, adjust, map_values, keys}
use afterhours.Prelude.Dict.Keys.{
  Entries, Entries-insert, Entries-erase, Entries-adjust, Entries-map_values, keys-adjust,
  keys-map_values, IsDistinct-keys-erase, IsDistinct-keys-insert,
}
use afterhours.Prelude.Texts.{IsDistinct}
use afterhours.Decimal.{Decimal, is_zero, sub, div}
use afterhours.Core.Mode.{AutonomyMode}
use afterhours.Core.Events.{
  Decision, Tick, Envelope, Event, number, market_tick, decision_proposed, decision_approved,
  thesis_invalidated, parse_side,
}
use afterhours.Calibration.{CalibrationSettings}
use afterhours.Calibration.Resolver.{
  Pending, Resolver, Why, thesis_lost, new_resolver, tracked, add_pending, with_stop, stop_of,
  handle_approved, resolve, enter_at, drop_each, resolve_each, to_drop, to_resolve, tick_at,
  handle_tick, invalidate, invalidate_each, matching, handle_thesis_invalidated,
}
use afterhours.Calibration.Resolver.Runs.{handle, run}

abbrev pub id_of : Pending → String
id_of p = p.decision_id

abbrev pub resolved_ids : List (Pending × Why) → List String
resolved_ids = map (λ pw. id_of pw.0)

-- Every key is the id of its decision, and no key is there twice.
pub record IsKeyed (d : Dict Pending) : Type 0 where
  pub named : Entries (λ k p. p.decision_id ≡ k) d
  pub distinct : IsDistinct (keys d)

pub IsKeyed-insert :
    (p : Pending) (d : Dict Pending) → IsKeyed d → IsKeyed (insert p.decision_id p d)
IsKeyed-insert p d h = record {
  named = Entries-insert (λ k q. q.decision_id ≡ k) p.decision_id p d refl h.named;
  distinct = IsDistinct-keys-insert p.decision_id p d h.distinct;
}

pub IsKeyed-erase : (k : String) (d : Dict Pending) → IsKeyed d → IsKeyed (erase k d)
IsKeyed-erase k d h = record {
  named = Entries-erase (λ k q. q.decision_id ≡ k) k d h.named;
  distinct = IsDistinct-keys-erase k d h.distinct;
}

pub IsKeyed-drop_each :
    (ids : List String) (d : Dict Pending) → IsKeyed d → IsKeyed (drop_each ids d)
unfolding drop_each
IsKeyed-drop_each [] d h = h
IsKeyed-drop_each (id ∷ ids) d h = IsKeyed-drop_each ids (erase id d) (IsKeyed-erase id d h)

IsKeyed-adjust :
    (k : String) (stop : Decimal) (d : Dict Pending)
    → IsKeyed d
    → IsKeyed (adjust k (with_stop stop) d)
IsKeyed-adjust k stop d h = record {
  named = Entries-adjust (λ k q. q.decision_id ≡ k) k (with_stop stop) d (λ j p e. e) h.named;
  distinct = rw (keys-adjust k (with_stop stop) d) h.distinct;
}

pub id-enter_at :
    (instrument : String) (price : Decimal) (now : ℕ) (p : Pending)
    → (enter_at instrument price now p).decision_id ≡ p.decision_id
unfolding enter_at
id-enter_at instrument price now p = ground arith

pub IsKeyed-enter_at :
    (instrument : String) (price : Decimal) (now : ℕ) (d : Dict Pending)
    → IsKeyed d
    → IsKeyed (map_values (enter_at instrument price now) d)
IsKeyed-enter_at instrument price now d h = record {
  named =
      Entries-map_values (λ k q. q.decision_id ≡ k) (enter_at instrument price now) d
        (λ j p e. id-enter_at instrument price now p ∙ e) h.named;
  distinct = rw (keys-map_values (enter_at instrument price now) d) h.distinct;
}

-- The second state is the first with the decision off the table, whatever it published.
abbrev IsPopped : String → Resolver → Resolver → Type 0
IsPopped k r r' = r'.pending ≡ erase k r.pending

-- Whatever else it does, a resolution takes its decision off the table.
pub pending-resolve :
    (p : Pending) (price : Decimal) (now : ℕ) (why : Why) (r : Resolver)
    → (resolve p price now why r).pending ≡ erase p.decision_id r.pending
unfolding resolve
pending-resolve p price now why r =
    option_rule (IsPopped p.decision_id r) p.entry_price (λ _. refl)
      (λ entry _.
        if_rule (IsPopped p.decision_id r) (is_zero entry) (λ _. refl)
          (λ _.
            option_rule (IsPopped p.decision_id r) (div (sub price entry) entry) (λ _. refl)
              (λ q _. refl)))

pub pending-resolve_each :
    (ps : List (Pending × Why)) (price : Decimal) (now : ℕ) (r : Resolver)
    → (resolve_each ps price now r).pending ≡ drop_each (resolved_ids ps) r.pending
unfolding resolve_each drop_each
pending-resolve_each [] price now r = refl
pending-resolve_each ((p, why) ∷ ps) price now r =
    pending-resolve_each ps price now (resolve p price now why r)
    ∙ ap (drop_each (resolved_ids ps)) (pending-resolve p price now why r)

pub pending-invalidate :
    (p : Pending) (now : ℕ) (r : Resolver)
    → (invalidate p now r).pending ≡ erase p.decision_id r.pending
unfolding invalidate
pending-invalidate p now r =
    option_rule (IsPopped p.decision_id r) p.entry_price (λ _. refl)
      (λ entry _.
        option_rule (IsPopped p.decision_id r) (lookup p.instrument r.last_price) (λ _. refl)
          (λ price _. pending-resolve p price now thesis_lost r))

pub pending-invalidate_each :
    (ps : List Pending) (now : ℕ) (r : Resolver)
    → (invalidate_each ps now r).pending ≡ drop_each (map id_of ps) r.pending
unfolding invalidate_each drop_each
pending-invalidate_each [] now r = refl
pending-invalidate_each (p ∷ ps) now r =
    pending-invalidate_each ps now (invalidate p now r)
    ∙ ap (drop_each (map id_of ps)) (pending-invalidate p now r)

pub pending-tick_at :
    (instrument : String) (price : Decimal) (now : ℕ) (r : Resolver)
    → (tick_at instrument price now r).pending
      ≡ drop_each (resolved_ids (to_resolve instrument price now r.pending)) (
          drop_each
            (to_drop instrument price now r.pending)
            (map_values (enter_at instrument price now) r.pending))
unfolding tick_at
pending-tick_at instrument price now r =
    pending-resolve_each (to_resolve instrument price now r.pending) price now _

IsKeyed-tick_at :
    (instrument : String) (price : Decimal) (now : ℕ) (r : Resolver)
    → IsKeyed r.pending
    → IsKeyed (tick_at instrument price now r).pending
IsKeyed-tick_at instrument price now r h = rw (pending-tick_at instrument price now r) (
    IsKeyed-drop_each (resolved_ids (to_resolve instrument price now r.pending)) _ (
      IsKeyed-drop_each (to_drop instrument price now r.pending) _
        (IsKeyed-enter_at instrument price now r.pending h)))

-- The table of a resolver is keyed.
abbrev pub IsKept : Resolver → Type 0
IsKept r = IsKeyed r.pending

pub IsKeyed-handle_tick :
    (tick : Tick) (now : ℕ) (r : Resolver) → IsKept r → IsKept (handle_tick tick now r)
unfolding handle_tick
IsKeyed-handle_tick tick now r h =
    elim tick.price
      as (λ x. IsKept (elim x [
        | number price ↦
            if str_eq tick.instrument "" then r else tick_at tick.instrument price now r
        | _ ↦ r
      ])) [
        | number price ↦
            if_rule IsKept (str_eq tick.instrument "") (λ _. h)
              (λ _. IsKeyed-tick_at tick.instrument price now r h)
        | _ ↦ h
      ]

pub IsKeyed-handle_thesis_invalidated :
    (thesis_id : String) (now : ℕ) (r : Resolver)
    → IsKept r
    → IsKept (handle_thesis_invalidated thesis_id now r)
unfolding handle_thesis_invalidated
IsKeyed-handle_thesis_invalidated thesis_id now r h =
    if_rule IsKept (str_eq thesis_id "") (λ _. h)
      (λ _.
        rw (pending-invalidate_each (matching thesis_id r.pending) now r)
          (IsKeyed-drop_each (map id_of (matching thesis_id r.pending)) r.pending h))

pub IsKeyed-add_pending :
    (s : CalibrationSettings) (mode : AutonomyMode) (payload : Decision) (now : ℕ) (r : Resolver)
    → IsKept r
    → IsKept (add_pending s mode payload now r)
unfolding add_pending tracked
IsKeyed-add_pending s mode payload now r h =
    if_rule IsKept (str_eq payload.id "" || str_eq payload.proposal.instrument "") (λ _. h)
      (λ _.
        option_rule IsKept payload.proposal.side (λ _. h)
          (λ text _.
            option_rule IsKept (parse_side text) (λ _. h)
              (λ side _. IsKeyed-insert (tracked s mode payload side now) r.pending h)))

IsKeyed-handle_approved :
    (payload : Decision) (r : Resolver) → IsKept r → IsKept (handle_approved payload r)
unfolding handle_approved
IsKeyed-handle_approved payload r h =
    option_rule IsKept (stop_of payload) (λ _. h)
      (λ stop _. IsKeyed-adjust payload.id stop r.pending h)

pub IsKeyed-handle :
    (s : CalibrationSettings) (mode : AutonomyMode) (e : Envelope) (r : Resolver)
    → IsKept r
    → IsKept (handle s (mode, e) r)
unfolding handle
IsKeyed-handle s mode e r h = elim e.event as (λ x. IsKept (on_event x)) [
  | decision_proposed payload ↦ IsKeyed-add_pending s mode payload e.event_time r h
  | decision_approved payload ↦ IsKeyed-handle_approved payload r h
  | market_tick tick ↦ IsKeyed-handle_tick tick e.event_time r h
  | thesis_invalidated thesis_id _ ↦ IsKeyed-handle_thesis_invalidated thesis_id e.event_time r h
  | _ ↦ h
]
  where
    on_event : Event → Resolver
    on_event x = handle s (mode, record e { event = x }) r

pub IsKeyed-run :
    (s : CalibrationSettings) (es : List (AutonomyMode × Envelope)) (r : Resolver)
    → IsKept r
    → IsKept (run s es r)
unfolding run
IsKeyed-run s [] r h = h
IsKeyed-run s ((mode, e) ∷ es) r h =
    IsKeyed-run s es (handle s (mode, e) r) (IsKeyed-handle s mode e r h)

pub IsKeyed-new : IsKept new_resolver
IsKeyed-new = record { named = tt; distinct = tt }
