-- ===== src/Calibration/Resolver.antt =====
-- calibration/resolver.py, `OutcomeResolver`: every decision is tracked until its horizon elapses,
-- its stop is breached or its thesis is invalidated. Times are microseconds. The binary float of
-- the realized return is kept as the decimal quotient that it is made from, turned to the side and
-- not yet in percent; where it underflows, it is zero.
pub mod Runs
pub mod Keyed
pub mod Settled
pub mod Tally
pub mod Hits
use afterhours.Prelude.{
  ℕ, ◌+◌, ◌*◌, ◌^◌, String, Bool, true, false, not, ◌&&◌, ◌||◌, Option, none, some, List, [], ◌∷◌,
  ◌++◌, str_eq, leb, if◌then◌else◌,
}
use afterhours.Prelude.Dict.{Dict, lookup, insert, erase, adjust, map_values}
use afterhours.Prelude.Int.{nat_abs}
use afterhours.Decimal.{Decimal, sub, div, neg, le_decimal, lt_decimal, is_zero, zero_value}
use afterhours.Core.Mode.{AutonomyMode}
use afterhours.Core.Events.{
  Side, long, short, parse_side, Raw, number, Decision, Tick, Envelope, Event, market_tick,
  decision_proposed, decision_approved, thesis_invalidated,
}
use afterhours.Calibration.{CalibrationSettings}

pub data TimeHorizon : Type 0 where
  scalp intraday swing position : TimeHorizon

-- `TimeHorizon(text)`, where the ValueError is answered with INTRADAY.
unfoldable pub parse_horizon : String → TimeHorizon
parse_horizon s =
    if str_eq s "scalp"
    then scalp
    else if str_eq s "swing"
    then swing
    else if str_eq s "position"
    then position
    else intraday

-- `_horizon_duration`
abbrev pub horizon_duration : CalibrationSettings → TimeHorizon → ℕ
horizon_duration s scalp = s.horizon_scalp_minutes * 60_000_000
horizon_duration s intraday = s.horizon_intraday_hours * 3_600_000_000
horizon_duration s swing = s.horizon_swing_days * 86_400_000_000
horizon_duration s position = s.horizon_position_days * 86_400_000_000

-- `_Pending`
pub record Pending : Type 0 where
  pub decision_id : String
  pub instrument : String
  pub side : Side
  pub confidence : Decimal
  pub mode_at_proposal : AutonomyMode
  pub proposed_at : ℕ
  pub deadline : ℕ
  pub thesis_id : Option String
  pub entry_price : Option Decimal
  pub stop_price : Option Decimal

-- The reasons of a resolution.
pub data Why : Type 0 where
  horizon_elapsed stop_breached thesis_lost : Why

-- The payload of `decision.resolved`.
pub record Resolution : Type 0 where
  pub decision_id : String
  pub instrument : String
  pub predicted_side : Side
  pub confidence : Decimal
  pub mode_at_proposal : AutonomyMode
  pub entry_price : Decimal
  pub resolution_price : Decimal
  pub realized_return : Decimal
  pub hit : Bool
  pub resolution_reason : Why
  pub proposed_at : ℕ
  pub resolved_at : ℕ

-- The resolver, and what it has published, the oldest first.
pub record Resolver : Type 0 where
  pub pending : Dict Pending
  pub last_price : Dict Decimal
  pub resolved : List Resolution

abbrev pub new_resolver : Resolver
new_resolver = record { pending = []; last_price = []; resolved = [] }

abbrev thesis_of : String → Option String
thesis_of s = if str_eq s "" then none else some s

-- The record of a decision that is tracked from now on.
unfoldable pub tracked : CalibrationSettings → AutonomyMode → Decision → Side → ℕ → Pending
tracked s mode payload side now = record {
  decision_id = payload.id;
  instrument = payload.proposal.instrument;
  side = side;
  confidence = payload.confidence;
  mode_at_proposal = mode;
  proposed_at = now;
  deadline = now + horizon_duration s (parse_horizon payload.proposal.time_horizon);
  thesis_id = thesis_of payload.originating_thesis_id;
  entry_price = none;
  stop_price = none;
}

-- `_add_pending`
unfoldable pub add_pending : CalibrationSettings → AutonomyMode → Decision → ℕ → Resolver → Resolver
add_pending s mode payload now r =
    if str_eq payload.id "" || str_eq payload.proposal.instrument ""
    then r
    else elim payload.proposal.side [
      | none ↦ r
      | some text ↦ elim (parse_side text) [
        | none ↦ r
        | some side ↦ record r {
          pending = insert payload.id (tracked s mode payload side now) r.pending;
        }
      ]
    ]

-- `_handle_proposed`
abbrev pub handle_proposed : CalibrationSettings → AutonomyMode → Decision → ℕ → Resolver → Resolver
handle_proposed = add_pending

-- The stop price that an approval carries.
unfoldable pub stop_of : Decision → Option Decimal
stop_of payload = elim payload.risk [ none ↦ none | some risk ↦ risk.stop_price ]

abbrev pub with_stop : Decimal → Pending → Pending
with_stop stop p = record p { stop_price = some stop }

-- `_handle_approved`
unfoldable pub handle_approved : Decision → Resolver → Resolver
handle_approved payload r = elim (stop_of payload) [
  | none ↦ r
  | some stop ↦ record r { pending = adjust payload.id (with_stop stop) r.pending }
]

-- The side-adjusted return: positive where the predicted direction was profitable.
unfoldable pub side_adjusted : Side → Decimal → Decimal
side_adjusted long q = q
side_adjusted short q = neg q

-- The float of `q` underflows: `q` is no greater than half of the least positive float, 2 ^ -1074.
unfoldable pub vanishes : Decimal → Bool
vanishes q = leb (nat_abs q.coef * 2 ^ 1075) (10 ^ q.places)

-- `float(q)`, but for the rounding of its digits, which no sign depends on.
unfoldable pub float_of : Decimal → Decimal
float_of q = if vanishes q then zero_value else q

-- `_resolve`
unfoldable pub resolve : Pending → Decimal → ℕ → Why → Resolver → Resolver
resolve p price now why r =
    let popped : Resolver = record r { pending = erase p.decision_id r.pending } in
    elim p.entry_price [
      | none ↦ popped
      | some entry ↦ if is_zero entry then popped else elim (div (sub price entry) entry) [
        | none ↦ popped
        | some q ↦ record popped {
          resolved =
              r.resolved
              ++ record {
                decision_id = p.decision_id;
                instrument = p.instrument;
                predicted_side = p.side;
                confidence = p.confidence;
                mode_at_proposal = p.mode_at_proposal;
                entry_price = entry;
                resolution_price = price;
                realized_return = side_adjusted p.side (float_of q);
                hit = lt_decimal zero_value (side_adjusted p.side (float_of q));
                resolution_reason = why;
                proposed_at = p.proposed_at;
                resolved_at = now;
              }
                ∷ [];
        }
      ]
    ]

-- What the loop of a tick does with a decision.
pub data Fate : Type 0 where
  keep enter drop : Fate
  close : Why → Fate

-- The price has reached the stop, from the side of the decision.
unfoldable pub is_breached : Pending → Decimal → Bool
is_breached p price = elim p.stop_price [
  | none ↦ false
  | some stop ↦ elim p.side [ long ↦ le_decimal price stop | short ↦ le_decimal stop price ]
]

-- The body of the loop of `_handle_tick`
unfoldable pub fate : String → Decimal → ℕ → Pending → Fate
fate instrument price now p =
    if not (str_eq p.instrument instrument) then keep else elim p.entry_price [
      | none ↦ if leb p.deadline now then drop else if leb p.proposed_at now then enter else keep
      | some _ ↦
          if leb p.deadline now
          then close horizon_elapsed
          else if is_breached p price
          then close stop_breached
          else keep
    ]

unfoldable pub enter_at : String → Decimal → ℕ → Pending → Pending
enter_at instrument price now p = elim (fate instrument price now p) [
  | enter ↦ record p { entry_price = some price }
  | _ ↦ p
]

-- `to_drop`
unfoldable pub to_drop : String → Decimal → ℕ → Dict Pending → List String
to_drop instrument price now [] = []
to_drop instrument price now ((_, p) ∷ d) =
    let rest = to_drop instrument price now d in
    elim (fate instrument price now p) [ drop ↦ p.decision_id ∷ rest | _ ↦ rest ]

-- `to_resolve`
unfoldable pub to_resolve : String → Decimal → ℕ → Dict Pending → List (Pending × Why)
to_resolve instrument price now [] = []
to_resolve instrument price now ((_, p) ∷ d) =
    let rest = to_resolve instrument price now d in
    elim (fate instrument price now p) [ close why ↦ (p, why) ∷ rest | _ ↦ rest ]

unfoldable pub drop_each : List String → Dict Pending → Dict Pending
drop_each [] d = d
drop_each (id ∷ ids) d = drop_each ids (erase id d)

unfoldable pub resolve_each : List (Pending × Why) → Decimal → ℕ → Resolver → Resolver
resolve_each [] price now r = r
resolve_each ((p, why) ∷ ps) price now r = resolve_each ps price now (resolve p price now why r)

-- The tick of a named instrument with a price.
unfoldable pub tick_at : String → Decimal → ℕ → Resolver → Resolver
tick_at instrument price now r =
    resolve_each (to_resolve instrument price now r.pending) price now (record r {
      pending =
          drop_each (to_drop instrument price now r.pending)
            (map_values (enter_at instrument price now) r.pending);
      last_price = insert instrument price r.last_price;
    })

-- `_handle_tick`
unfoldable pub handle_tick : Tick → ℕ → Resolver → Resolver
handle_tick tick now r = elim tick.price [
  | number price ↦ if str_eq tick.instrument "" then r else tick_at tick.instrument price now r
  | _ ↦ r
]

unfoldable pub is_from : String → Pending → Bool
is_from thesis_id p = elim p.thesis_id [ none ↦ false | some id ↦ str_eq id thesis_id ]

-- `matching`
unfoldable pub matching : String → Dict Pending → List Pending
matching thesis_id [] = []
matching thesis_id ((_, p) ∷ d) =
    let rest = matching thesis_id d in if is_from thesis_id p then p ∷ rest else rest

-- The body of the loop of `_handle_thesis_invalidated`
unfoldable pub invalidate : Pending → ℕ → Resolver → Resolver
invalidate p now r =
    let dropped : Resolver = record r { pending = erase p.decision_id r.pending } in
    elim p.entry_price [
      | none ↦ dropped
      | some _ ↦ elim (lookup p.instrument r.last_price) [
        | none ↦ dropped
        | some price ↦ resolve p price now thesis_lost r
      ]
    ]

unfoldable pub invalidate_each : List Pending → ℕ → Resolver → Resolver
invalidate_each [] now r = r
invalidate_each (p ∷ ps) now r = invalidate_each ps now (invalidate p now r)

-- `_handle_thesis_invalidated`
unfoldable pub handle_thesis_invalidated : String → ℕ → Resolver → Resolver
handle_thesis_invalidated thesis_id now r =
    if str_eq thesis_id "" then r else invalidate_each (matching thesis_id r.pending) now r
