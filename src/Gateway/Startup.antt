-- ===== src/Gateway/Startup.antt =====
-- gateway/app.py: what a restart makes of the stored events, for the outcome resolver and for the
-- positions whose thesis is gone. The lists of events are those of the store.
pub mod Resolved
pub mod Orphans
use afterhours.Prelude.{
  ℕ, ◌+◌, ◌*◌, String, Bool, true, false, not, ◌||◌, Option, none, some, List, [], ◌∷◌, str_eq, leb,
  if◌then◌else◌,
}
use afterhours.Prelude.Dict.{Dict, lookup, insert}
use afterhours.Prelude.Texts.{mem, include}
use afterhours.Core.Mode.{AutonomyMode, observe, paper}
use afterhours.Core.Events.{Decision, Envelope, Event, decision_proposed, Reason, observe_mode}
use afterhours.Core.Store.{last, keep}
use afterhours.Portfolio.Position.{Position}
use afterhours.Reasoning.Invalidator.{Thesis, ThesisEvent, created, invalidated}
use afterhours.Calibration.{CalibrationSettings}
use afterhours.Calibration.Resolver.{Resolver, new_resolver}
use afterhours.Calibration.Resolver.Runs.{seed, replay}

-- `any(r.startswith("observe_mode") ...)`
unfoldable pub has_observe_mode : List Reason → Bool
has_observe_mode [] = false
has_observe_mode (r ∷ reasons) =
    let rest = has_observe_mode reasons in elim r [ observe_mode ↦ true | _ ↦ rest ]

-- A rejection for the mode alone: the decision was a shadow decision.
unfoldable pub is_shadow : Decision → Bool
is_shadow payload = elim payload.risk [
  | none ↦ false
  | some risk ↦ has_observe_mode risk.rejection_reasons
]

-- `shadow_ids`, of the rejected decisions
unfoldable pub shadow_ids : List Decision → List String
shadow_ids [] = []
shadow_ids (d ∷ rejected) =
    let rest = shadow_ids rejected in if is_shadow d then include d.id rest else rest

abbrev pub proposal_id : Event → String
proposal_id (decision_proposed payload) = payload.id
proposal_id _ = ""

-- The limits of the queries.
abbrev pub startup_limit : ℕ
startup_limit = 2000

abbrev pub history_limit : ℕ
history_limit = 5000

-- `unresolved`, of the proposals
unfoldable pub unresolved :
    List String → List String → List Envelope → List (AutonomyMode × Envelope)
unresolved resolved shadow [] = []
unresolved resolved shadow (e ∷ proposals) =
    let rest = unresolved resolved shadow proposals in
    let id = proposal_id e.event in
    if mem id resolved then rest else (if mem id shadow then observe else paper, e) ∷ rest

-- The resolver as a restart leaves it, before it hears live events, from the events of the store by
-- type, the oldest first: the ids of the resolutions, the rejections, the proposals, and the ticks
-- with the lost theses. Each query reads the end of its list.
unfoldable pub restart_resolver :
    CalibrationSettings → List String → List Decision → List Envelope → List Envelope → Resolver
restart_resolver s resolved rejected proposals history =
    let shadow = shadow_ids (last startup_limit rejected) in
    let left = unresolved (last startup_limit resolved) shadow (last startup_limit proposals) in
    replay (last history_limit history) (seed s left new_resolver)

-- `invalidated_tids`
unfoldable pub invalidated_tids : List ThesisEvent → List String → List String
invalidated_tids [] tids = tids
invalidated_tids (invalidated id _ _ ∷ es) tids =
    invalidated_tids es (if str_eq id "" then tids else include id tids)
invalidated_tids (created _ _ ∷ es) tids = invalidated_tids es tids

abbrev pub Horizons : Type 0
Horizons = Dict (ℕ × ℕ)

-- `horizon_by_tid`
unfoldable pub horizon_by_tid : List ThesisEvent → Horizons → Horizons
horizon_by_tid [] horizons = horizons
horizon_by_tid (created thesis time ∷ es) horizons =
    let hours : ℕ = elim thesis.time_horizon_hours [ none ↦ 8 | some hours ↦ hours ] in
    horizon_by_tid es
      (if str_eq thesis.id "" then horizons else insert thesis.id (time, hours) horizons)
horizon_by_tid (invalidated _ _ _ ∷ es) horizons = horizon_by_tid es horizons

-- The thesis of a position, through the decision that opened it.
unfoldable pub thesis_of : Dict Decision → Position → Option String
thesis_of decision_store pos = elim (lookup pos.decision_id decision_store) [
  | none ↦ none
  | some d ↦ if str_eq d.originating_thesis_id "" then none else some d.originating_thesis_id
]

-- The thesis is dead: invalidated, unknown, or past its horizon.
unfoldable pub is_dead : List String → Horizons → ℕ → Option String → Bool
is_dead tids horizons now none = true
is_dead tids horizons now (some tid) = if mem tid tids then true else elim (lookup tid horizons) [
  | none ↦ true
  | some (created_at, hours) ↦ leb (created_at + hours * 3_600_000_000) now
]

unfoldable pub orphans_among : (Option String → Bool) → Dict Decision → Dict Position → List String
orphans_among dead decision_store [] = []
orphans_among dead decision_store ((instrument, pos) ∷ positions) =
    let rest = orphans_among dead decision_store positions in
    if dead (thesis_of decision_store pos) then instrument ∷ rest else rest

abbrev pub is_created : ThesisEvent → Bool
is_created (created _ _) = true
is_created (invalidated _ _ _) = false

abbrev pub is_invalidated : ThesisEvent → Bool
is_invalidated e = not (is_created e)

-- The instruments that `_reconcile_orphan_positions` hands to the executor.
unfoldable pub orphans : List ThesisEvent → Dict Decision → ℕ → Dict Position → List String
orphans log decision_store now =
    let begun = last history_limit (keep is_created log) in
    let ended = last history_limit (keep is_invalidated log) in
    orphans_among (is_dead (invalidated_tids ended []) (horizon_by_tid begun []) now) decision_store
