-- ===== src/Reasoning/Invalidator.antt =====
-- reasoning/thesis/invalidator.py, `ThesisInvalidator`. Times are microseconds. An id is the text of
-- its UUID; `uuid` stands for the parser of the standard library, `none` where it raises. A horizon
-- is the count of hours of the thesis schema, so that `int` does not raise on it.
pub mod Endings
pub mod Restart
use afterhours.Prelude.{
  ℕ, ◌+◌, ◌*◌, String, Bool, Option, none, some, List, [], ◌∷◌, ◌++◌, str_eq, leb, if◌then◌else◌,
}
use afterhours.Prelude.Dict.{Dict, lookup, insert, erase}
use afterhours.Prelude.Texts.{mem, include}
use afterhours.Core.Store.{last}

-- The payload of `thesis.created`, as far as it is read here.
pub record Thesis : Type 0 where
  pub id : String
  pub time_horizon_hours : Option ℕ
  pub instrument : String

-- The events of the store that matter here, with their event times: a thesis, and the end of one
-- with its instrument.
pub data ThesisEvent : Type 0 where
  created : Thesis → ℕ → ThesisEvent
  invalidated : String → String → ℕ → ThesisEvent

-- thesis_id → (expiry_time, instrument)
abbrev pub Active : Type 0
Active = Dict (ℕ × String)

-- When and for what the thesis ends.
unfoldable pub armed : Thesis → ℕ → ℕ × String
armed thesis event_time = (
  event_time + elim thesis.time_horizon_hours [ none ↦ 8 | some hours ↦ hours ] * 3_600_000_000,
  thesis.instrument,
)

-- The theses whose time is over.
unfoldable pub expired : ℕ → Active → List String
expired now [] = []
expired now ((id, (expiry, _)) ∷ active) =
    let rest = expired now active in if leb expiry now then id ∷ rest else rest

-- The tracked theses, and the store: every event that was published, the oldest first.
pub record Invalidator : Type 0 where
  pub active : Active
  pub log : List ThesisEvent

abbrev pub new_invalidator : Invalidator
new_invalidator = record { active = []; log = [] }

-- One round of the loop over the expired theses.
unfoldable pub expire : String → ℕ → Invalidator → Invalidator
expire id now i = elim (lookup id i.active) [
  | none ↦ i
  | some (_, instrument) ↦ record {
    active = erase id i.active;
    log = i.log ++ invalidated id instrument now ∷ [];
  }
]

unfoldable pub expire_each : List String → ℕ → Invalidator → Invalidator
expire_each [] now i = i
expire_each (id ∷ ids) now i = expire_each ids now (expire id now i)

-- One turn of `_expiry_loop`
unfoldable pub expiry_sweep : ℕ → Invalidator → Invalidator
expiry_sweep now i = expire_each (expired now i.active) now i

-- What the scan of the store collects.
pub record Found : Type 0 where
  pub ended : List String
  pub begun : Active

abbrev pub nothing_found : Found
nothing_found = record { ended = []; begun = [] }

-- `_REHYDRATE_LIMIT`
abbrev pub rehydrate_limit : ℕ
rehydrate_limit = 5000

-- `self._active.update(...)` with the theses that have not ended
unfoldable pub rearm : List String → Active → Active → Active
rearm ended [] active = active
rearm ended ((id, v) ∷ begun) active =
    rearm ended begun (if mem id ended then active else insert id v active)

-- What happens to a running process: a thesis is published, or the loop takes a turn.
pub data Move : Type 0 where
  publish : Thesis → ℕ → Move
  sweep : ℕ → Move

module _ (uuid : String → Option String) where
  -- `_handle_thesis`; a fault of the parser stays in the bus.
  unfoldable pub handle_thesis : Thesis → ℕ → Active → Active
  handle_thesis thesis event_time active =
      if str_eq thesis.id "" then active else elim (uuid thesis.id) [
        | none ↦ active
        | some id ↦ insert id (armed thesis event_time) active
      ]

  -- The publication of a thesis: it is stored, and then handled.
  unfoldable pub publish_thesis : Thesis → ℕ → Invalidator → Invalidator
  publish_thesis thesis event_time i = record {
    active = handle_thesis thesis event_time i.active;
    log = i.log ++ created thesis event_time ∷ [];
  }

  -- The body of the loop of `_rehydrate`; `none` is the fault of the parser.
  unfoldable pub scan_one : ThesisEvent → Found → Option Found
  scan_one (invalidated id _ _) found = if str_eq id "" then some found else elim (uuid id) [
    | none ↦ none
    | some tid ↦ some (record found { ended = include tid found.ended })
  ]
  scan_one (created thesis event_time) found =
      if str_eq thesis.id "" then some found else elim (uuid thesis.id) [
        | none ↦ none
        | some tid ↦
            some (record found { begun = insert tid (armed thesis event_time) found.begun })
      ]

  unfoldable pub scan : List ThesisEvent → Found → Option Found
  scan [] found = some found
  scan (e ∷ es) found = elim (scan_one e found) [ none ↦ none | some found' ↦ scan es found' ]

  -- `_rehydrate`: the query reads the end of the store.
  unfoldable pub rehydrate : List ThesisEvent → Active → Option Active
  rehydrate store active = elim (scan (last rehydrate_limit store) nothing_found) [
    | none ↦ none
    | some found ↦ some (rearm found.ended found.begun active)
  ]

  unfoldable pub step : Move → Invalidator → Invalidator
  step (publish thesis event_time) i = publish_thesis thesis event_time i
  step (sweep now) i = expiry_sweep now i

  unfoldable pub run : List Move → Invalidator → Invalidator
  run [] i = i
  run (m ∷ ms) i = run ms (step m i)
