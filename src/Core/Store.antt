-- ===== src/Core/Store.antt =====
-- core/bus/store.py, `InMemoryEventStore`: the queries that the restart, the user interface and the
-- backtest make on the log. Of an event the model keeps its type, its `event_time` and the values of
-- its payload, as texts. `append` is idempotent in the durable store only.
pub mod Range
pub mod Latest
pub mod Recent
use mathlib.Core.List
use afterhours.Prelude.{
  ℕ, zero, suc, ◌-◌, String, Bool, true, false, ◌&&◌, not, Option, none, some, List, [], ◌∷◌, ◌++◌,
  length, leb, ltb, ◌==◌, if◌then◌else◌,
}
use afterhours.Prelude.Dict.{Dict, lookup, insert}
use afterhours.Prelude.Texts.{mem}

-- `EventEnvelope`, as the store reads it
pub record Stored : Type 0 where
  pub event_type : String
  pub event_time : ℕ
  pub payload : Dict String

-- `InMemoryEventStore.append`
unfoldable pub append : Stored → List Stored → List Stored
append e events = events ++ e ∷ []

-- A list comprehension with a condition.
unfoldable pub keep {ℓ} : {A : Type ℓ} → (A → Bool) → List A → List A
keep p [] = []
keep p (x ∷ xs) = let rest = keep p xs in if p x then x ∷ rest else rest

-- `xs[n:]`
unfoldable pub drop {ℓ} : {A : Type ℓ} → ℕ → List A → List A
drop zero xs = xs
drop (suc n) [] = []
drop (suc n) (x ∷ xs) = drop n xs

-- `payload_type is None or e.payload.get("type") in payload_type`
unfoldable pub has_type : Option (List String) → Stored → Bool
has_type none e = true
has_type (some types) e = elim (lookup "type" e.payload) [ none ↦ false | some t ↦ mem t types ]

-- `matching[-limit:]`: a limit of 0 gives the whole list.
unfoldable pub last {ℓ} : {A : Type ℓ} → ℕ → List A → List A
last limit xs = if limit == 0 then xs else drop (length xs - limit) xs

-- `InMemoryEventStore.recent`
unfoldable pub recent : List String → ℕ → Option (List String) → List Stored → List Stored
recent event_types limit payload_type events =
    last limit (keep (λ e. mem e.event_type event_types && has_type payload_type e) events)

-- `start is None or e.event_time >= start`, and the other bound
unfoldable pub within : Option ℕ → Option ℕ → ℕ → Bool
within start end time =
    elim start [ none ↦ true | some s ↦ leb s time ]
    && elim end [ none ↦ true | some t ↦ leb time t ]

-- `sorted(..., key=lambda e: e.event_time)`, which is stable
unfoldable pub insert_by_time : Stored → List Stored → List Stored
insert_by_time e [] = e ∷ []
insert_by_time e (f ∷ events) =
    let rest = insert_by_time e events in
    if leb e.event_time f.event_time then e ∷ f ∷ events else f ∷ rest

unfoldable pub sort_by_time : List Stored → List Stored
sort_by_time [] = []
sort_by_time (e ∷ events) = insert_by_time e (sort_by_time events)

-- `InMemoryEventStore.range`
unfoldable pub range : List String → Option ℕ → Option ℕ → List Stored → List Stored
range event_types start end events =
    sort_by_time (keep (λ e. mem e.event_type event_types && within start end e.event_time) events)

-- One round of the loop of `latest_per_key`.
unfoldable pub note_latest : List String → String → Stored → Dict Stored → Dict Stored
note_latest event_types key_field e result =
    if not (mem e.event_type event_types) then result else elim (lookup key_field e.payload) [
      | none ↦ result
      | some key ↦ elim (lookup key result) [
        | none ↦ insert key e result
        | some cur ↦ if leb cur.event_time e.event_time then insert key e result else result
      ]
    ]

unfoldable pub note_each : List String → String → List Stored → Dict Stored → Dict Stored
note_each event_types key_field [] result = result
note_each event_types key_field (e ∷ events) result =
    note_each event_types key_field events (note_latest event_types key_field e result)

-- `InMemoryEventStore.latest_per_key`
unfoldable pub latest_per_key : List String → String → List Stored → Dict Stored
latest_per_key event_types key_field events = note_each event_types key_field events []

-- `InMemoryEventStore.prune`: the number of events deleted, and those that stay.
unfoldable pub prune : List String → ℕ → List Stored → ℕ × List Stored
prune event_types before events =
    let kept = keep (λ e. not (mem e.event_type event_types && ltb e.event_time before)) events in
    (length events - length kept, kept)
