-- ===== src/Core/Store/Latest.antt =====
-- The last value of each series in core/bus/store.py.
use afterhours.Prelude.{
  String, ◌≡◌, refl, ◌∙◌, Bool, true, false, not, ◌&&◌, Option, none, some, List, [], ◌∷◌, arith,
  leb, str_eq, eq_iff, Bool-cases, inl, inr, if◌then◌else◌,
}
use afterhours.Prelude.Dict.{Dict, lookup, insert, lookup-insert}
use afterhours.Prelude.Texts.{mem}
use afterhours.Core.Store.{Stored, keep, note_latest, note_each, latest_per_key}

-- The event is of the wanted types, and its payload has `key` in the field.
unfoldable pub has_key : List String → String → String → Stored → Bool
has_key event_types key_field key e =
    mem e.event_type event_types
    && elim (lookup key_field e.payload) [ none ↦ false | some k ↦ str_eq k key ]

-- The later of an event and one that arrived after it, which wins a tie.
unfoldable pub later : Option Stored → Stored → Stored
later none e = e
later (some cur) e = if leb cur.event_time e.event_time then e else cur

-- The latest of a list of events in the order of their arrival.
unfoldable pub latest_from : Option Stored → List Stored → Option Stored
latest_from best [] = best
latest_from best (e ∷ events) = latest_from (some (later best e)) events

-- One entry is replaced by the later event.
lookup-entry :
    (key k : String) (e : Stored) (result : Dict Stored)
    → lookup key (elim (lookup k result) [
      | none ↦ insert k e result
      | some cur ↦ if leb cur.event_time e.event_time then insert k e result else result
    ])
      ≡ (if str_eq k key then some (later (lookup key result) e) else lookup key result)
unfolding later
lookup-entry key k e result = ground (arith, eq_iff k key, lookup-insert k key e result)

lookup-note_latest :
    (event_types : List String) (key_field key : String) (e : Stored) (result : Dict Stored)
    → lookup key (note_latest event_types key_field e result) ≡ (
        if has_key event_types key_field key e
        then some (later (lookup key result) e)
        else lookup key result)
unfolding note_latest has_key
lookup-note_latest event_types key_field key e result =
    go (mem e.event_type event_types) (lookup key_field e.payload)
  where
    go :
        (wanted : Bool) (o : Option String)
        → lookup key (
            if not wanted then result else elim o [
              | none ↦ result
              | some k ↦ elim (lookup k result) [
                | none ↦ insert k e result
                | some cur ↦ if leb cur.event_time e.event_time then insert k e result else result
              ]
            ])
          ≡ (if wanted && elim o [ none ↦ false | some k ↦ str_eq k key ]
              then some (later (lookup key result) e)
              else lookup key result)
    go false o = refl
    go true none = refl
    go true (some k) = lookup-entry key k e result

lookup-note_each :
    (event_types : List String) (key_field key : String) (events : List Stored)
    → (result : Dict Stored)
    → lookup key (note_each event_types key_field events result)
      ≡ latest_from (lookup key result) (keep (has_key event_types key_field key) events)
unfolding note_each keep latest_from
lookup-note_each event_types key_field key [] result = refl
lookup-note_each event_types key_field key (e ∷ events) result =
    lookup-note_each event_types key_field key events (note_latest event_types key_field e result)
    ∙ elim (Bool-cases (has_key event_types key_field key e)) [
      | inl h ↦ rw (lookup-note_latest, h) refl
      | inr h ↦ rw (lookup-note_latest, h) refl
    ]

-- For every key the store answers with the latest event of that key and of the wanted types, the
-- last to arrive among those of the latest time, and with none where there is none: the entries of
-- the other keys do not matter.
pub lookup-latest_per_key :
    (event_types : List String) (key_field key : String) (events : List Stored)
    → lookup key (latest_per_key event_types key_field events)
      ≡ latest_from none (keep (has_key event_types key_field key) events)
unfolding latest_per_key lookup
lookup-latest_per_key event_types key_field key events =
    lookup-note_each event_types key_field key events []
