-- ===== src/Reasoning/Decisions.antt =====
-- reasoning/decision/generator.py, `DecisionGenerator`. A prompt is what it is built from; its text
-- and its hash are left out. The model's requests are numbered, and so are the new ids. Python's
-- `str` of a value of JSON, `strip().lower()`, the parser of UUIDs, and the conversion of a value
-- to a float that pydantic makes are parameters, as are those of the replies.
pub mod Sound
pub mod Once
use afterhours.Prelude.{
  ℕ, ◌+◌, String, Bool, true, false, not, ◌||◌, ◌&&◌, Option, none, some, List, [], ◌∷◌, ◌++◌,
  str_eq, if◌then◌else◌,
}
use afterhours.Prelude.Dict.{Dict, lookup, insert}
use afterhours.Prelude.Texts.{mem, include}
use afterhours.Decimal.{Decimal, of_ℕ, zero_value, le_decimal}
use afterhours.Core.Events.{
  Raw, absent, malformed, number, Side, side_value, parse_side, Decision, Tick, proposed,
}
use afterhours.Reasoning.Replies as Replies
use afterhours.Reasoning.Replies.{
  Json, Fields, obj, get, iterate, is_truthy, Obtained, raised, unparsed, parsed, obtain, Library,
}

-- The payload of `thesis.created`; a missing text is empty.
pub record ThesisPayload : Type 0 where
  pub id : String
  pub instrument : String
  pub status : String
  pub summary : String
  pub body : String
  pub direction : String
  pub confidence : Raw
  pub supporting_signal_ids : List String

-- What the prompt is built from.
pub record DecisionPrompt : Type 0 where
  pub instrument : String
  pub thesis_summary : String
  pub thesis_body : String
  pub thesis_direction : String
  pub thesis_confidence : Decimal
  pub signal_ids : List String
  pub current_price : Option Decimal

-- `Evidence`
pub record Evidence : Type 0 where
  pub signal_id : String
  pub summary : String
  pub stance : String

-- The payload of `decision.proposed`: the decision, and what only the audit reads.
pub record ProposedDecision : Type 0 where
  pub decision : Decision
  pub created_at : ℕ
  pub input_signal_ids : List String
  pub reasoning : String
  pub evidence : List Evidence

-- `published` is what the generator put on the bus, the oldest first.
pub record Generator : Type 0 where
  pub processed_thesis_ids : List String
  pub prices : Dict Decimal
  pub asked : ℕ
  pub published : List ProposedDecision

abbrev pub new_generator : Generator
new_generator = record { processed_thesis_ids = []; prices = []; asked = 0; published = [] }

-- `TimeHorizon(text)` is not a ValueError.
unfoldable pub is_horizon : String → Bool
is_horizon s = str_eq s "scalp" || str_eq s "intraday" || str_eq s "swing" || str_eq s "position"

unfoldable pub is_stance : String → Bool
is_stance s = str_eq s "supporting" || str_eq s "contradicting"

-- `Field(ge=0.0, le=1.0)`
unfoldable pub is_confidence : Decimal → Bool
is_confidence c = le_decimal zero_value c && le_decimal c (of_ℕ 1)

-- `_handle_tick`; a price that is no number raises.
unfoldable pub handle_tick : Tick → Generator → Generator
handle_tick tick g = if str_eq tick.instrument "" then g else elim tick.price [
  | absent ↦ g
  | malformed ↦ g
  | number price ↦ record g { prices = insert tick.instrument price g.prices }
]

-- What reaches the generator: a tick, or a thesis with the watchlist of its time.
pub data Arrival : Type 0 where
  market_tick : Tick → Arrival
  thesis_created : Option (List String) → ThesisPayload → ℕ → Arrival

module _ (lib : Library) where
  -- `_as_uuid`, empty where it is None
  unfoldable pub as_uuid : String → String
  as_uuid raw = if str_eq raw "" then "" else elim (lib.uuid raw) [ none ↦ "" | some id ↦ id ]

  -- The loop over `supporting_signal_ids`.
  unfoldable pub parsed_ids : List String → List String
  parsed_ids [] = []
  parsed_ids (raw ∷ ids) =
      let rest = parsed_ids ids in elim (lib.uuid raw) [ none ↦ rest | some id ↦ id ∷ rest ]

  -- `str(data.get(key, default))`
  abbrev pub get_str : String → String → Fields → String
  get_str key default reply = elim (get key reply) [ none ↦ default | some v ↦ lib.str v ]

  -- One round of the loop over the evidence of a reply, on an object: what is appended.
  unfoldable pub cite : Fields → List Evidence
  cite e = elim (get "signal_id" e) [
    | none ↦ []
    | some raw_id ↦ if not (is_truthy raw_id) then [] else elim (lib.uuid (lib.str raw_id)) [
      | none ↦ []
      | some id ↦
          let stance = lib.normal (get_str "stance" "supporting" e) in
          if is_stance stance
          then record { signal_id = id; summary = get_str "summary" "" e; stance = stance } ∷ []
          else []
    ]
  ]

  -- The loop; `none` is the AttributeError of a member that is no object.
  unfoldable pub cite_each : List Json → Option (List Evidence)
  cite_each [] = some []
  cite_each (obj e ∷ items) = elim (cite_each items) [
    | none ↦ none
    | some rest ↦ some (cite e ++ rest)
  ]
  cite_each (_ ∷ items) = none

  unfoldable pub evidence_of : Fields → Option (List Evidence)
  evidence_of reply = elim (get "evidence" reply) [
    | none ↦ some []
    | some value ↦ elim (iterate value) [ none ↦ none | some items ↦ cite_each items ]
  ]

  -- `confidence=data.get("confidence")`, validated
  unfoldable pub confidence_of : Fields → Option Decimal
  confidence_of reply = elim (get "confidence" reply) [
    | none ↦ none
    | some value ↦ elim (lib.to_float value) [
      | none ↦ none
      | some c ↦ if is_confidence c then some c else none
    ]
  ]

  -- The decision of a reply that passes the schema; `none` is the ValidationError.
  unfoldable pub validated :
      ThesisPayload → ℕ → String → Fields → List Evidence → Option ProposedDecision
  validated thesis now id reply [] = none
  validated thesis now id reply (e ∷ evidence) =
      let horizon = lib.normal (get_str "time_horizon" "" reply) in
      elim (parse_side (lib.normal (get_str "side" "" reply))) [
        | none ↦ none
        | some side ↦ if not (is_horizon horizon) then none else elim (confidence_of reply) [
          | none ↦ none
          | some confidence ↦ some (record {
            decision = record {
              id = id;
              originating_thesis_id = as_uuid thesis.id;
              confidence = confidence;
              proposal = record {
                instrument = thesis.instrument;
                side = some (side_value side);
                size_usd = number zero_value;
                time_horizon = horizon;
              };
              risk = none;
              status = proposed;
              human = none;
            };
            created_at = now;
            input_signal_ids = parsed_ids thesis.supporting_signal_ids;
            reasoning = get_str "reasoning" "" reply;
            evidence = e ∷ evidence;
          })
        ]
      ]

  module _ (ask : ℕ → Option (List ℕ) → DecisionPrompt → Option (List ℕ)) where
    -- The rest of `_generate` on a reply's object: an exception of the loop over the evidence, a
    -- decision that fails the schema, or a publication.
    unfoldable pub propose : ThesisPayload → ℕ → Fields → Generator → Generator
    propose thesis now reply g = elim (evidence_of reply) [
      | none ↦ g
      | some evidence ↦ elim (validated thesis now (lib.new_id g.asked) reply evidence) [
        | none ↦ g
        | some decision ↦ record g { published = g.published ++ decision ∷ [] }
      ]
    ]

    unfoldable pub take_reply : ThesisPayload → ℕ → ℕ × Obtained → Generator → Generator
    take_reply thesis now (asked, parsed reply) g =
        propose thesis now reply (record g { asked = asked })
    take_reply thesis now (asked, _) g = record g { asked = asked }

    -- `float(thesis.get("confidence", 0.0))` comes before the requests; `none` is its exception.
    unfoldable pub prompt_of : ThesisPayload → Generator → Option DecisionPrompt
    prompt_of thesis g =
        let prompt_with : Decimal → DecisionPrompt = λ confidence. record {
          instrument = thesis.instrument;
          thesis_summary = thesis.summary;
          thesis_body = thesis.body;
          thesis_direction = thesis.direction;
          thesis_confidence = confidence;
          signal_ids = parsed_ids thesis.supporting_signal_ids;
          current_price = lookup thesis.instrument g.prices;
        } in
        elim thesis.confidence [
          | absent ↦ some (prompt_with zero_value)
          | malformed ↦ none
          | number c ↦ some (prompt_with c)
        ]

    -- `_generate`
    unfoldable pub generate : ThesisPayload → ℕ → Generator → Generator
    generate thesis now g = elim (prompt_of thesis g) [
      | none ↦ g
      | some prompt ↦ take_reply thesis now (obtain lib.is_space lib.loads ask prompt g.asked) g
    ]

    -- `_handle_thesis` goes on to generate: it has an id and an instrument, is active, was not
    -- processed, and is on the watchlist, where there is one.
    unfoldable pub accepts : Option (List String) → ThesisPayload → Generator → Bool
    accepts watched thesis g =
        not (str_eq thesis.id "" || str_eq thesis.instrument "")
        && (str_eq thesis.status "active" || str_eq thesis.status "")
        && not (mem thesis.id g.processed_thesis_ids)
        && elim watched [ none ↦ true | some active ↦ mem thesis.instrument active ]

    -- `_handle_thesis`; the bus keeps an exception.
    unfoldable pub handle_thesis : Option (List String) → ThesisPayload → ℕ → Generator → Generator
    handle_thesis watched thesis event_time g =
        if accepts watched thesis g
        then generate thesis event_time
            (record g { processed_thesis_ids = include thesis.id g.processed_thesis_ids })
        else g

    unfoldable pub step : Arrival → Generator → Generator
    step (market_tick t) g = handle_tick t g
    step (thesis_created watched payload event_time) g = handle_thesis watched payload event_time g

    unfoldable pub run : List Arrival → Generator → Generator
    run [] g = g
    run (a ∷ arrivals) g = run arrivals (step a g)
