-- ===== src/Reasoning/Theses.antt =====
-- reasoning/thesis/generator.py, `ThesisGenerator`. Times are microseconds. What the prompt shows of a
-- signal is its content. The requests and the new ids are numbered; Python's `str`, `float` and
-- `int` of a value of JSON, the parser of UUIDs and the parameters of the replies are those of the
-- standard library.
pub mod Spaced
pub mod Fresh
pub mod Windows
use afterhours.Prelude.{
  ℕ, ◌+◌, ◌*◌, String, Bool, true, false, not, ◌||◌, ◌&&◌, Option, none, some, List, [], ◌∷◌, ◌++◌,
  map, length, ltb, leb, str_eq, if◌then◌else◌,
}
use afterhours.Prelude.Int.{ℤ, pos}
use afterhours.Prelude.Dict.{Dict, lookup, insert}
use afterhours.Prelude.Texts.{mem}
use afterhours.Decimal.{Decimal, zero_value}
use afterhours.Core.Store.{last}
use afterhours.Reasoning.Replies.{
  Json, Fields, get, iterate, Obtained, raised, unparsed, parsed, obtain, Library,
}

-- `ThesisSettings`
pub record ThesisSettings : Type 0 where
  pub min_signals_to_trigger : ℕ
  pub signal_window_minutes : ℕ
  pub cooldown_minutes : ℕ
  pub max_signals_per_prompt : ℕ
  pub expiry_hours : ℕ

-- The payload of `signal.created`; a missing text is empty.
pub record SignalPayload : Type 0 where
  pub id : String
  pub type_name : String
  pub instruments : List String
  pub content : String

-- What the prompt is built from.
pub record ThesisPrompt : Type 0 where
  pub instrument : String
  pub signals : List SignalPayload
  pub current_price : Option String

-- The payload of `thesis.created`, less its `updated_at` and status.
pub record CreatedThesis : Type 0 where
  pub id : String
  pub created_at : ℕ
  pub instrument : String
  pub summary : String
  pub body : String
  pub invalidation_conditions : List String
  pub supporting_signal_ids : List String
  pub direction : String
  pub confidence : Decimal
  pub time_horizon_hours : ℤ

abbrev pub Buffer : Type 0
Buffer = List (ℕ × SignalPayload)

-- `generating` is the log of the generations begun, and `published` what was put on the bus, both
-- the oldest first.
pub record ThesisGenerator : Type 0 where
  pub buffers : Dict Buffer
  pub cooldowns : Dict ℕ
  pub last_prices : Dict String
  pub asked : ℕ
  pub generating : List (String × ℕ)
  pub published : List CreatedThesis

abbrev pub new_thesis_generator : ThesisGenerator
new_thesis_generator = record {
  buffers = [];
  cooldowns = [];
  last_prices = [];
  asked = 0;
  generating = [];
  published = [];
}

-- What reaches the generator: the texts of a tick, or a signal with the watchlist of its time.
pub data Arrival : Type 0 where
  market_tick : String → String → Arrival
  signal_created : Option (List String) → SignalPayload → ℕ → Arrival

-- How a handler ends: it returns, or an exception leaves it.
pub data Outcome : Type 0 where
  returned failed : ThesisGenerator → Outcome

abbrev pub state_of : Outcome → ThesisGenerator
state_of (returned g) = g
state_of (failed g) = g

-- `payload.get("type") in _SEED_SIGNAL_TYPES`
unfoldable pub is_seed : SignalPayload → Bool
is_seed signal = mem signal.type_name ("insider_tx" ∷ "congressional_tx" ∷ "gov_contract" ∷ [])

-- `_handle_tick`, on the texts of a tick
unfoldable pub handle_tick : String → String → ThesisGenerator → ThesisGenerator
handle_tick instrument price g =
    if str_eq instrument "" || str_eq price ""
    then g
    else record g { last_prices = insert instrument price g.last_prices }

-- `while buf and buf[0][0] < cutoff: buf.popleft()`
unfoldable pub pop_stale : ℕ → ℕ → Buffer → Buffer
pop_stale width now [] = []
pop_stale width now ((t, s) ∷ buf) =
    let rest = pop_stale width now buf in if ltb (t + width) now then rest else (t, s) ∷ buf

-- `self._buffers[instrument]`
unfoldable pub buffer_of : String → ThesisGenerator → Buffer
buffer_of instrument g = elim (lookup instrument g.buffers) [ none ↦ [] | some buf ↦ buf ]

-- The buffer of the instrument with a signal, without what is older than the window.
unfoldable pub extended : ThesisSettings → String → SignalPayload → ℕ → ThesisGenerator → Buffer
extended s instrument signal now g =
    pop_stale (s.signal_window_minutes * 60_000_000) now
      (buffer_of instrument g ++ (now, signal) ∷ [])

-- `_cooldown_ok`, less the note that it takes
unfoldable pub cooldown_ok : ThesisSettings → String → ℕ → ThesisGenerator → Bool
cooldown_ok s instrument now g = elim (lookup instrument g.cooldowns) [
  | none ↦ true
  | some last ↦ leb (last + s.cooldown_minutes * 60_000_000) now
]

-- `instrument not in self._watchlist.active_instruments`, where there is a watchlist
unfoldable pub is_ignored : Option (List String) → String → Bool
is_ignored none instrument = false
is_ignored (some active) instrument = not (mem instrument active)

module _ (lib : Library) where
  -- The ids of the signals of a prompt.
  unfoldable pub signal_ids : List SignalPayload → List String
  signal_ids [] = []
  signal_ids (s ∷ signals) =
      let rest = signal_ids signals in
      if str_eq s.id "" then rest else elim (lib.uuid s.id) [ none ↦ rest | some id ↦ id ∷ rest ]

  -- `str(data.get(key, default))`
  abbrev pub get_str : String → String → Fields → String
  get_str key default reply = elim (get key reply) [ none ↦ default | some v ↦ lib.str v ]

  -- `[str(c) for c in data.get("invalidation_conditions", [])]`; `none` is the TypeError.
  unfoldable pub conditions : Fields → Option (List String)
  conditions reply = elim (get "invalidation_conditions" reply) [
    | none ↦ some []
    | some v ↦ elim (iterate v) [ none ↦ none | some members ↦ some (map lib.str members) ]
  ]

  -- `float(data.get("confidence", 0.0))` and `int(data.get("time_horizon_hours", ...))`; `none`
  -- where they raise.
  unfoldable pub confidence_of : Fields → Option Decimal
  confidence_of reply = elim (get "confidence" reply) [
    | none ↦ some zero_value
    | some v ↦ lib.to_float v
  ]

  unfoldable pub horizon_of : ThesisSettings → Fields → Option ℤ
  horizon_of s reply = elim (get "time_horizon_hours" reply) [
    | none ↦ some (pos s.expiry_hours)
    | some v ↦ lib.to_int v
  ]

  -- The thesis of a reply; `none` where its construction raises.
  unfoldable pub thesis_of :
      ThesisSettings → String → String → List SignalPayload → ℕ → Fields → Option CreatedThesis
  thesis_of s id instrument signals now reply = elim (conditions reply) [
    | none ↦ none
    | some invalidation_conditions ↦ elim (confidence_of reply) [
      | none ↦ none
      | some confidence ↦ elim (horizon_of s reply) [
        | none ↦ none
        | some hours ↦ some (record {
          id = id;
          created_at = now;
          instrument = get_str "instrument" instrument reply;
          summary = get_str "summary" "" reply;
          body = get_str "body" "" reply;
          invalidation_conditions = invalidation_conditions;
          supporting_signal_ids = signal_ids signals;
          direction = get_str "direction" "neutral" reply;
          confidence = confidence;
          time_horizon_hours = hours;
        })
      ]
    ]
  ]

  module _ (ask : ℕ → Option (List ℕ) → ThesisPrompt → Option (List ℕ)) where
    -- The rest of `_generate` after the requests.
    unfoldable pub conclude :
        ThesisSettings → String → List SignalPayload → ℕ → ℕ × Obtained → ThesisGenerator → Outcome
    conclude s instrument signals now (asked, raised) g = failed (record g { asked = asked })
    conclude s instrument signals now (asked, unparsed) g = returned (record g { asked = asked })
    conclude s instrument signals now (asked, parsed reply) g =
        elim (thesis_of s (lib.new_id asked) instrument signals now reply) [
          | none ↦ failed (record g { asked = asked })
          | some thesis ↦
              returned (record g { asked = asked; published = g.published ++ thesis ∷ [] })
        ]

    -- `_generate`, with the buffer
    unfoldable pub generate : ThesisSettings → String → Buffer → ℕ → ThesisGenerator → Outcome
    generate s instrument buffered now g =
        let signals =
          map (λ (e : ℕ × SignalPayload). e.1) (last s.max_signals_per_prompt buffered) in
        let prompt : ThesisPrompt = record {
          instrument = instrument;
          signals = signals;
          current_price = lookup instrument g.last_prices;
        } in
        conclude s instrument signals now (obtain lib.is_space lib.loads ask prompt g.asked)
          (record g { generating = g.generating ++ (instrument, now) ∷ [] })

    -- One round of the loop of `_handle_signal`, on an instrument that is not ignored.
    unfoldable pub offer : ThesisSettings → String → SignalPayload → ℕ → ThesisGenerator → Outcome
    offer s instrument signal now g =
        let buf = extended s instrument signal now g in
        let g' : ThesisGenerator = record g { buffers = insert instrument buf g.buffers } in
        if (leb s.min_signals_to_trigger (length buf) || is_seed signal)
          && cooldown_ok s instrument now g
        then generate s instrument buf now
            (record g' { cooldowns = insert instrument now g.cooldowns })
        else returned g'

    -- The loop: an exception ends it.
    unfoldable pub offer_each :
        ThesisSettings
        → Option (List String)
        → List String
        → SignalPayload
        → ℕ
        → ThesisGenerator
        → Outcome
    offer_each s watched [] signal now g = returned g
    offer_each s watched (instrument ∷ instruments) signal now g =
        elim (is_ignored watched instrument) [
          | true ↦ offer_each s watched instruments signal now g
          | false ↦ elim (offer s instrument signal now g) [
            | returned g' ↦ offer_each s watched instruments signal now g'
            | failed g' ↦ failed g'
          ]
        ]

    -- `_handle_signal`; the bus keeps an exception.
    unfoldable pub handle_signal :
        ThesisSettings
        → Option (List String)
        → SignalPayload
        → ℕ
        → ThesisGenerator
        → ThesisGenerator
    handle_signal s watched signal ingest_time g =
        state_of (offer_each s watched signal.instruments signal ingest_time g)

    unfoldable pub step : ThesisSettings → Arrival → ThesisGenerator → ThesisGenerator
    step s (market_tick instrument price) g = handle_tick instrument price g
    step s (signal_created watched signal ingest_time) g =
        handle_signal s watched signal ingest_time g

    unfoldable pub run : ThesisSettings → List Arrival → ThesisGenerator → ThesisGenerator
    run s [] g = g
    run s (a ∷ arrivals) g = run s arrivals (step s a g)
