-- ===== src/Discovery/Extraction.antt =====
-- discovery/extract.py and discovery/resolve.py. `str.strip` and `str.upper` are parameters.
use afterhours.Prelude.{
  ℕ, String, ◌||◌, Option, none, some, List, [], ◌∷◌, ◌++◌, str_eq, if◌then◌else◌,
}
use afterhours.Prelude.Texts.{mem}
use afterhours.Discovery.Floats.{Floats, one_float, clamp}
use afterhours.Discovery.Scoring.{Contribution}

-- The payload of `signal.created`, with the keys of its inner payload that are read here; a missing
-- text is empty.
pub record Signal (F : Type 0) : Type 0 where
  pub id : String
  pub type_name : String
  pub instruments : List String
  pub relevance_score : Option F
  pub factor : String
  pub summary : String
  pub direction : Option String

module _ {F : Type 0} (fl : Floats F) where
  -- The signed magnitude of a signal.
  unfoldable pub signed_value : Option F → String → F
  signed_value relevance direction =
      let magnitude : F = elim relevance [ none ↦ fl.literal 5 1 | some r ↦ r ] in
      let sign = if str_eq direction "sell" then fl.neg (one_float fl) else (one_float fl) in
      let damped =
        if str_eq direction "neutral" then fl.mul magnitude (fl.literal 5 1) else magnitude in
      clamp fl (fl.mul sign damped) (fl.neg (one_float fl)) (one_float fl)

  unfoldable pub contributions_for : Signal F → ℕ → List String → List (Contribution F)
  contributions_for signal event_time [] = []
  contributions_for signal event_time (instrument ∷ instruments) =
      record {
        instrument = instrument;
        factor = signal.factor;
        value =
            signed_value signal.relevance_score
              (elim signal.direction [ none ↦ "neutral" | some d ↦ d ]);
        event_time = event_time;
        summary = signal.summary;
        source = signal.type_name;
        signal_id = signal.id;
      }
      ∷ contributions_for signal event_time instruments

  module _ (strip upper : String → String) where
    -- One round of the loop of `resolve_instruments`; `out` holds what `seen` does.
    unfoldable pub resolve_one : String → List String → List String
    resolve_one item out =
        let key = upper (strip item) in
        if str_eq item "" || str_eq (strip item) ""
        then out
        else if mem key out
        then out
        else out ++ key ∷ []

    unfoldable pub resolve_each : List String → List String → List String
    resolve_each [] out = out
    resolve_each (item ∷ raw) out = resolve_each raw (resolve_one item out)

    -- `resolve_instruments`
    abbrev pub resolve_instruments : List String → List String
    resolve_instruments raw = resolve_each raw []

    -- `contributions_from_signal`, on a `signal.created`
    unfoldable pub contributions_from_signal : Signal F → ℕ → List (Contribution F)
    contributions_from_signal signal event_time =
        if str_eq signal.factor "" || str_eq signal.summary ""
        then []
        else contributions_for signal event_time (resolve_instruments signal.instruments)
