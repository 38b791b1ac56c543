-- ===== src/Tests/Theses.antt =====
-- The theorems on theses, decisions and the model's replies at concrete inputs.

use Prim.Native.Char.{code}
use afterhours.Prelude.{
  ℕ, ◌*◌, String, ◌≡◌, refl, true, ◌||◌, ◌&&◌, Option, none, some, List, [], ◌∷◌, ◌++◌, arith, ◌==◌,
  length, leb, All, if◌then◌else◌,
}
use afterhours.Prelude.Int.{pos}
use afterhours.Prelude.Texts.{mem}
use afterhours.Core.Events.{number}
use afterhours.Reasoning.Replies.{
  Json, Fields, end, field, text, obj, arr, cons, nil, Library, opening, closing, extract_json,
}
use afterhours.Reasoning.Replies.Fenced.{extract_json-fenced}
use afterhours.Reasoning.Decisions.{
  ThesisPayload, DecisionPrompt, ProposedDecision, Generator, new_generator, Arrival,
  thesis_created, accepts, handle_thesis,
}
use afterhours.Reasoning.Decisions as Decisions
use afterhours.Reasoning.Decisions.Sound.{IsSound, AnswersOne, run-IsSound}
use afterhours.Reasoning.Decisions.Once.{IsFrugal, run-IsFrugal, run-once}
use afterhours.Reasoning.Theses.{
  ThesisSettings, SignalPayload, ThesisPrompt, new_thesis_generator, signal_created, is_seed, offer,
  state_of,
}
use afterhours.Reasoning.Theses as Theses
use afterhours.Reasoning.Theses.Spaced.{IsSpaced, generating-IsSpaced}
use afterhours.Reasoning.Theses.Fresh.{Offers, is_due}
use afterhours.Reasoning.Theses.Windows.{window, offer_all, offer-fires}
use afterhours.Tests.Samples.{decimal, second}

abbrev codes : String → List ℕ
codes String.[] = []
codes (String.◌∷◌ c s) = code c ∷ codes s

-- The object of every reply: a long trade over days.
abbrev trade : Fields
trade = field "side" (text "long") (
    field "time_horizon" (text "swing") (
      field "confidence" (Json.number (decimal 6 1))
        (field "evidence" (arr (cons (obj (field "signal_id" (text "s-1") end)) nil)) end)))

abbrev library : Library
library = record {
  is_space = λ c. c == 32 || c == 10;
  loads = λ _. some (obj trade);
  uuid = λ s. some s;
  str = λ v. elim v [ text s ↦ s | _ ↦ "" ];
  normal = λ s. s;
  to_float = λ v. elim v [ Json.number d ↦ some d | _ ↦ none ];
  to_int = λ _. some (pos 8);
  new_id = λ _. "d-1";
}

abbrev before : List ℕ
before = codes "Here it is: ```json "

abbrev inside : List ℕ
inside = codes "\"side\": \"long\""

abbrev after : List ℕ
after = codes " ``` Good luck."

extract_json-fenced_example :
    extract_json library.is_space library.loads (before ++ opening ∷ (inside ++ closing ∷ after))
    ≡ some trade
extract_json-fenced_example =
    extract_json-fenced library.is_space refl refl library.loads before inside after (ground arith)
      (ground arith) (ground arith)

abbrev reply : List ℕ
reply = before ++ opening ∷ (inside ++ closing ∷ after)

abbrev ask_decision : ℕ → Option (List ℕ) → DecisionPrompt → Option (List ℕ)
ask_decision n quoted prompt = some reply

abbrev thesis : ThesisPayload
thesis = record {
  id = "t-1";
  instrument = "BTC-USD";
  status = "active";
  summary = "";
  body = "";
  direction = "long";
  confidence = number (decimal 6 1);
  supporting_signal_ids = "s-1" ∷ [];
}

abbrev watched : Option (List String)
watched = some ("BTC-USD" ∷ [])

abbrev arrivals : List Arrival
arrivals = thesis_created watched thesis (5 * second) ∷ []

run-IsSound_example :
    All
      (λ (p : ProposedDecision). IsSound library p × AnswersOne p arrivals)
      (Decisions.run library ask_decision arrivals new_generator).published
run-IsSound_example = run-IsSound library ask_decision arrivals

run-IsFrugal_example : IsFrugal (Decisions.run library ask_decision arrivals new_generator)
run-IsFrugal_example = run-IsFrugal library ask_decision arrivals

was_accepted : accepts library ask_decision watched thesis new_generator ≡ true
unfolding accepts mem
was_accepted = refl

run-once_example :
    let g =
      Decisions.run library ask_decision arrivals
        (handle_thesis library ask_decision watched thesis (5 * second) new_generator) in
    handle_thesis library ask_decision none thesis (9 * second) g ≡ g
run-once_example =
    run-once library ask_decision watched none thesis thesis (5 * second) (9 * second) arrivals
      new_generator was_accepted refl

abbrev settings : ThesisSettings
settings = record {
  min_signals_to_trigger = 2;
  signal_window_minutes = 15;
  cooldown_minutes = 60;
  max_signals_per_prompt = 10;
  expiry_hours = 8;
}

abbrev signal : SignalPayload
signal = record { id = "s-1"; type_name = "news"; instruments = "BTC-USD" ∷ []; content = "" }

abbrev ask_thesis : ℕ → Option (List ℕ) → ThesisPrompt → Option (List ℕ)
ask_thesis n quoted prompt = some reply

abbrev minute : ℕ
minute = 60 * second

generating-IsSpaced_example :
    IsSpaced
      (60 * 60_000_000)
      (Theses.run library ask_thesis settings
        (signal_created none signal 0
          ∷ signal_created none signal (5 * minute)
          ∷ signal_created none signal (10 * minute)
          ∷ [])
        new_thesis_generator).generating
generating-IsSpaced_example = generating-IsSpaced settings library ask_thesis (
    signal_created none signal 0
    ∷ signal_created none signal (5 * minute)
    ∷ signal_created none signal (10 * minute)
    ∷ [])

abbrev offers : Offers
offers = ("BTC-USD", signal, 0) ∷ ("BTC-USD", signal, 5 * minute) ∷ []

offer-fires_example :
    let g = offer_all settings library ask_thesis offers new_thesis_generator in
    (state_of (offer library ask_thesis settings "BTC-USD" signal (70 * minute) g)).generating ≡ (
      if (leb 2 (length (window settings library ask_thesis "BTC-USD" signal (70 * minute) offers))
          || is_seed signal)
        && is_due settings "BTC-USD" (70 * minute) g.generating
      then g.generating ++ ("BTC-USD", 70 * minute) ∷ []
      else g.generating)
offer-fires_example =
    offer-fires settings library ask_thesis "BTC-USD" signal (70 * minute) offers (omega arith)
      (omega arith)
