-- ===== src/Reasoning/Decisions/Sound.antt =====
-- reasoning/decision/generator.py: what is published, whatever the language model replies.
use mathlib.Core.Path.{subst}
use afterhours.Prelude.{
  ℕ, String, ◌≡◌, ◌≢◌, ◌⊎◌, inl, inr, refl, sym, Bool, true, false, not, Option, none, some, List,
  [], ◌∷◌, ◌++◌, arith, str_eq, All, All-append, if_rule, option_rule,
}
use afterhours.Prelude.Texts.{mem}
use afterhours.Decimal.{Decimal, zero_value}
use afterhours.Core.Events.{number, Side, side_value, parse_side, proposed, Tick}
use afterhours.Reasoning.Replies.{
  Json, Fields, null, boolean, text, arr, obj, get, is_truthy, iterate, Obtained, raised, unparsed,
  parsed, obtain, Library, Library,
}
use afterhours.Reasoning.Decisions.{
  ThesisPayload, DecisionPrompt, Evidence, ProposedDecision, Generator, new_generator, Arrival,
  market_tick, thesis_created, is_horizon, is_stance, is_confidence, handle_tick, get_str, cite,
  cite_each, evidence_of, confidence_of, validated, propose, take_reply, prompt_of, generate,
  accepts, handle_thesis, step, run,
}

-- The instrument is on the watchlist, where there is one.
abbrev pub IsWatched : Option (List String) → String → Type 0
IsWatched none instrument = Unit
IsWatched (some active) instrument = mem instrument active ≡ true

-- The decision is the answer to this arrival: its instrument and its clock are those of the thesis.
abbrev pub Answers : ProposedDecision → Arrival → Type 0
Answers p (market_tick t) = ⊥
Answers p (thesis_created watched payload event_time) =
    (p.decision.proposal.instrument ≡ payload.instrument)
    × (p.created_at ≡ event_time)
    × IsWatched watched payload.instrument

abbrev pub AnswersOne : ProposedDecision → List Arrival → Type 0
AnswersOne p [] = ⊥
AnswersOne p (a ∷ arrivals) = Answers p a ⊎ AnswersOne p arrivals

published-handle_tick : (t : Tick) (g : Generator) → (handle_tick t g).published ≡ g.published
unfolding handle_tick
published-handle_tick t g = ground arith

module _ (lib : Library) where
  -- The evidence cites an id that the parser read, with a stance of the vocabulary.
  abbrev pub IsCited : Evidence → Type 0
  IsCited e = (is_stance e.stance ≡ true) × ((raw : String) × (lib.uuid raw ≡ some e.signal_id))

  pub record IsSound (p : ProposedDecision) : Type 0 where
    pub named : str_eq p.decision.proposal.instrument "" ≡ false
    pub sided : (side : Side) × (p.decision.proposal.side ≡ some (side_value side))
    pub horizon : is_horizon p.decision.proposal.time_horizon ≡ true
    pub confident : is_confidence p.decision.confidence ≡ true
    pub unsized : p.decision.proposal.size_usd ≡ number zero_value
    pub unassessed : (p.decision.risk ≡ none) × (p.decision.status ≡ proposed)
    pub evident : p.evidence ≢ []
    pub cited : All IsCited p.evidence

  cite-IsCited : (e : Fields) → All IsCited (cite lib e)
  unfolding cite
  cite-IsCited e =
      option_rule (All IsCited) (get "signal_id" e) (λ _. tt)
        (λ raw_id _.
          if_rule (All IsCited) (not (is_truthy raw_id)) (λ _. tt)
            (λ _.
              option_rule (All IsCited) (lib.uuid (lib.str raw_id)) (λ _. tt)
                (λ id read.
                  if_rule (All IsCited)
                    (is_stance (lib.normal (get_str lib "stance" "supporting" e)))
                    (λ ok. ((ok, (lib.str raw_id, read)), tt)) (λ _. tt))))

  -- The loop raises, or its evidence is cited.
  abbrev IsCitedIf : Option (List Evidence) → Type 0
  IsCitedIf none = Unit
  IsCitedIf (some evidence) = All IsCited evidence

  cite_each-IsCited : (items : List Json) → IsCitedIf (cite_each lib items)
  unfolding cite_each
  cite_each-IsCited [] = tt
  cite_each-IsCited (obj e ∷ items) =
      elim (cite_each lib items)
          as (λ o.
            IsCitedIf o
            → IsCitedIf (elim o [ none ↦ none | some rest ↦ some (cite lib e ++ rest) ])) [
              | none ↦ λ _. tt
              | some rest ↦ λ h. All-append IsCited _ rest (cite-IsCited e) h
            ]
        (cite_each-IsCited items)
  cite_each-IsCited (null ∷ items) = tt
  cite_each-IsCited (boolean b ∷ items) = tt
  cite_each-IsCited (Json.number d ∷ items) = tt
  cite_each-IsCited (text s ∷ items) = tt
  cite_each-IsCited (arr xs ∷ items) = tt

  evidence_of-IsCited : (reply : Fields) → IsCitedIf (evidence_of lib reply)
  unfolding evidence_of
  evidence_of-IsCited reply =
      option_rule IsCitedIf (get "evidence" reply) (λ _. tt)
        (λ value _.
          option_rule IsCitedIf (iterate value) (λ _. tt) (λ items _. cite_each-IsCited items))

  -- A confidence that passes is within its range.
  abbrev IsConfident : Option Decimal → Type 0
  IsConfident none = Unit
  IsConfident (some c) = is_confidence c ≡ true

  confidence_of-IsConfident : (reply : Fields) → IsConfident (confidence_of lib reply)
  unfolding confidence_of
  confidence_of-IsConfident reply =
      option_rule IsConfident (get "confidence" reply) (λ _. tt)
        (λ value _.
          option_rule IsConfident (lib.to_float value) (λ _. tt)
            (λ c _. if_rule IsConfident (is_confidence c) (λ ok. ok) (λ _. tt)))

  -- A decision that passes the schema is sound, with the thesis's instrument and the time given.
  abbrev IsValidated : ThesisPayload → ℕ → Option ProposedDecision → Type 0
  IsValidated thesis now none = Unit
  IsValidated thesis now (some p) =
      IsSound p × (p.decision.proposal.instrument ≡ thesis.instrument) × (p.created_at ≡ now)

  eq_true_of_not : (b : Bool) → not b ≡ false → b ≡ true
  eq_true_of_not true h = refl
  eq_true_of_not false h = cc

  validated-IsValidated :
      (thesis : ThesisPayload) (now : ℕ) (id : String) (reply : Fields) (evidence : List Evidence)
      → str_eq thesis.instrument "" ≡ false
      → All IsCited evidence
      → IsValidated thesis now (validated lib thesis now id reply evidence)
  unfolding validated
  validated-IsValidated thesis now id reply [] named cited = tt
  validated-IsValidated thesis now id reply (e ∷ evidence) named cited =
      let horizon = lib.normal (get_str lib "time_horizon" "" reply) in
      let side = lib.normal (get_str lib "side" "" reply) in
      option_rule (IsValidated thesis now) (parse_side side) (λ _. tt)
        (λ s _.
          if_rule (IsValidated thesis now) (not (is_horizon horizon)) (λ _. tt)
            (λ known.
              option_rule (IsValidated thesis now) (confidence_of lib reply) (λ _. tt)
                (λ c found. (
                  record {
                    named = named;
                    sided = (s, refl);
                    horizon = eq_true_of_not (is_horizon horizon) known;
                    confident = subst IsConfident found (confidence_of-IsConfident reply);
                    unsized = refl;
                    unassessed = (refl, refl);
                    evident = λ (h : e ∷ evidence ≡ []). cc;
                    cited = cited;
                  },
                  refl,
                  refl,
                ))))

  module _ (ask : ℕ → Option (List ℕ) → DecisionPrompt → Option (List ℕ)) where
    -- `P` holds of whatever is sound and answers the thesis.
    module _ (P : ProposedDecision → Type 0) (watched : Option (List String))
        (thesis : ThesisPayload) (now : ℕ) (named : str_eq thesis.instrument "" ≡ false)
        (listed : IsWatched watched thesis.instrument)
        (holds : (p : ProposedDecision)
          → IsSound p
          → Answers p (thesis_created watched thesis now)
          → P p) where
      All-propose :
          (reply : Fields) (g : Generator)
          → All P g.published
          → All P (propose lib ask thesis now reply g).published
      unfolding propose
      All-propose reply g h =
          option_rule (λ (g' : Generator). All P g'.published) (evidence_of lib reply) (λ _. h)
            (λ evidence found.
              option_rule (λ (g' : Generator). All P g'.published)
                (validated lib thesis now (lib.new_id g.asked) reply evidence) (λ _. h)
                (λ p passed.
                  let cited = subst IsCitedIf found (evidence_of-IsCited reply) in
                  let (sound, same, at) = subst (IsValidated thesis now) passed (
                    validated-IsValidated thesis now (lib.new_id g.asked) reply evidence named
                      cited) in
                  All-append P g.published (p ∷ []) h (holds p sound (same, at, listed), tt)))

      All-take_reply :
          (outcome : ℕ × Obtained) (g : Generator)
          → All P g.published
          → All P (take_reply lib ask thesis now outcome g).published
      unfolding take_reply
      All-take_reply (asked, parsed reply) g h = All-propose reply (record g { asked = asked }) h
      All-take_reply (asked, raised) g h = h
      All-take_reply (asked, unparsed) g h = h

      All-generate :
          (g : Generator) → All P g.published → All P (generate lib ask thesis now g).published
      unfolding generate
      All-generate g h =
          option_rule (λ (g' : Generator). All P g'.published) (prompt_of lib ask thesis g) (λ _. h)
            (λ prompt _. All-take_reply (obtain lib.is_space lib.loads ask prompt g.asked) g h)

    accepts-IsWatched :
        (watched : Option (List String)) (thesis : ThesisPayload) (g : Generator)
        → accepts lib ask watched thesis g ≡ true
        → (str_eq thesis.instrument "" ≡ false) × IsWatched watched thesis.instrument
    unfolding accepts
    accepts-IsWatched none thesis g h = (ground (arith, h), tt)
    accepts-IsWatched (some active) thesis g h = (ground (arith, h), ground (arith, h))

    All-run :
        (P : ProposedDecision → Type 0) (arrivals : List Arrival) (g : Generator)
        → ((p : ProposedDecision) → IsSound p → AnswersOne p arrivals → P p)
        → All P g.published
        → All P (run lib ask arrivals g).published
    unfolding run step handle_thesis
    All-run P [] g holds h = h
    All-run P (market_tick t ∷ arrivals) g holds h =
        All-run P arrivals (handle_tick t g) (λ p sound later. holds p sound (inr later))
          (subst (All P) (sym (published-handle_tick t g)) h)
    All-run P (thesis_created watched thesis now ∷ arrivals) g holds h =
        All-run P arrivals _ (λ p sound later. holds p sound (inr later))
          (if_rule (λ (g' : Generator). All P g'.published) (accepts lib ask watched thesis g)
            (λ ok.
              let (named, listed) = accepts-IsWatched watched thesis g ok in
              All-generate P watched thesis now named listed
                (λ p sound answers. holds p sound (inl answers)) _ h)
            (λ _. h))

    -- Whatever the model replies, and whatever arrives, every published decision is one that the
    -- schema allows: its instrument is named, its side and its horizon are of their vocabularies,
    -- its confidence is between zero and one, it has some evidence, all of which cites ids that
    -- were parsed with stances of the vocabulary, and its size is zero, for the risk engine; and it
    -- answers a thesis that arrived, with its instrument, which was on the watchlist, and its time.
    pub run-IsSound :
        (arrivals : List Arrival)
        → All
            (λ (p : ProposedDecision). IsSound p × AnswersOne p arrivals)
            (run lib ask arrivals new_generator).published
    run-IsSound arrivals =
        All-run (λ (p : ProposedDecision). IsSound p × AnswersOne p arrivals) arrivals new_generator
          (λ p sound answers. (sound, answers)) tt
