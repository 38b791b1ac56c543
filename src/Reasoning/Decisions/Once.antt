-- ===== src/Reasoning/Decisions/Once.antt =====
-- reasoning/decision/generator.py: each thesis is taken up once, for two requests at most.
use mathlib.Core.Path.{subst}
use afterhours.Prelude.{
  ℕ, suc, ◌+◌, ◌*◌, ◌≤◌, String, ◌≡◌, refl, sym, ap, ◌∙◌, Bool, true, false, Option, none, some,
  List, [], ◌∷◌, ◌++◌, arith, str_eq, eq_refl, length, length-append, Bool-cases, inl, inr, if_rule,
  option_rule, if◌then◌else◌,
}
use afterhours.Prelude.Texts.{mem, include, IsDistinct, mem-include, IsDistinct-append_one}
use afterhours.Core.Events.{Tick}
use afterhours.Reasoning.Replies.{
  Library, Obtained, raised, unparsed, parsed, retry, obtain, extract_json,
}
use afterhours.Reasoning.Decisions.{
  ThesisPayload, DecisionPrompt, Generator, new_generator, Arrival, market_tick, thesis_created,
  handle_tick, evidence_of, validated, propose, take_reply, prompt_of, generate, accepts,
  handle_thesis, step, run,
}

-- Nothing is asked or published that was not taken up.
pub record IsFrugal (g : Generator) : Type 0 where
  pub asked : g.asked ≤ 2 * length g.processed_thesis_ids
  pub published : length g.published ≤ length g.processed_thesis_ids
  pub distinct : IsDistinct g.processed_thesis_ids

-- One thesis later: as many ids, up to two requests more, and up to one decision more.
abbrev IsStep : Generator → Generator → Type 0
IsStep g g' =
    (g'.processed_thesis_ids ≡ g.processed_thesis_ids)
    × (g'.asked ≤ g.asked + 2)
    × (length g'.published ≤ suc (length g.published))

processed-handle_tick :
    (t : Tick) (g : Generator) → (handle_tick t g).processed_thesis_ids ≡ g.processed_thesis_ids
unfolding handle_tick
processed-handle_tick t g = ground arith

IsFrugal-handle_tick : (t : Tick) (g : Generator) → IsFrugal g → IsFrugal (handle_tick t g)
unfolding handle_tick
IsFrugal-handle_tick t g h = ground arith

true_not_false : true ≡ false → ⊥
true_not_false h = cc

add-one : (n : ℕ) → n + 1 ≡ suc n
add-one n = omega arith

include-new : (k : String) (ks : List String) → mem k ks ≡ false → include k ks ≡ ks ++ k ∷ []
unfolding include
include-new k ks h = rw h refl

module _ (lib : Library) (ask : ℕ → Option (List ℕ) → DecisionPrompt → Option (List ℕ)) where
  retry-le :
      (prompt : DecisionPrompt) (raw : List ℕ) (n : ℕ)
      → (retry lib.is_space lib.loads ask prompt raw n).0 ≤ n + 1
  unfolding retry
  retry-le prompt raw n =
      option_rule (λ (r : ℕ × Obtained). r.0 ≤ n + 1) (ask n (some raw) prompt) (λ _. omega arith)
        (λ raw2 _.
          option_rule (λ (r : ℕ × Obtained). r.0 ≤ n + 1) (extract_json lib.is_space lib.loads raw2)
            (λ _. omega arith) (λ fields _. omega arith))

  obtain-le :
      (prompt : DecisionPrompt) (n : ℕ) → (obtain lib.is_space lib.loads ask prompt n).0 ≤ n + 2
  unfolding obtain
  obtain-le prompt n =
      option_rule (λ (r : ℕ × Obtained). r.0 ≤ n + 2) (ask n none prompt) (λ _. omega arith)
        (λ raw _.
          option_rule (λ (r : ℕ × Obtained). r.0 ≤ n + 2) (extract_json lib.is_space lib.loads raw)
            (λ _. omega (arith, retry-le prompt raw (n + 1))) (λ fields _. omega arith))

  IsStep-take_reply :
      (thesis : ThesisPayload) (now : ℕ) (outcome : ℕ × Obtained) (g : Generator)
      → outcome.0 ≤ g.asked + 2
      → IsStep g (take_reply lib ask thesis now outcome g)
  unfolding take_reply propose
  IsStep-take_reply thesis now (asked, raised) g h = (refl, h, omega arith)
  IsStep-take_reply thesis now (asked, unparsed) g h = (refl, h, omega arith)
  IsStep-take_reply thesis now (asked, parsed reply) g h =
      option_rule (IsStep g) (evidence_of lib reply) (λ _. (refl, h, omega arith))
        (λ evidence _.
          option_rule (IsStep g) (validated lib thesis now (lib.new_id asked) reply evidence)
            (λ _. (refl, h, omega arith))
            (λ p _. (refl, h, omega (arith, length-append g.published (p ∷ [])))))

  IsStep-generate :
      (thesis : ThesisPayload) (now : ℕ) (g : Generator) → IsStep g (generate lib ask thesis now g)
  unfolding generate
  IsStep-generate thesis now g =
      option_rule (IsStep g) (prompt_of lib ask thesis g) (λ _. (refl, omega arith, omega arith))
        (λ prompt _.
          IsStep-take_reply thesis now (obtain lib.is_space lib.loads ask prompt g.asked) g
            (obtain-le prompt g.asked))

  -- What was processed stays processed.
  mem-handle_thesis :
      (id : String) (watched : Option (List String)) (thesis : ThesisPayload) (now : ℕ)
      → (g : Generator) → mem id g.processed_thesis_ids ≡ true
      → mem id (handle_thesis lib ask watched thesis now g).processed_thesis_ids ≡ true
  unfolding handle_thesis
  mem-handle_thesis id watched thesis now g h =
      if_rule (λ (g' : Generator). mem id g'.processed_thesis_ids ≡ true)
        (accepts lib ask watched thesis g)
        (λ _.
          let g' : Generator = record g {
            processed_thesis_ids = include thesis.id g.processed_thesis_ids;
          } in
          ap (mem id) (IsStep-generate thesis now g').0
          ∙ mem-include id thesis.id g.processed_thesis_ids
          ∙ kept (str_eq thesis.id id) h)
        (λ _. h)
    where
      kept : (b : Bool) {c : Bool} → c ≡ true → (if b then true else c) ≡ true
      kept true h = refl
      kept false h = h

  mem-run :
      (id : String) (arrivals : List Arrival) (g : Generator)
      → mem id g.processed_thesis_ids ≡ true
      → mem id (run lib ask arrivals g).processed_thesis_ids ≡ true
  unfolding run step
  mem-run id [] g h = h
  mem-run id (market_tick t ∷ arrivals) g h =
      mem-run id arrivals (handle_tick t g) (ap (mem id) (processed-handle_tick t g) ∙ h)
  mem-run id (thesis_created watched thesis now ∷ arrivals) g h =
      mem-run id arrivals _ (mem-handle_thesis id watched thesis now g h)

  mem-accepted :
      (watched : Option (List String)) (thesis : ThesisPayload) (now : ℕ) (g : Generator)
      → accepts lib ask watched thesis g ≡ true
      → mem thesis.id (handle_thesis lib ask watched thesis now g).processed_thesis_ids ≡ true
  unfolding handle_thesis
  mem-accepted watched thesis now g h = rw h (
      ap (mem thesis.id) (IsStep-generate thesis now _).0
      ∙ mem-include thesis.id thesis.id g.processed_thesis_ids
      ∙ (rw eq_refl refl))

  accepts-processed :
      (watched : Option (List String)) (thesis : ThesisPayload) (g : Generator)
      → mem thesis.id g.processed_thesis_ids ≡ true
      → accepts lib ask watched thesis g ≡ false
  unfolding accepts
  accepts-processed none thesis g h = rw h (ground arith)
  accepts-processed (some active) thesis g h = rw h (ground arith)

  refused :
      (watched : Option (List String)) (thesis : ThesisPayload) (now : ℕ) (g : Generator)
      → mem thesis.id g.processed_thesis_ids ≡ true
      → handle_thesis lib ask watched thesis now g ≡ g
  unfolding handle_thesis
  refused watched thesis now g h = rw (accepts-processed watched thesis g h) refl

  -- A thesis that was taken up is never taken up again: after anything else that arrives, an event
  -- with its id, whatever else it says, leaves the generator as it is, whether or not the first
  -- attempt gave a decision.
  pub run-once :
      (watched watched' : Option (List String)) (thesis thesis' : ThesisPayload) (now now' : ℕ)
      → (arrivals : List Arrival) (g : Generator) → accepts lib ask watched thesis g ≡ true
      → thesis'.id ≡ thesis.id
      → let g' = run lib ask arrivals (handle_thesis lib ask watched thesis now g) in
        handle_thesis lib ask watched' thesis' now' g' ≡ g'
  run-once watched watched' thesis thesis' now now' arrivals g ok same =
      let first = handle_thesis lib ask watched thesis now g in
      let later = run lib ask arrivals first in
      refused watched' thesis' now' later (
        ap (λ id. mem id later.processed_thesis_ids) same
        ∙ mem-run thesis.id arrivals first (mem-accepted watched thesis now g ok))

  IsFrugal-handle_thesis :
      (watched : Option (List String)) (thesis : ThesisPayload) (now : ℕ) (g : Generator)
      → IsFrugal g
      → IsFrugal (handle_thesis lib ask watched thesis now g)
  unfolding handle_thesis
  IsFrugal-handle_thesis watched thesis now g h =
      if_rule IsFrugal (accepts lib ask watched thesis g)
        (λ ok.
          let new = accepted_new watched thesis g ok in
          let g' : Generator = record g {
            processed_thesis_ids = include thesis.id g.processed_thesis_ids;
          } in
          let (same, asks, says) = IsStep-generate thesis now g' in
          let long : length g'.processed_thesis_ids ≡ suc (length g.processed_thesis_ids) =
            ap length (include-new thesis.id g.processed_thesis_ids new)
            ∙ length-append g.processed_thesis_ids (thesis.id ∷ [])
            ∙ add-one (length g.processed_thesis_ids) in
          record {
            asked = omega (arith, long, ap (length {A = String}) same, asks, h.asked);
            published = omega (arith, long, ap (length {A = String}) same, says, h.published);
            distinct =
                subst IsDistinct (sym (same ∙ include-new thesis.id g.processed_thesis_ids new))
                  (IsDistinct-append_one thesis.id g.processed_thesis_ids new h.distinct);
          })
        (λ _. h)
    where
      accepted_new :
          (watched : Option (List String)) (thesis : ThesisPayload) (g : Generator)
          → accepts lib ask watched thesis g ≡ true
          → mem thesis.id g.processed_thesis_ids ≡ false
      accepted_new watched thesis g ok = elim (Bool-cases (mem thesis.id g.processed_thesis_ids)) [
        | inl e ↦ absurd (true_not_false (sym ok ∙ accepts-processed watched thesis g e))
        | inr e ↦ e
      ]

  IsFrugal-run :
      (arrivals : List Arrival) (g : Generator) → IsFrugal g → IsFrugal (run lib ask arrivals g)
  unfolding run step
  IsFrugal-run [] g h = h
  IsFrugal-run (market_tick t ∷ arrivals) g h =
      IsFrugal-run arrivals (handle_tick t g) (IsFrugal-handle_tick t g h)
  IsFrugal-run (thesis_created watched thesis now ∷ arrivals) g h =
      IsFrugal-run arrivals _ (IsFrugal-handle_thesis watched thesis now g h)

  -- In every run from the start no thesis is listed as processed twice, the model has at most two
  -- requests for each that is, and there are no more decisions than those.
  pub run-IsFrugal : (arrivals : List Arrival) → IsFrugal (run lib ask arrivals new_generator)
  run-IsFrugal arrivals =
      IsFrugal-run arrivals new_generator
        (record { asked = omega arith; published = omega arith; distinct = tt })
