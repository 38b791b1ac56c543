-- ===== src/Discovery/Scoring.antt =====
-- discovery/score.py, with discovery/settings.py and discovery/contributions.py. Times are microseconds.
use afterhours.Prelude.{
  ℕ, String, Bool, true, false, not, none, some, List, [], ◌∷◌, ◌++◌, map, length, leb,
  if◌then◌else◌,
}
use afterhours.Prelude.Dict.{Dict, lookup, insert, values}
use afterhours.Discovery.Floats.{
  Floats, sort_descending, sort_names, max_float, zero_float, one_float, clamp, clamp01,
}

-- `DiscoverySettings`
pub record DiscoverySettings (F : Type 0) : Type 0 where
  pub window_days : ℕ
  pub threshold : F
  pub top_k : ℕ
  pub confluence_bonus : F
  pub default_weight : F
  pub default_half_life_days : F

-- `FactorWeight`
pub record FactorWeight (F : Type 0) : Type 0 where
  pub weight : F
  pub half_life_days : F

-- `Contribution`
pub record Contribution (F : Type 0) : Type 0 where
  pub instrument : String
  pub factor : String
  pub value : F
  pub event_time : ℕ
  pub summary : String
  pub source : String
  pub signal_id : String

-- `ScoredContribution`
pub record ScoredContribution (F : Type 0) : Type 0 where
  pub factor : String
  pub weighted : F
  pub age_days : F
  pub summary : String
  pub source : String

-- `Candidate`
pub record Candidate (F : Type 0) : Type 0 where
  pub instrument : String
  pub score : F
  pub factors : List String
  pub contributions : List (ScoredContribution F)

module _ {F : Type 0} where
  -- `by_instrument[instrument]` on a `defaultdict(list)`
  unfoldable pub items_of : String → Dict (List (Contribution F)) → List (Contribution F)
  items_of instrument groups = elim (lookup instrument groups) [ none ↦ [] | some items ↦ items ]

  -- `by_instrument[c.instrument].append(c)`
  unfoldable pub group_one :
      Contribution F → Dict (List (Contribution F)) → Dict (List (Contribution F))
  group_one c groups = insert c.instrument (items_of c.instrument groups ++ c ∷ []) groups

  unfoldable pub group_each :
      List (Contribution F) → Dict (List (Contribution F)) → Dict (List (Contribution F))
  group_each [] groups = groups
  group_each (c ∷ contribs) groups = group_each contribs (group_one c groups)

-- `weighted >= 0` chooses the bucket.
abbrev pub is_vote_of : Bool → Bool → Bool
is_vote_of true is_negative = not is_negative
is_vote_of false is_negative = is_negative

module _ {F : Type 0} (fl : Floats F) where
  -- `FACTOR_WEIGHTS`
  unfoldable pub factor_weights : Dict (FactorWeight F)
  factor_weights =
      ("insider_activity", record { weight = fl.literal 9 1; half_life_days = fl.literal 21 0 })
      ∷ (
        "government_exposure",
        record { weight = fl.literal 6 1; half_life_days = fl.literal 30 0 },
      )
      ∷ ("supply_chain", record { weight = fl.literal 4 1; half_life_days = fl.literal 45 0 })
      ∷ ("news", record { weight = fl.literal 5 1; half_life_days = fl.literal 3 0 })
      ∷ []

  -- `DiscoverySettings.weight` and `half_life`
  unfoldable pub weight : DiscoverySettings F → String → F
  weight settings factor = elim (lookup factor factor_weights) [
    | none ↦ settings.default_weight
    | some fw ↦ fw.weight
  ]

  unfoldable pub half_life : DiscoverySettings F → String → F
  half_life settings factor = elim (lookup factor factor_weights) [
    | none ↦ settings.default_half_life_days
    | some fw ↦ fw.half_life_days
  ]

  -- `_decay`
  unfoldable pub decay : F → F → F
  decay age_days half_life_days =
      if fl.lt (zero_float fl) half_life_days
      then fl.half_to (fl.div (max_float fl (zero_float fl) age_days) half_life_days)
      else (one_float fl)

  -- `_noisy_or`, with the product so far
  unfoldable pub unlikely : F → List F → F
  unlikely product [] = product
  unlikely product (m ∷ mags) =
      unlikely (fl.mul product (fl.sub (one_float fl) (clamp01 fl m))) mags

  abbrev pub noisy_or : List F → F
  noisy_or mags = fl.sub (one_float fl) (unlikely (one_float fl) mags)

  -- `weighted` of `score_instrument`
  unfoldable pub weighted_at : DiscoverySettings F → ℕ → Contribution F → F
  weighted_at settings now c =
      clamp fl
        (fl.mul
          (fl.mul (weight settings c.factor)
            (decay (fl.days_between now c.event_time) (half_life settings c.factor)))
          c.value)
        (fl.neg (one_float fl)) (one_float fl)

  -- `bucket[factor]` on a `defaultdict(float)`
  unfoldable pub strongest : String → Dict F → F
  strongest factor bucket = elim (lookup factor bucket) [ none ↦ (zero_float fl) | some m ↦ m ]

  -- `bucket[factor] = max(bucket[factor], mag)`
  unfoldable pub raise_to : String → F → Dict F → Dict F
  raise_to factor mag bucket = insert factor (max_float fl (strongest factor bucket) mag) bucket

  -- One round of the loop of `score_instrument`, on the bucket of the bullish votes (`true`) or of
  -- the bearish ones: the strongest magnitude of each factor. A weight that is not below zero is
  -- bullish.
  unfoldable pub tally_one : DiscoverySettings F → ℕ → Bool → Contribution F → Dict F → Dict F
  tally_one settings now bullish c bucket =
      let w = weighted_at settings now c in
      if is_vote_of bullish (fl.lt w (zero_float fl))
      then raise_to c.factor (fl.abs w) bucket
      else bucket

  unfoldable pub tally : DiscoverySettings F → ℕ → Bool → List (Contribution F) → Dict F → Dict F
  tally settings now bullish [] bucket = bucket
  tally settings now bullish (c ∷ contribs) bucket =
      tally settings now bullish contribs (tally_one settings now bullish c bucket)

  unfoldable pub scored : DiscoverySettings F → ℕ → Contribution F → ScoredContribution F
  scored settings now c = record {
    factor = c.factor;
    weighted = weighted_at settings now c;
    age_days = fl.days_between now c.event_time;
    summary = c.summary;
    source = c.source;
  }

  -- `f for f, m in pos_by_factor.items() if m > 0`
  unfoldable pub positive_factors : Dict F → List String
  positive_factors [] = []
  positive_factors ((f, m) ∷ bucket) =
      let rest = positive_factors bucket in if fl.lt (zero_float fl) m then f ∷ rest else rest

  -- The score before it is clamped, from the two buckets.
  unfoldable pub raw_score : DiscoverySettings F → Dict F → Dict F → F
  raw_score settings pos neg =
      let score = fl.sub (noisy_or (values pos)) (noisy_or (values neg)) in
      if leb 2 (length (positive_factors pos))
      then fl.add score (fl.mul settings.confluence_bonus (fl.sub (one_float fl) score))
      else score

  -- `score_instrument`
  unfoldable pub score_instrument :
      DiscoverySettings F → ℕ → String → List (Contribution F) → Candidate F
  score_instrument settings now instrument contribs =
      let pos = tally settings now true contribs [] in
      let neg = tally settings now false contribs [] in
      record {
        instrument = instrument;
        score = clamp01 fl (raw_score settings pos neg);
        factors = sort_names (positive_factors pos);
        contributions =
            sort_descending
              (λ (s t : ScoredContribution F). fl.lt (fl.abs s.weighted) (fl.abs t.weighted))
              (map (scored settings now) contribs);
      }

  unfoldable pub score_each :
      DiscoverySettings F → ℕ → Dict (List (Contribution F)) → List (Candidate F)
  score_each settings now [] = []
  score_each settings now ((instrument, items) ∷ groups) =
      score_instrument settings now instrument items ∷ score_each settings now groups

  abbrev pub scores_below : Candidate F → Candidate F → Bool
  scores_below a b = fl.lt a.score b.score

  -- `score_all`
  unfoldable pub score_all : DiscoverySettings F → ℕ → List (Contribution F) → List (Candidate F)
  score_all settings now contribs =
      sort_descending scores_below (score_each settings now (group_each contribs []))
