-- ===== src/Calibration/Engine.antt =====
-- calibration/engine.py, `CalibrationEngine`: the resolved decisions, and the buckets of the
-- expected calibration error. The arithmetic of binary floats is a parameter.
pub mod Buckets
use afterhours.Prelude.{
  ℕ, zero, suc, ◌+◌, ◌-◌, String, Bool, true, false, Option, none, some, List, [], ◌∷◌, ◌++◌, map,
  length, leb, ◌==◌, str_eq, if◌then◌else◌,
}
use afterhours.Prelude.Int.{ℤ, pos, negsuc}
use afterhours.Prelude.Texts.{mem}

-- What is used of floats: integers as floats, sums, products, quotients, |a - b|, the test a ≤ b,
-- and `int(a)`, which raises where `a` is no number or infinite.
pub record Floats (F : Type 0) : Type 0 where
  pub of_ℕ : ℕ → F
  pub sum : List F → F
  pub add : F → F → F
  pub mul : F → F → F
  pub div : F → F → F
  pub distance : F → F → F
  pub le : F → F → Bool
  pub truncate : F → Option ℤ

-- `ResolvedSample`
pub record ResolvedSample (F : Type 0) : Type 0 where
  pub confidence : F
  pub hit : Bool
  pub mode : String
  pub resolved_at : ℕ

-- The payload of `decision.resolved`: `none` is a value that is missing or cannot be read.
pub record ResolvedPayload (F : Type 0) : Type 0 where
  pub confidence : Option F
  pub hit : Option Bool
  pub mode_at_proposal : Option String

module _ {F : Type 0} where
  -- `_record`, on the samples so far
  unfoldable pub record_sample :
      ResolvedPayload F → ℕ → List (ResolvedSample F) → List (ResolvedSample F)
  record_sample payload event_time samples = elim payload.confidence [
    | none ↦ samples
    | some confidence ↦ elim payload.hit [
      | none ↦ samples
      | some hit ↦
          samples
          ++ record {
            confidence = confidence;
            hit = hit;
            mode = elim payload.mode_at_proposal [ none ↦ "observe" | some mode ↦ mode ];
            resolved_at = event_time;
          }
            ∷ []
    ]
  ]

  -- `seed`, and the events that follow it
  unfoldable pub record_each :
      List (ResolvedPayload F × ℕ) → List (ResolvedSample F) → List (ResolvedSample F)
  record_each [] samples = samples
  record_each ((payload, event_time) ∷ envelopes) samples =
      record_each envelopes (record_sample payload event_time samples)

  -- `samples(modes)`
  unfoldable pub samples_in : List String → List (ResolvedSample F) → List (ResolvedSample F)
  samples_in modes [] = []
  samples_in modes (s ∷ samples) =
      let rest = samples_in modes samples in if mem s.mode modes then s ∷ rest else rest

  unfoldable pub hits : List (ResolvedSample F) → ℕ
  hits [] = 0
  hits (s ∷ samples) = (if s.hit then 1 else 0) + hits samples

  -- `buckets[index].append(s)`, with a place that is in the list
  unfoldable pub put_at :
      ℕ → ResolvedSample F → List (List (ResolvedSample F)) → List (List (ResolvedSample F))
  put_at i s [] = []
  put_at zero s (b ∷ buckets) = (b ++ s ∷ []) ∷ buckets
  put_at (suc i) s (b ∷ buckets) = b ∷ put_at i s buckets

  -- `[[] for _ in range(bucket_count)]`
  unfoldable pub empty_buckets : ℕ → List (List (ResolvedSample F))
  empty_buckets zero = []
  empty_buckets (suc n) = [] ∷ empty_buckets n

-- The place that Python's `buckets[min(i, n - 1)]` names in a list of `n`: a negative index counts
-- from the end, and `none` is the IndexError.
unfoldable pub place : ℕ → ℤ → Option ℕ
place zero i = none
place (suc n) (pos i) = some (if leb i n then i else n)
place (suc n) (negsuc i) = if leb i n then some (n - i) else none

module _ {F : Type 0} (fl : Floats F) where
  -- `int(s.confidence * bucket_count)` and the place that it names; `none` is what raises.
  unfoldable pub bucket_of : ℕ → ResolvedSample F → Option ℕ
  bucket_of n s = elim (fl.truncate (fl.mul s.confidence (fl.of_ℕ n))) [
    | none ↦ none
    | some i ↦ place n i
  ]

  unfoldable pub fill :
      ℕ
      → List (ResolvedSample F)
      → List (List (ResolvedSample F))
      → Option (List (List (ResolvedSample F)))
  fill n [] buckets = some buckets
  fill n (s ∷ samples) buckets = elim (bucket_of n s) [
    | none ↦ none
    | some i ↦ fill n samples (put_at i s buckets)
  ]

  -- `_bucketed`
  abbrev pub bucketed : ℕ → List (ResolvedSample F) → Option (List (List (ResolvedSample F)))
  bucketed n samples = fill n samples (empty_buckets n)

  unfoldable pub avg_confidence : List (ResolvedSample F) → F
  avg_confidence b = fl.div (fl.sum (map (λ s. s.confidence) b)) (fl.of_ℕ (length b))

  unfoldable pub hit_rate : List (ResolvedSample F) → F
  hit_rate b = fl.div (fl.of_ℕ (hits b)) (fl.of_ℕ (length b))

  -- The loop of `compute_ece` over the buckets, of `n` samples in all.
  unfoldable pub ece_from : ℕ → F → List (List (ResolvedSample F)) → F
  ece_from n ece [] = ece
  ece_from n ece (b ∷ buckets) =
      let weight = fl.div (fl.of_ℕ (length b)) (fl.of_ℕ n) in
      let next = fl.add ece (fl.mul weight (fl.distance (avg_confidence b) (hit_rate b))) in
      ece_from n (if length b == 0 then ece else next) buckets

  -- `compute_ece`: it raises (`none`), has no sample (`some none`), or has a value.
  unfoldable pub compute_ece : List (ResolvedSample F) → ℕ → Option (Option F)
  compute_ece [] count = some none
  compute_ece (s ∷ samples) count = elim (bucketed count (s ∷ samples)) [
    | none ↦ none
    | some buckets ↦ some (some (ece_from (suc (length samples)) (fl.of_ℕ 0) buckets))
  ]
