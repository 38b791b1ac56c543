-- ===== src/Calibration/Engine/Buckets.antt =====
-- calibration/engine.py: the buckets are a partition of the samples.
use afterhours.Prelude.{
  ℕ, zero, suc, Bool, true, false, none, some, List, [], ◌∷◌, ◌==◌, if◌then◌else◌,
}
use afterhours.Calibration.Engine.{Floats, ResolvedSample, bucket_of}

module _ {F : Type 0} (fl : Floats F) (n : ℕ) where
  abbrev Samples : Type 0
  Samples = List (ResolvedSample F)

  -- The sample belongs to the bucket at `i`.
  unfoldable pub is_in : ℕ → ResolvedSample F → Bool
  is_in i s = elim (bucket_of fl n s) [ none ↦ false | some j ↦ j == i ]

  unfoldable pub members : ℕ → Samples → Samples
  members i [] = []
  members i (s ∷ samples) = let rest = members i samples in if is_in i s then s ∷ rest else rest

  -- The members of `k` buckets, from the one at `i`.
  unfoldable pub columns : ℕ → ℕ → Samples → List Samples
  columns zero i samples = []
  columns (suc k) i samples = members i samples ∷ columns k (suc i) samples

  -- Every sample has a bucket.
  unfoldable pub are_placed : Samples → Bool
  are_placed [] = true
  are_placed (s ∷ samples) =
      let rest = are_placed samples in elim (bucket_of fl n s) [ none ↦ false | some _ ↦ rest ]
