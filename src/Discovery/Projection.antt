-- ===== src/Discovery/Projection.antt =====
-- discovery/engine.py: what the projection answers with, and what it leaves out.
use afterhours.Prelude.{ℕ, ◌≤◌, String, ◌≡◌, ap, ◌∙◌, ◌⊎◌, Bool, not, List, [], ◌++◌, length}
use afterhours.Core.Store.{Stored, keep}
use afterhours.Discovery.Floats.{Floats}
use afterhours.Discovery.Scoring.{
  DiscoverySettings, Contribution, Candidate, score_each, score_all, scores_below, group_each,
}
use afterhours.Discovery.Extraction.{Signal}
use afterhours.Discovery.Engine.{evidence, build_candidates}
use afterhours.Discovery.Votes.{IsOrder}
use afterhours.Discovery.Ranking.{
  beyond, take-beyond, length-take, take-full, keep-keep_comm, IsDescending,
  sort_descending-IsDescending, IsDescending-keep,
}
use afterhours.Discovery.Groups.{votes_for, is_named, verdict, keep-score_all}

module _ {F : Type 0} (fl : Floats F) where
  -- The score reaches the threshold.
  abbrev pub passes : DiscoverySettings F → Candidate F → Bool
  passes settings c = not (fl.lt c.score settings.threshold)

module _ {F : Type 0} (fl : Floats F) (o : IsOrder fl) where
  module _ (settings : DiscoverySettings F) (now : ℕ) where
    -- The candidates at or above the threshold, the strongest first.
    abbrev ranked : List (Contribution F) → List (Candidate F)
    ranked votes = keep (passes fl settings) (score_all fl settings now votes)

    IsDescending-ranked :
        (votes : List (Contribution F)) → IsDescending (scores_below fl) (ranked votes)
    unfolding score_all
    IsDescending-ranked votes =
        IsDescending-keep (scores_below fl) (passes fl settings) (score_all fl settings now votes) (
          sort_descending-IsDescending (scores_below fl) (λ a b. o.asymm a.score b.score)
            (λ a b c. o.trans a.score b.score c.score)
            (score_each fl settings now (group_each votes [])))

    keep-ranked :
        (k : String) (votes : List (Contribution F))
        → keep (is_named k) (ranked votes)
          ≡ keep (passes fl settings) (verdict fl settings now k (keep (votes_for k) votes))
    keep-ranked k votes =
        keep-keep_comm (is_named k) (passes fl settings) (score_all fl settings now votes)
        ∙ ap (keep (passes fl settings)) (keep-score_all fl settings now k votes)

module _ {F : Type 0} (fl : Floats F) (o : IsOrder fl) (strip upper : String → String)
    (payload_of : Stored → Signal F) (settings : DiscoverySettings F) (now : ℕ) where
  -- What the projection answers with continues to the list of all candidates: the rest is empty, or
  -- the answer has as many as were asked for; the whole list falls in its scores; and an instrument
  -- stands in it exactly once where the votes for it, in their order, reach the threshold, with
  -- the score of those votes, and not at all where they do not or there are none.
  pub build_candidates_lem :
      (watched : List String) (log : List Stored) (k : String)
      → let found = build_candidates fl strip upper payload_of settings now watched log in
        let votes = evidence fl strip upper payload_of settings now watched log in
        (rest : List (Candidate F)) × ((rest ≡ []) ⊎ (length found ≡ settings.top_k))
        × (length found ≤ settings.top_k)
        × IsDescending (scores_below fl) (found ++ rest)
        × (keep (is_named k) (found ++ rest)
            ≡ keep (passes fl settings) (verdict fl settings now k (keep (votes_for k) votes)))
  unfolding build_candidates
  build_candidates_lem watched log k =
      let votes = evidence fl strip upper payload_of settings now watched log in
      let all = ranked fl o settings now votes in
      let whole = take-beyond settings.top_k all in
      (
        beyond settings.top_k all,
        take-full settings.top_k all,
        length-take settings.top_k all,
        rw whole (IsDescending-ranked fl o settings now votes),
        rw whole (keep-ranked fl o settings now k votes),
      )
