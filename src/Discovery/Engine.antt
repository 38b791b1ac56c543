-- ===== src/Discovery/Engine.antt =====
-- discovery/engine.py: the projection over the stored signals.
use afterhours.Prelude.{ℕ, ◌-◌, ◌*◌, String, not, none, some, List, [], ◌∷◌, ◌++◌, map}
use afterhours.Prelude.Texts.{mem}
use afterhours.Core.Store.{Stored, keep, range}
use afterhours.Discovery.Floats.{Floats, take}
use afterhours.Discovery.Scoring.{DiscoverySettings, Contribution, Candidate, score_all}
use afterhours.Discovery.Extraction.{Signal, contributions_from_signal}

module _ {F : Type 0} (fl : Floats F) (strip upper : String → String) where
  -- The payload of a stored signal, which `Stored` keeps as texts, is read by `payload_of`.
  module _ (payload_of : Stored → Signal F) where
    -- The comprehension of `build_candidates`.
    unfoldable pub unwatched : List String → List Stored → List (Contribution F)
    unwatched watched_keys [] = []
    unwatched watched_keys (env ∷ signals) =
        keep (λ (c : Contribution F). not (mem c.instrument watched_keys))
          (contributions_from_signal fl strip upper (payload_of env) env.event_time)
        ++ unwatched watched_keys signals

    -- What `build_candidates` ranks.
    unfoldable pub evidence :
        DiscoverySettings F → ℕ → List String → List Stored → List (Contribution F)
    evidence settings now watched log = unwatched (map upper watched) (
        range ("signal.created" ∷ []) (some (now - settings.window_days * 86_400_000_000)) none log)

    -- `build_candidates`
    unfoldable pub build_candidates :
        DiscoverySettings F → ℕ → List String → List Stored → List (Candidate F)
    build_candidates settings now watched log = take settings.top_k (
        keep (λ (c : Candidate F). not (fl.lt c.score settings.threshold))
          (score_all fl settings now (evidence settings now watched log)))
