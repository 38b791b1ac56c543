-- ===== src/Tests/Finds.antt =====
-- The theorems on the discovery projection at concrete inputs, with floats that are
-- whole hundredths.
use afterhours.Prelude.{
  ℕ, ◌-◌, ◌*◌, ◌/◌, ◌^◌, ◌≤◌, String, ◌≡◌, refl, not, ◌⊎◌, none, some, List, [], ◌∷◌, ◌++◌, length,
  arith,
}
use afterhours.Prelude.Dict.{lookup}
use afterhours.Core.Store.{Stored, keep}
use afterhours.Discovery.Floats.{Floats, clamp}
use afterhours.Discovery.Scoring.{
  DiscoverySettings, Contribution, Candidate, score_instrument, weighted_at, scores_below, weight,
  half_life, factor_weights, decay,
}
use afterhours.Discovery.Extraction.{Signal}
use afterhours.Discovery.Engine.{build_candidates, evidence}
use afterhours.Prelude.Int.{ℤ, pos, with_sign, nat_abs, leb_ℤ, ◌+ℤ◌, ◌-ℤ◌, ◌*ℤ◌}
use afterhours.Discovery.Votes.{IsOrder, score_instrument-correlated}
use afterhours.Discovery.Groups.{is_named, votes_for, verdict}
use afterhours.Discovery.Ranking.{IsDescending}
use afterhours.Discovery.Projection.{passes, build_candidates_lem}

-- Multiples of 1/100, rounded towards zero; a decay halves by whole half-lives.
abbrev scaled_div : ℤ → ℕ → ℤ
scaled_div a n = with_sign a (nat_abs a / n)

abbrev halved : ℕ → ℕ
halved n = 100 / 2 ^ n

abbrev hundredths : Floats ℤ
hundredths = record {
  literal = λ m places. pos (m * 100 / 10 ^ places);
  lt = λ a b. not (leb_ℤ b a);
  add = ◌+ℤ◌;
  sub = ◌-ℤ◌;
  mul = λ a b. scaled_div (a *ℤ b) 100;
  div = λ a b. scaled_div (a *ℤ pos 100) (nat_abs b);
  neg = λ a. pos 0 -ℤ a;
  abs = λ a. pos (nat_abs a);
  half_to = λ a. pos (halved (nat_abs a / 100));
  days_between = λ now t. pos ((now - t) / 864_000_000);
}

hundredths-IsOrder : IsOrder hundredths
hundredths-IsOrder = record {
  asymm = λ a b h. ground arith;
  trans = λ a b c h k. ground arith;
  zero_lt_one = refl;
}

abbrev settings : DiscoverySettings ℤ
settings = record {
  window_days = 30;
  threshold = pos 35;
  top_k = 20;
  confluence_bonus = pos 15;
  default_weight = pos 40;
  default_half_life_days = pos 1400;
}

abbrev day : ℕ
day = 86_400_000_000

abbrev vote : String → ℤ → ℕ → Contribution ℤ
vote factor value days = record {
  instrument = "ACME";
  factor = factor;
  value = value;
  event_time = days * day;
  summary = "";
  source = "";
  signal_id = "";
}

score_instrument-correlated_example :
    let strong = vote "insider_activity" (pos 80) 99 in
    let weak = vote "insider_activity" (pos 60) 99 in
    let other = vote "news" (pos 50) 100 in
    let told =
      score_instrument hundredths settings
        (100 * day)
        "ACME"
        ((other ∷ strong ∷ []) ++ weak ∷ []) in
    let plain =
      score_instrument hundredths settings (100 * day) "ACME" ((other ∷ strong ∷ []) ++ []) in
    (told.score ≡ plain.score) × (told.factors ≡ plain.factors)
unfolding weighted_at weight half_life factor_weights decay clamp lookup ◌-ℤ◌ ◌*ℤ◌
score_instrument-correlated_example =
    score_instrument-correlated hundredths hundredths-IsOrder settings (100 * day) "ACME"
      (vote "news" (pos 50) 100 ∷ []) [] [] (vote "insider_activity" (pos 80) 99)
      (vote "insider_activity" (pos 60) 99) refl refl refl

-- Two votes for an instrument nobody watches, and one for an instrument of the watchlist.
abbrev signal_of : Stored → Signal ℤ
signal_of e = record {
  id = "";
  type_name = "insider_tx";
  instruments = (elim (lookup "instrument" e.payload) [ none ↦ "" | some i ↦ i ]) ∷ [];
  relevance_score = some (pos 80);
  factor = elim (lookup "factor" e.payload) [ none ↦ "" | some f ↦ f ];
  summary = "a purchase";
  direction = some "buy";
}

abbrev stored : String → String → ℕ → Stored
stored instrument factor days = record {
  event_type = "signal.created";
  event_time = days * day;
  payload = ("instrument", instrument) ∷ ("factor", factor) ∷ [];
}

abbrev log : List Stored
log =
    stored "ACME" "insider_activity" 99
    ∷ stored "BTC-USD" "news" 99
    ∷ stored "ACME" "government_exposure" 98
    ∷ []

abbrev same_text : String → String
same_text s = s

abbrev found : List (Candidate ℤ)
found =
    build_candidates hundredths same_text same_text signal_of settings (100 * day) ("BTC-USD" ∷ [])
      log

abbrev votes : List (Contribution ℤ)
votes = evidence hundredths same_text same_text signal_of settings (100 * day) ("BTC-USD" ∷ []) log

build_candidates_lem_example :
    (rest : List (Candidate ℤ)) × ((rest ≡ []) ⊎ (length found ≡ 20))
    × (length found ≤ 20)
    × IsDescending (scores_below hundredths) (found ++ rest)
    × (keep (is_named "ACME") (found ++ rest)
        ≡ keep
            (passes hundredths settings)
            (verdict hundredths settings (100 * day) "ACME" (keep (votes_for "ACME") votes)))
build_candidates_lem_example =
    build_candidates_lem hundredths hundredths-IsOrder same_text same_text signal_of settings
      (100 * day) ("BTC-USD" ∷ []) log "ACME"
