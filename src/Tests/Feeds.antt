-- ===== src/Tests/Feeds.antt =====
-- The theorems on the watchlist and the feeds at concrete inputs.
use afterhours.Prelude.{String, refl, inr, Option, some, List, [], ◌∷◌, str_eq, if◌then◌else◌}
use afterhours.Prelude.Dict.{lookup}
use afterhours.Prelude.Texts.{mem}
use afterhours.Watchlist.{Watch, Change, added, removed, changes}
use afterhours.Watchlist.Sync.{IsRouted, changes-IsRouted}
use afterhours.Ingestion.Health.{new_health, Call, fetched, failed, committed, calls}
use afterhours.Ingestion.Health.Transitions.{IsReported, calls-IsReported}

-- A watchlist of one coin and one share, as it stands after the start.
abbrev watch : Watch
watch = record {
  table = ("BTC-USD", "crypto") ∷ ("NVDA", "equity") ∷ [];
  active = ("BTC-USD", "crypto") ∷ ("NVDA", "equity") ∷ [];
  kraken = "BTC-USD" ∷ [];
  equity = some ("NVDA" ∷ []);
}

abbrev market_of : String → String
market_of instrument = if str_eq instrument "NVDA" then "equity" else "crypto"

abbrev edits : List Change
edits = added "ETH-USD" "crypto" ∷ removed "NVDA" ∷ added "NVDA" "equity" ∷ []

watch-IsRouted : IsRouted (market_of "NVDA") "NVDA" watch
unfolding lookup mem
watch-IsRouted = record {
  stored = refl;
  listed = inr refl;
  held = record { kraken = refl; equity = refl };
}

changes-IsRouted_example : IsRouted (market_of "NVDA") "NVDA" (changes edits watch)
changes-IsRouted_example =
    changes-IsRouted market_of "NVDA" edits watch refl (refl, (tt, (refl, tt))) watch-IsRouted

abbrev polls : List Call
polls =
    fetched
    ∷ committed
    ∷ failed "timeout"
    ∷ committed
    ∷ failed "timeout"
    ∷ committed
    ∷ fetched
    ∷ committed
    ∷ []

calls-IsReported_example : IsReported (calls polls new_health)
calls-IsReported_example = calls-IsReported polls

abbrev outcomes : List (Option String)
outcomes = some "timeout" ∷ some "" ∷ []
