-- ===== src/Tests/Log.antt =====
-- The theorems on the bus and its store at concrete inputs.
use afterhours.Prelude.{ℕ, String, ◌≡◌, ◌&&◌, none, List, [], ◌∷◌, ◌++◌}
use afterhours.Prelude.Dict.{lookup}
use afterhours.Prelude.Texts.{mem}
use afterhours.Core.Bus.{Subscription}
use afterhours.Core.Store.{Stored, keep, within, range, latest_per_key}
use afterhours.Core.Store.Range.{IsOrdered, is_at, range_lem}
use afterhours.Core.Store.Latest.{has_key, latest_from, lookup-latest_per_key}

abbrev stored : String → ℕ → String → Stored
stored event_type time instrument = record {
  event_type = event_type;
  event_time = time;
  payload = ("instrument", instrument) ∷ [];
}

abbrev ticks : List Stored
ticks =
    stored "market.tick" 1 "BTC-USD"
    ∷ stored "order.filled" 2 "BTC-USD"
    ∷ stored "market.tick" 2 "ETH-USD"
    ∷ stored "market.tick" 4 "BTC-USD"
    ∷ []

abbrev late : List Stored
late = ticks ++ stored "market.tick" 3 "BTC-USD" ∷ []

abbrev tick_type : List String
tick_type = "market.tick" ∷ []

abbrev monitor : Subscription
monitor = record { id = 2; pattern = "market.*"; handler = "monitor" }

abbrev subscribers : List Subscription
subscribers = record { id = 1; pattern = "*"; handler = "audit" } ∷ []

range_lem_example :
    IsOrdered (range tick_type none none late)
    × (keep (is_at 2) (range tick_type none none late)
        ≡ keep
            (is_at 2)
            (keep (λ e. mem e.event_type tick_type && within none none e.event_time) late))
range_lem_example = range_lem tick_type none none late 2

lookup-latest_per_key_example :
    lookup "BTC-USD" (latest_per_key tick_type "instrument" late)
    ≡ latest_from none (keep (has_key tick_type "instrument" "BTC-USD") late)
lookup-latest_per_key_example = lookup-latest_per_key tick_type "instrument" "BTC-USD" late
