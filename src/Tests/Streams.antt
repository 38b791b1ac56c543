-- ===== src/Tests/Streams.antt =====
-- The theorems on the price alerts, the theses and the browsers at concrete inputs.
use afterhours.Prelude.{
  length, ◌≤◌, ℕ, ◌*◌, String, ◌≡◌, refl, Option, none, some, List, [], ◌∷◌, arith, eq_iff,
}
use afterhours.Prelude.Dict.{Dict, lookup, insert}
use afterhours.Prelude.Texts.{mem}
use afterhours.Decimal.{of_ℕ}
use afterhours.Core.Events.{absent, number}
use afterhours.Ingestion.Alerts.{AlertSettings, PriceTick, new_alerts}
use afterhours.Ingestion.Alerts as Alerts
use afterhours.Ingestion.Alerts.Cooldown.{IsSpaced, run-IsSpaced}
use afterhours.Reasoning.Invalidator.{
  ThesisEvent, created, invalidated, Thesis, Active, Move, publish, sweep, new_invalidator,
  rehydrate_limit, rehydrate, step, publish_thesis, handle_thesis, expiry_sweep, expired,
  expire_each, expire, armed,
}
use afterhours.Reasoning.Invalidator as Invalidator
use afterhours.Reasoning.Invalidator.Endings.{endings}
use afterhours.Reasoning.Invalidator.Restart.{IsFreshRun, rehydrate-run}
use afterhours.Gateway.Broadcaster.{Step, published, connected, taken, delivered, failed}
use afterhours.Gateway.Broadcaster as Broadcaster
use afterhours.Gateway.Broadcaster.Delivery.{IsServedIf, heard, run-IsServed}
use afterhours.Core.Events.{Decision}
use afterhours.Portfolio.Position.{Position}
use afterhours.Gateway.Startup.{orphans, orphans_among}
use afterhours.Gateway.Startup.Orphans.{is_untracked, orphans-rehydrate}
use afterhours.Tests.Samples.{decimal, second, bitcoin, long_proposal}

abbrev settings : AlertSettings
settings = record {
  price_move_pct_threshold = decimal 5 1;
  price_move_window_minutes = 15;
  alert_cooldown_minutes = 10;
}

-- A tick at a minute, with the day's high.
abbrev tick : ℕ → ℕ → Option (List String) × PriceTick × ℕ
tick minute price = (
  none,
  record {
    instrument = "BTC-USD";
    price = number (of_ℕ price);
    high_24h = number (of_ℕ 61_000);
    low_24h = absent;
  },
  minute * 60 * second,
)

abbrev crossings : List (Option (List String) × PriceTick × ℕ)
crossings = tick 0 60_000 ∷ tick 1 61_500 ∷ tick 2 60_000 ∷ tick 3 61_500 ∷ tick 20 60_000 ∷ []

run-IsSpaced_example : IsSpaced (10 * 60_000_000) (Alerts.run settings crossings new_alerts).fired
run-IsSpaced_example = run-IsSpaced settings crossings

-- Two theses, the first of which expires.
abbrev thesis : String → Thesis
thesis id = record { id = id; time_horizon_hours = some 4; instrument = "BTC-USD" }

abbrev thesis_day : List Move
thesis_day =
    publish (thesis "t1") 0
    ∷ publish (thesis "t2") (3 * 3600 * second)
    ∷ sweep (5 * 3600 * second)
    ∷ []

-- Every text is taken for an id.
abbrev any_id : String → Option String
any_id = some

fresh_day : IsFreshRun any_id thesis_day new_invalidator
unfolding step publish_thesis endings mem
fresh_day = (
  record {
    id = "t1";
    parsed = refl;
    known = refl;
    there = λ e. ground (arith, (eq_iff "t1" "").1 e);
    given = λ e. ground (arith, (eq_iff "t1" "").1 e);
    new = refl;
  },
  (
    record {
      id = "t2";
      parsed = refl;
      known = refl;
      there = λ e. ground (arith, (eq_iff "t2" "").1 e);
      given = λ e. ground (arith, (eq_iff "t2" "").1 e);
      new = refl;
    },
    tt,
  ),
)

short_day : length (Invalidator.run any_id thesis_day new_invalidator).log ≤ rehydrate_limit
unfolding Invalidator.run step publish_thesis handle_thesis expiry_sweep expired expire_each expire
    armed insert lookup
short_day = ground arith

rehydrate-run_example :
    (active : Active) × (rehydrate any_id (Invalidator.run any_id thesis_day new_invalidator).log []
      ≡ some active)
    × ((k : String)
        → lookup k active ≡ lookup k (Invalidator.run any_id thesis_day new_invalidator).active)
rehydrate-run_example = rehydrate-run any_id thesis_day fresh_day short_day

-- A slow client and one that fails.
abbrev session : List Step
session =
    connected "a"
    ∷ connected "b"
    ∷ published "e1"
    ∷ taken "b"
    ∷ published "e2"
    ∷ failed "b"
    ∷ published "e3"
    ∷ taken "a"
    ∷ delivered "a"
    ∷ []

run-IsServed_example :
    IsServedIf 2 (heard "a" session []) (lookup "a" (Broadcaster.run 2 session []))
run-IsServed_example = run-IsServed 2 "a" session

-- The store of that day, and a position of each thesis.
abbrev stored : List ThesisEvent
stored =
    created (thesis "t1") 0
    ∷ created (thesis "t2") (3 * 3600 * second)
    ∷ invalidated "t1" "BTC-USD" (5 * 3600 * second)
    ∷ []

abbrev decisions : Dict Decision
decisions =
    ("d1", long_proposal "d1" "BTC-USD")
    ∷ ("d2", record (long_proposal "d2" "ETH-USD") { originating_thesis_id = "t2" })
    ∷ []

abbrev held : Dict Position
held = ("BTC-USD", bitcoin) ∷ ("ETH-USD", record bitcoin { decision_id = "d2" }) ∷ []

orphans-rehydrate_example :
    (active : Active) × (rehydrate any_id stored [] ≡ some active)
    × (orphans stored decisions (6 * 3600 * second) held
        ≡ orphans_among (is_untracked active (6 * 3600 * second)) decisions held)
orphans-rehydrate_example =
    orphans-rehydrate any_id stored decisions (6 * 3600 * second) held
      (
        (refl, λ e. ground (arith, (eq_iff "t1" "").1 e)),
        (
          (refl, λ e. ground (arith, (eq_iff "t2" "").1 e)),
          ((refl, λ e. ground (arith, (eq_iff "t1" "").1 e)), tt),
        ),
      )
      (ground arith)
