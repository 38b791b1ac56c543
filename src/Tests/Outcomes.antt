-- ===== src/Tests/Outcomes.antt =====
-- The theorems on the resolution of decisions, the gates and the equity curve at concrete inputs.
use afterhours.Prelude.{
  map, All, ◌++◌, ℕ, ◌+◌, ◌*◌, ◌/◌, ◌^◌, ◌≤◌, ◌<◌, String, ◌≡◌, ◌≢◌, refl, Bool, true, false, none,
  some, List, [], ◌∷◌, arith, eq_iff, if◌then◌else◌,
}
use afterhours.Prelude.Int.{pos, nat_abs, ◌*ℤ◌, ◌-ℤ◌, ◌+ℤ◌}
use afterhours.Decimal.Round.{digits, div_half_even}
use afterhours.Prelude.Dict.{lookup, contains, insert, map_values, adjust, erase}
use afterhours.Decimal.{
  Decimal, add, mul, div, sub, sum, of_ℕ, le_decimal, drop_digits, is_zero, fix, neg, zero_value,
}
use afterhours.Core.Events.{thesis_invalidated}
use afterhours.Core.Mode.{AutonomyMode, paper}
use afterhours.Core.Events.{Envelope, Breach, long, decision_proposed, market_tick}
use afterhours.Calibration.{CalibrationSettings}
use afterhours.Calibration.Resolver.{
  float_of, vanishes, Pending, Resolver, new_resolver, tracked, fate, handle_tick, resolve,
  resolve_each, to_resolve, add_pending, parse_horizon, drop_each, to_drop, enter_at, side_adjusted,
  tick_at as resolver_tick_at,
}
use afterhours.Calibration.Resolver.Runs.{run, handle}
use afterhours.Calibration.Resolver.Settled.{run-settled}
use afterhours.Calibration.Resolver.Hits.{IsScored, run-AreScored}
use afterhours.Core.Store.{last, drop}
use afterhours.Gateway.Startup.{startup_limit, restart_resolver}
use afterhours.Gateway.Startup.Resolved.{resolutions-restart}
use afterhours.Calibration.Resolver.Tally.{one_if, resolutions}
use afterhours.Calibration.Resolver.Tally.Runs.{proposals, resolutions-proposals}
use afterhours.Calibration.Engine.{
  Floats, ResolvedSample, compute_ece, samples_in, fill, empty_buckets, put_at, bucket_of, place,
  ece_from, avg_confidence, hit_rate, hits,
}
use afterhours.Prelude.Texts.{mem}
use afterhours.Analytics.Metrics.{economic_metrics, drawdown_from, filter_by}
use afterhours.Calibration.Gates.{
  TradeBook, Criterion, operational, calibration, economic, criterion, ready, paper_to_assisted,
  handle_breaches, seed_breaches, is_calibrated, span, earliest, latest, handle_breach,
  hard_breaches, economic_criteria, is_expected, is_profitable,
}
use afterhours.Calibration.Gates.Ready.{IsProven, paper_to_assisted-IsProven}
use afterhours.Tests.Samples.{decimal, second, tick_at, long_proposal}

abbrev settings : CalibrationSettings
settings = record {
  horizon_scalp_minutes = 30;
  horizon_intraday_hours = 4;
  horizon_swing_days = 3;
  horizon_position_days = 21;
  ece_buckets = 10;
  gate_observe_min_sample = 50;
  gate_observe_max_ece = decimal 18 2;
  gate_paper_min_sample = 2;
  gate_paper_min_days = 14;
  gate_paper_max_ece = decimal 12 2;
  gate_econ_min_trades = 2;
  gate_econ_min_profit_factor = decimal 11 1;
  gate_econ_max_drawdown_pct = decimal 20 2;
}

abbrev at : ℕ → String → Envelope
at time instrument = record {
  source = "kraken_ws";
  event_time = time;
  event = market_tick (tick_at instrument 60_000);
}

abbrev hour : ℕ
hour = 3600 * second

-- Two proposals on one coin, of which the first has an entry price.
abbrev proposed_day : List (AutonomyMode × Envelope)
proposed_day =
    (
      paper,
      record {
        source = "reasoning";
        event_time = hour;
        event = decision_proposed (long_proposal "d1" "BTC-USD");
      },
    )
    ∷ (paper, at (2 * hour) "BTC-USD")
    ∷ (
      paper,
      record {
        source = "reasoning";
        event_time = 3 * hour;
        event = decision_proposed (long_proposal "d2" "BTC-USD");
      },
    )
    ∷ []

-- The second proposal, entered by the tick that resolves the first.
abbrev entered : Pending
entered = record {
  decision_id = "d2";
  instrument = "BTC-USD";
  side = long;
  confidence = decimal 7 1;
  mode_at_proposal = paper;
  proposed_at = 3 * hour;
  deadline = 7 * hour;
  thesis_id = some "t1";
  entry_price = some (of_ℕ 61_000);
  stop_price = none;
}

abbrev evening : Resolver
evening = run settings proposed_day new_resolver

settled_second :
    lookup "d2" (handle_tick (tick_at "BTC-USD" 61_000) (5 * hour) evening).pending ≡ some entered
unfolding handle_tick lookup resolver_tick_at resolve_each to_resolve run handle add_pending insert
    fate tracked parse_horizon drop_each to_drop map_values enter_at resolve float_of vanishes
    is_zero side_adjusted digits div_half_even div drop_digits fix neg sub le_decimal adjust erase
    ◌*ℤ◌ ◌-ℤ◌
settled_second = refl

run-settled_example :
    (5 * hour < entered.deadline) × (entered.proposed_at ≤ 5 * hour → entered.entry_price ≢ none)
run-settled_example =
    run-settled settings proposed_day "BTC-USD" (of_ℕ 61_000) (5 * hour) "d2" entered
      (λ e. ground (arith, (eq_iff "BTC-USD" "").1 e)) settled_second refl

resolutions-proposals_example :
    resolutions "d1" evening.resolved + one_if (contains "d1" evening.pending)
    ≤ proposals "d1" proposed_day
resolutions-proposals_example = resolutions-proposals "d1" settings proposed_day

-- The loss of the thesis resolves the decision that has an entry price.
abbrev lost_day : List (AutonomyMode × Envelope)
lost_day =
    proposed_day
    ++ (
      paper,
      record {
        source = "thesis_invalidator";
        event_time = 4 * hour;
        event = thesis_invalidated "t1" "BTC-USD";
      },
    )
      ∷ []

run-AreScored_example : All IsScored (run settings lost_day new_resolver).resolved
run-AreScored_example = run-AreScored settings lost_day

-- The store of a day whose two decisions were proposed, and the first resolved.
abbrev stored_proposals : List Envelope
stored_proposals = map (λ (e : AutonomyMode × Envelope). e.1) proposed_day

is_resolved : mem "d1" (last startup_limit ("d0" ∷ "d1" ∷ [])) ≡ true
unfolding mem last drop
is_resolved = refl

resolutions-restart_example :
    resolutions "d1"
      (run settings proposed_day (
        restart_resolver settings
          ("d0" ∷ "d1" ∷ [])
          (long_proposal "d0" "BTC-USD" ∷ [])
          stored_proposals
          stored_proposals)).resolved
    ≤ proposals "d1" proposed_day
resolutions-restart_example =
    resolutions-restart "d1" settings ("d0" ∷ "d1" ∷ []) (long_proposal "d0" "BTC-USD" ∷ [])
      stored_proposals stored_proposals proposed_day is_resolved

-- Exact decimals in place of floats.
abbrev decimals : Floats Decimal
decimals = record {
  of_ℕ = of_ℕ;
  sum = sum;
  add = add;
  mul = mul;
  div = λ a b. elim (div a b) [ none ↦ zero_value | some q ↦ q ];
  distance = λ a b. if le_decimal a b then sub b a else sub a b;
  le = le_decimal;
  truncate = λ a. some (pos (nat_abs a.coef / 10 ^ a.places));
}

abbrev sample : ℕ → Bool → ℕ → ResolvedSample Decimal
sample tenths hit day = record {
  confidence = decimal tenths 1;
  hit = hit;
  mode = "paper";
  resolved_at = day * 24 * hour;
}

abbrev paper_sample : List (ResolvedSample Decimal)
paper_sample = sample 10 true 0 ∷ sample 9 true 3 ∷ sample 0 false 20 ∷ []

abbrev breach : String → Breach
breach reason = record {
  instrument = "BTC-USD";
  reason = reason;
  trigger_price = of_ℕ 50_000;
  stop_price = of_ℕ 55_000;
  decision_id = "d1";
}

abbrev trade_book : TradeBook
trade_book = record { realized_trades = of_ℕ 50 ∷ of_ℕ 70 ∷ []; initial_cash = of_ℕ 10_000 }

abbrev all_passed : List Criterion
all_passed =
    criterion "resolved_paper_decisions" true operational
    ∷ criterion "sample_span_days" true operational
    ∷ criterion "ece" true calibration
    ∷ criterion "risk_limit_breaches" true operational
    ∷ criterion "closed_trades" true economic
    ∷ criterion "net_pnl" true economic
    ∷ criterion "expectancy" true economic
    ∷ criterion "profit_factor" true economic
    ∷ criterion "max_drawdown" true economic
    ∷ []

reported :
    paper_to_assisted decimals
      (λ d. d)
      settings
      paper_sample
      (handle_breaches (breach "stop_loss" ∷ []) (seed_breaches (breach "stop_loss" ∷ []) 0))
      (some trade_book)
    ≡ some all_passed
unfolding paper_to_assisted compute_ece samples_in mem fill empty_buckets put_at bucket_of place
    ece_from avg_confidence hit_rate hits is_calibrated span earliest latest handle_breaches
    handle_breach hard_breaches economic_criteria economic_metrics is_expected is_profitable
    drawdown_from filter_by add mul div sub neg fix digits drop_digits div_half_even le_decimal ◌*ℤ◌
    ◌-ℤ◌ ◌+ℤ◌
reported = refl

all_ready : ready all_passed ≡ true
unfolding ready
all_ready = refl

paper_to_assisted-IsProven_example :
    IsProven decimals
      (λ d. d)
      settings
      paper_sample
      (breach "stop_loss" ∷ breach "stop_loss" ∷ [])
      trade_book
paper_to_assisted-IsProven_example =
    paper_to_assisted-IsProven decimals (λ d. d) settings paper_sample (breach "stop_loss" ∷ [])
      (breach "stop_loss" ∷ []) 0 trade_book all_passed reported all_ready
