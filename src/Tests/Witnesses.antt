-- ===== src/Tests/Witnesses.antt =====
-- The theorems at concrete inputs.
use afterhours.Prelude.{◌*◌, ◌≤◌, ◌≡◌, refl, ◌↔◌, List, [], ◌∷◌, length, arith}
use afterhours.Core.Mode.{observe, paper, assisted}
use afterhours.Portfolio.Ledger.{new_portfolio, rehydrate}
use afterhours.Portfolio.Ledger.Daily.{IsBooked, rehydrate-IsBooked}
use afterhours.Portfolio.Ledger.Replay.{
  unmark, Heard, heard_tick, heard_fill, live, fills_of, unmark-live,
}
use afterhours.Desk.{correlates, new_desk, passed}
use afterhours.Portfolio.Ledger.{ok}
use afterhours.Risk.Engine.{evaluate, approved_payload}
use afterhours.Risk.Engine.Gate.{IsCleared, evaluate-passed}
use afterhours.System.{run}
use afterhours.System.Capped.{run-IsCapped}
use afterhours.System.Idempotent.{IsIdempotent, run-IsIdempotent}
use afterhours.System.Recovery.{logged_fills, run-unmark-rehydrate}
use afterhours.System.KillSwitch.{IsLocked, run-IsLocked}
use afterhours.Prelude.{◌++◌, map, none, str_eq, ◌&&◌, if◌then◌else◌}
use afterhours.Prelude.Dict.{lookup}
use afterhours.Prelude.Texts.{mem}
use afterhours.Decimal.{of_ℕ, is_zero, le_decimal}
use afterhours.Prelude.Int.{◌*ℤ◌}
use afterhours.Core.Events.{ttl_expired}
use afterhours.Portfolio.Orders.{truthy, close_position}
use afterhours.Portfolio.Orders.Closing.{returns_true, lookup-close_position}
use afterhours.Portfolio.Queue.{is_expired, sweep_expired, stale_ids}
use afterhours.Portfolio.Queue.Stale.{expiry, unexpired, sweep_expired_lem}
use afterhours.Risk.Engine.{is_breached}
use afterhours.System.{halt, on_tick}
use afterhours.System.Stops.{on_tick-breached}
use afterhours.System.Flush.{halt_events, halt_lem}
use afterhours.Prelude.{false}
use afterhours.Core.Pricing.{quantize_price}
use afterhours.Core.Pricing.NonZero.{quantize_price-nonzero}
use afterhours.Tests.Samples.{
  bitcoin, queued, decimal, second, config, tick_at, long_proposal, bought, sold, holding,
  paper_day, quiet_day,
}

run-IsCapped_example : length (run config paper_day (holding paper)).portfolio.positions ≤ 5
run-IsCapped_example = run-IsCapped config paper_day (holding paper) (omega arith)

run-IsIdempotent_example : IsIdempotent (run config paper_day (new_desk config))
run-IsIdempotent_example = run-IsIdempotent config paper_day

run-IsLocked_example : IsLocked (holding observe) (run config quiet_day (holding observe))
run-IsLocked_example =
    run-IsLocked config quiet_day (holding observe) refl (tt, (tt, (tt, (tt, tt))))

run-unmark-rehydrate_example :
    unmark (run config paper_day (new_desk config)).portfolio
    ≡ unmark (
        rehydrate config.trading_day
          (logged_fills (run config paper_day (new_desk config)).log)
          (new_portfolio config.portfolio_settings.initial_cash))
run-unmark-rehydrate_example = run-unmark-rehydrate config paper_day

evaluate-passed_example :
    evaluate config
        (long_proposal "6b1f0c9e-3a52-4d7e-9c41-2f8a5e7b0d02" "ETH-USD")
        second
        (holding paper)
      ≡ passed (
          approved_payload config
            (long_proposal "6b1f0c9e-3a52-4d7e-9c41-2f8a5e7b0d02" "ETH-USD")
            (decimal 49_800 2)
            (decimal 2910 0))
    ↔ IsCleared config
        (long_proposal "6b1f0c9e-3a52-4d7e-9c41-2f8a5e7b0d02" "ETH-USD")
        second
        (holding paper)
        (approved_payload config
          (long_proposal "6b1f0c9e-3a52-4d7e-9c41-2f8a5e7b0d02" "ETH-USD")
          (decimal 49_800 2)
          (decimal 2910 0))
evaluate-passed_example =
    evaluate-passed config (long_proposal "6b1f0c9e-3a52-4d7e-9c41-2f8a5e7b0d02" "ETH-USD") second
      (holding paper)
      (approved_payload config (long_proposal "6b1f0c9e-3a52-4d7e-9c41-2f8a5e7b0d02" "ETH-USD")
        (decimal 49_800 2) (decimal 2910 0))

-- A day of events as the ledger hears them.
abbrev heard_day : List Heard
heard_day =
    heard_tick (tick_at "BTC-USD" 60_000)
    ∷ heard_fill bought second
    ∷ heard_tick (tick_at "BTC-USD" 58_000)
    ∷ heard_fill sold (2 * second)
    ∷ []

unmark-live_example :
    unmark (live config.trading_day heard_day (new_portfolio (decimal 1_000_000 2)))
    ≡ unmark
        (rehydrate config.trading_day (fills_of heard_day) (new_portfolio (decimal 1_000_000 2)))
unmark-live_example = unmark-live config.trading_day heard_day (new_portfolio (decimal 1_000_000 2))

rehydrate-IsBooked_example :
    IsBooked
      (rehydrate config.trading_day (fills_of heard_day) (new_portfolio (decimal 1_000_000 2)))
rehydrate-IsBooked_example =
    rehydrate-IsBooked config.trading_day (fills_of heard_day) (decimal 1_000_000 2)

halt_lem_example : halt config "drawdown" "operator" second queued ≡ record queued {
  mode = observe;
  pending = [];
  log = queued.log ++ halt_events config "drawdown" "operator" second queued;
}
halt_lem_example = halt_lem config "drawdown" "operator" second queued

on_tick-breached_example :
    let e = on_tick config (tick_at "BTC-USD" 50_000) second (holding assisted) in
    lookup "BTC-USD" e.portfolio.positions ≡ none
unfolding correlates lookup truthy is_breached mem is_zero le_decimal ◌*ℤ◌
on_tick-breached_example =
    on_tick-breached config "BTC-USD" (of_ℕ 50_000) (decimal 58_200 0) bitcoin second
      (holding assisted) refl refl refl refl refl refl refl

lookup-close_position_example :
    lookup "ETH-USD" (close_position config "BTC-USD" second (holding paper)).1.portfolio.positions
    ≡ (if str_eq "BTC-USD" "ETH-USD"
          && returns_true (close_position config "BTC-USD" second (holding paper)).0
        then none
        else lookup "ETH-USD" (holding paper).portfolio.positions)
lookup-close_position_example =
    lookup-close_position config "ETH-USD" "BTC-USD" second (holding paper)

sweep_expired_lem_example : sweep_expired config (3600 * second) queued ≡ (
  ok tt,
  record queued {
    pending = unexpired config (3600 * second) queued.pending;
    log =
        queued.log
        ++ map
            (expiry ttl_expired (3600 * second))
            (stale_ids config (3600 * second) queued.pending);
  },
)
unfolding mem correlates stale_ids is_expired
sweep_expired_lem_example =
    sweep_expired_lem config (3600 * second) queued (refl, (refl, tt)) (refl, tt)

quantize_price-nonzero_example : is_zero (quantize_price (decimal 123_456_789_012 18)) ≡ false
unfolding is_zero
quantize_price-nonzero_example = quantize_price-nonzero (decimal 123_456_789_012 18) refl
