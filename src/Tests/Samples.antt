-- ===== src/Tests/Samples.antt =====
-- The default settings of portfolio/settings.py and risk/settings.py, and a day of trading.
use Prim.Native.String.{len}
use afterhours.Prelude.{ℕ, ◌==◌, ◌/◌, ◌*◌, String, none, some, List, [], ◌∷◌}
use afterhours.Prelude.Int.{pos}
use afterhours.Decimal.{Decimal, of_ℕ, le_decimal}
use afterhours.Core.Mode.{AutonomyMode, paper, assisted}
use afterhours.Core.Events.{Decision, DecisionStatus, Side, Fill, Tick, absent, number}
use afterhours.Portfolio.Position.{Position}
use afterhours.Desk.{Desk, Config}
use afterhours.System.{Happening, proposed, ticked, operator_set_mode, operator_execute}

-- `n` in units of ten to the power of `-places`
abbrev pub decimal : ℕ → ℕ → Decimal
decimal n places = record { coef = pos n; places = places }

abbrev pub second : ℕ
second = 1_000_000

abbrev pub config : Config
config = record {
  portfolio_settings = record {
    initial_cash = decimal 1_000_000 2;
    slippage_pct = decimal 1 3;
    fee_pct = decimal 1 3;
    pending_ttl_seconds = 3600;
  };
  risk_settings = record {
    max_position_pct = decimal 5 2;
    max_trade_loss_pct = decimal 2 2;
    stop_loss_pct = decimal 3 2;
    cash_buffer_pct = decimal 1 2;
    min_trade_size_usd = decimal 1000 2;
    max_open_positions = 5;
    max_daily_loss_pct = decimal 5 2;
  };
  trading_day = λ t. t / (86_400 * second);
  float_at_least = λ a b. le_decimal b a;
  is_uuid = λ id. len id == 36;
}

abbrev pub tick_at : String → ℕ → Tick
tick_at instrument price = record { instrument = instrument; price = number (of_ℕ price) }

-- A long proposal, as the reasoning engine publishes it.
abbrev pub long_proposal : String → String → Decision
long_proposal id instrument = record {
  id = id;
  originating_thesis_id = "t1";
  confidence = decimal 7 1;
  proposal = record {
    instrument = instrument;
    side = some "long";
    size_usd = absent;
    time_horizon = "intraday";
  };
  risk = none;
  status = DecisionStatus.proposed;
  human = none;
}

-- PAPER mode: a proposal is filled, and the stop closes the position.
abbrev pub paper_day : List Happening
paper_day =
    operator_set_mode paper "operator" "" 0
    ∷ ticked "kraken_ws" (tick_at "BTC-USD" 60_000) (1 * second)
    ∷ proposed "reasoning" (long_proposal "6b1f0c9e-3a52-4d7e-9c41-2f8a5e7b0d01" "BTC-USD")
        (2 * second)
    ∷ ticked "kraken_ws" (tick_at "BTC-USD" 50_000) (3 * second)
    ∷ []

-- ASSISTED mode: an approval is parked and executed by the operator.
abbrev pub assisted_day : List Happening
assisted_day =
    operator_set_mode assisted "operator" "" 0
    ∷ ticked "kraken_ws" (tick_at "BTC-USD" 60_000) (1 * second)
    ∷ proposed "reasoning" (long_proposal "6b1f0c9e-3a52-4d7e-9c41-2f8a5e7b0d01" "BTC-USD")
        (2 * second)
    ∷ operator_execute "6b1f0c9e-3a52-4d7e-9c41-2f8a5e7b0d01" (10 * second)
    ∷ []

-- A bought bitcoin, its fill, and the fill that sells it at a loss.
abbrev pub bitcoin : Position
bitcoin = record {
  instrument = "BTC-USD";
  side = Side.long;
  entry_price = decimal 60_060 0;
  quantity = decimal 8_325_009 8;
  current_price = decimal 60_060 0;
  stop_price = some (decimal 58_200 0);
  entry_fee = decimal 5 0;
  decision_id = "6b1f0c9e-3a52-4d7e-9c41-2f8a5e7b0d01";
}

abbrev pub bought : Fill
bought = record {
  instrument = "BTC-USD";
  action = some "open";
  side = some "long";
  client_order_id = "6b1f0c9e-3a52-4d7e-9c41-2f8a5e7b0d01:open";
  fill_price = number (decimal 60_060 0);
  quantity = number (decimal 8_325_009 8);
  cost_usd = number (decimal 500_000 2);
  fee = number (decimal 5 0);
  stop_price = number (decimal 58_200 0);
  decision_id = "6b1f0c9e-3a52-4d7e-9c41-2f8a5e7b0d01";
}

abbrev pub sold : Fill
sold = record bought {
  action = some "close";
  client_order_id = "6b1f0c9e-3a52-4d7e-9c41-2f8a5e7b0d01:close";
  fill_price = number (decimal 58_000 0);
  cost_usd = number (decimal 0 0);
  stop_price = absent;
}

-- A desk that holds the bitcoin, in a mode.
abbrev pub holding : AutonomyMode → Desk
holding mode = record {
  mode = mode;
  portfolio = record {
    cash = decimal 499_500 2;
    positions = ("BTC-USD", bitcoin) ∷ [];
    prices = ("BTC-USD", decimal 60_060 0) ∷ ("ETH-USD", decimal 3000 0) ∷ [];
    daily_pnl = decimal 0 0;
    daily_date = some 0;
    realized_trades = [];
    daily_trades = [];
  };
  pending = [];
  submitted_orders = [];
  close_pending = [];
  log = [];
}

-- What a desk in OBSERVE mode may hear.
abbrev pub quiet_day : List Happening
quiet_day =
    proposed "reasoning" (long_proposal "6b1f0c9e-3a52-4d7e-9c41-2f8a5e7b0d02" "ETH-USD")
      (2 * second)
    ∷ operator_execute "6b1f0c9e-3a52-4d7e-9c41-2f8a5e7b0d02" (3 * second)
    ∷ ticked "kraken_ws" (tick_at "ETH-USD" 3100) (4 * second)
    ∷ ticked "kraken_ws" (tick_at "BTC-USD" 50_000) (5 * second)
    ∷ []

-- A desk with two parked approvals, of which the first has aged out an hour later.
abbrev pub queued : Desk
queued = record (holding assisted) {
  pending =
      (
        "6b1f0c9e-3a52-4d7e-9c41-2f8a5e7b0d02",
        record {
          approved_at = 0;
          payload = long_proposal "6b1f0c9e-3a52-4d7e-9c41-2f8a5e7b0d02" "ETH-USD";
        },
      )
      ∷ (
        "6b1f0c9e-3a52-4d7e-9c41-2f8a5e7b0d03",
        record {
          approved_at = 1800 * second;
          payload = long_proposal "6b1f0c9e-3a52-4d7e-9c41-2f8a5e7b0d03" "SOL-USD";
        },
      )
      ∷ [];
}
