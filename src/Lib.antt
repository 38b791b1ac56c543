-- ===== src/Lib.antt =====
-- AFTERHOURS: the trading desk of the program, from a proposed decision to the books.
--
-- The program is a set of components on an event bus. Signals of an instrument make a thesis
-- (reasoning/thesis/generator.py) and a thesis a decision (reasoning/decision/generator.py), each by
-- a request to a language model, and the second publishes `decision.proposed`; the risk engine (risk/engine.py) runs its pre-trade gate on it and publishes
-- `decision.approved` with a size and a stop, or `decision.rejected`; the paper executor
-- (portfolio/executor.py) fills an approval in PAPER mode and parks it for the operator in ASSISTED
-- mode; the ledger (portfolio/ledger.py) books each `order.filled`. A `market.tick` marks the ledger,
-- is watched for stops by the risk engine, and lets the executor expire parked approvals and retry
-- deferred closes. The mode controller (core/mode.py) holds the autonomy mode and the kill switch.
--
-- The files:
--   Prelude, Prelude/*   names of the libraries, tests, lists, integers, Python's dict and set
--   Decimal, Decimal/*   Python's decimal with its context of 28 digits, rounding half to even
--   Core/Mode            core/mode.py and the ladder of core/schemas/events.py
--   Core/Events          core/schemas/decision.py and the payloads of the events
--   Core/Bus             core/bus/in_process.py: patterns and subscriptions
--   Core/Store, Core/Store/*   core/bus/store.py: the queries of the in-memory store
--   Core/Pricing         core/pricing.py
--   Portfolio/Position   portfolio/models.py and portfolio/settings.py
--   Portfolio/Ledger     portfolio/ledger.py; the proofs are under Portfolio/Ledger/
--   Portfolio/Orders     portfolio/executor.py: submission, fills and closes
--   Portfolio/Queue      portfolio/executor.py: the parked approvals
--   Portfolio/Executor   portfolio/executor.py: the handlers of events
--   Risk/*               risk/sizing.py, risk/engine.py
--   Desk, System         the state of the components together, what can happen to them, and how
--                        an event passes from one to the next; the proofs are under System/
--   Watchlist, Watchlist/*   watchlist/manager.py with the table of watchlist/store.py, and
--                        ingestion/router.py with the sets of instruments of the feeds
--   Ingestion/Health     ingestion/health.py
--   Ingestion/Alerts     ingestion/alerts/generator.py
--   Reasoning/Cache      reasoning/llm/cache.py
--   Reasoning/Invalidator    reasoning/thesis/invalidator.py
--   Reasoning/Replies    what the generators make of the language model's replies
--   Reasoning/Theses     reasoning/thesis/generator.py
--   Reasoning/Decisions  reasoning/decision/generator.py
--   Analytics/*          analytics/metrics.py and analytics/pnl.py, analytics/equity_curve.py
--   Calibration/*        calibration/resolver.py, calibration/engine.py, calibration/gates.py
--   Gateway/Broadcaster  gateway/broadcaster.py
--   Gateway/Startup      gateway/app.py: what a restart restores
--   Discovery/*          discovery/: the scores, the extraction and the projection over the store
--   Tests, Tests/*       runs at the default settings, and the theorems at concrete inputs
--
-- A component's operation is a function on the state that it changes: the ledger's on `Portfolio`,
-- the executor's, the risk engine's and the mode controller's on `Desk`, which holds the mode, the
-- ledger, the executor's sets and the log of published events. `Happening` lists what reaches the
-- desk from outside, `step` is its treatment, and `run` a sequence of them. An exception is a value:
-- `Result` in the ledger and the executor, `raised` in the gate.
--
-- What the model assumes. The bus awaits the handlers of one event together; here they run one after
-- the other, in the order in which the components subscribe, and an exception of a handler ends that
-- handler only. Decimals are exact in the 28 digits of the default context; infinities, NaN, the
-- sign of zero and the limits of the exponent are left out. A text of a payload that stands for a
-- number is `absent`, `malformed` or a number. Times are microseconds. Identifiers of events and
-- fills, ingest times and log messages are left out, and so are correlation ids, but for the
-- ValueError of a decision id that is no UUID, which the desk raises where the source does. The
-- append to the store does not raise. The queries of a restart have the limits of the source. The
-- float of a realized return keeps the digits of its decimal, and is zero where it underflows. The
-- time zone database (`trading_day`), the comparison of binary floats (`float_at_least`), the texts
-- that `UUID` parses (`is_uuid`), the hash of a prompt
-- (`prompt_key`) and the language model's replies are parameters, of which nothing is assumed.
--
-- So are the parser of UUIDs (`uuid`), the operations on binary floats that the calibration error and
-- the discovery scores use (`Floats`), `str.strip` and `str.upper`, and the class of spaces,
-- `json.loads` and the conversions of a reply's values (`Library`). Of the floats the discovery
-- theorems assume that `<` is the order of numbers, none of them NaN (`IsOrder`), and the theorem on
-- fenced replies that braces are no spaces. A prompt is what it is built from. The handlers of the
-- generators run to their end, with the model's replies, before the next event.
--
-- Bounds and fuel: the loop of the equity curve over the days runs on fuel, one for each day from
-- the first fill through today; that it is enough is part of its theorem.
--
-- Not modelled: the feeds, which are network clients and parsers of third-party formats; the language
-- model, the texts of its prompts and the discovery analyst, which only asks for a text; the routes
-- of the web gateway, the database and the SQL of the SQLite event store, which only pass values on;
-- the frontend; the ratios over return series and the token bucket of reasoning/llm/throttle.py,
-- which are arithmetic of floats; and as yet the backtest.
pub mod Prelude
pub mod Decimal
pub mod Core
pub mod Portfolio
pub mod Desk
pub mod Risk
pub mod System
pub mod Watchlist
pub mod Ingestion
pub mod Reasoning
pub mod Analytics
pub mod Calibration
pub mod Gateway
pub mod Discovery
pub mod Tests
