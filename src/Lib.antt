-- ===== src/Lib.antt =====
-- Arkana's research service (services/research/app), which backtests trading strategies on candles.
--
-- The program's core is one execution kernel, `simulate_kernel` of backtesting.py. It walks over chunks of
-- candles, opens a position two candles after a signal, closes it at its stop or target, and hands each
-- trade to callbacks. Everything else feeds it or reads it: the evaluator of completed candles decides
-- the signals, the out-of-sample protocol runs it on chronological splits, accumulators summarise its
-- trades, a gate judges the summaries, the capital simulations turn trades into money, and the level
-- touch screen answers its own questions with the kernel's rules.
--
-- Files, with the code that each models:
--   Market, Kernel: `simulate_kernel` (services/research/app/backtesting.py). A `State` is its local
--     variables; `step` is the body of the loop, `close_open` what follows it. Kernel/Legacy: `_simulate`
--     and `_simulate_legacy`. The other children of Kernel hold its theorems.
--   Metrics: `_metrics`, `_yearly_breakdown`, `_TradeAccumulator` (backtesting.py) and
--     `_OosMetricAccumulator` (oos_validation.py).
--   Splits: `split_bounds` and `slice_chunks` (oos_validation.py).
--   Gate: `_BreakdownAccumulator`, `_concentration`, `evaluate_gate`, `scenario_config` and
--     `apply_validation_lineage` (oos_validation.py). Gate/Merged and Gate/Spread describe its evidence
--     anew, Gate/Decision and Gate/View hold its theorems; Kernel/Regimes runs the kernel with it.
--   Indicators: the averages, RSI, bands and ATR of completed_candle_evaluator.py. Evaluator: its
--     rules. Evaluator/Lookbacks: how far a contract looks back. Evaluator/Decide: `decide`, batch and
--     streaming.
--   Capital: capital_simulations.py and fractional_risk_simulations.py. Capital/Constrained:
--     constrained_capital_simulations.py, with the margin of broker_metadata.py.
--   LevelTouch: `classify` and `resolve` (level_touch.py). LevelTouch/Tally: `_Tally` and the rates.
--     LevelTouch/Baseline: `random_baseline`. LevelTouch/Series: the lines. LevelTouch/Scan: the sweep.
--     LevelTouch/Request: the request of a measurement. LevelTouch/Measure: `measure_bars`, its pass over
--     the bars; Measure/Rows: its rows; Measure/Whole: its result. Measure/Sums, Measure/Pass,
--     Rows/Totals, Whole/Typical and Whole/Report hold their theorems.
--     LevelTouch/Record: `measure` and `scan` on the table of probes.
--   MarketData: `iter_bars` (market_data.py), the merge of a data set's artifacts. Rounds, Batches, Order
--     and Coverage hold its lemmas, Merged its theorems.
--   Router: `materialize` of strategy_router_decisions.py; Router/Selection and Router/Reuse hold its
--     theorems.
--   Governance: the incidents of governance_incidents.py. Governance/Policy: its policy and `_utc`,
--     `_subject`, `_validated_signal`. Governance/Incidents: `materialize`, with `block_entries` of
--     generic_mt5_publications.py. Governance/Acknowledge, Resolve, Verify: the functions of those
--     names. A `Store` holds the tables; a `Call` says what other sessions commit before a call's own
--     commit, and a `Run` is any sequence of such calls. Growth and its children hold the lemmas of
--     each call.
--   Base: the shared names, lists, results, dictionaries and numbers.
--
-- Numbers. A Python `float` or `Decimal` is a value of a type with the operations of `Number`
-- (Base/Numbers); a theorem that needs a law of them takes it as a hypothesis, and the examples use
-- whole cents. A count is a natural number; a timestamp is a count of seconds.
--
-- Errors. Code that raises returns a `Result` with the message. Where Python builds a message from
-- values, the model keeps a fixed text.
--
-- Fuel. The index loop of `_simulate_legacy` runs on fuel, one round for each bar and one more; its
-- theorem states that this is enough, and the merge of `iter_bars` on one round for each row and one
-- more, which its theorems rest on. All other loops are recursions over their lists.
--
-- Parameters. The hash of canonical JSON, the reading of ISO times, the control file of the adapter
-- and the verification of a journal item (`Outside` of Governance), the re-checked eligibility and
-- the evaluation of a candidate (`Sources` of Router), the rows of an artifact, the digest of
-- `sha256`, `statistics.pstdev`, the floor of a `Decimal`, the passage of a volume through `float`,
-- and the year of a timestamp are arguments; so are the renderings of numbers as text and the parts
-- of a date (`Formats` of LevelTouch/Measure).
--
-- Not modelled: the database and HTTP layers (models.py, migrations.py, main.py), reading files and
-- brokers, the governance journal and the learning records, the edge search, the MT5 templates
-- and the web interface. They are input and output, or are not covered yet.
pub mod Base
pub mod Capital
pub mod Evaluator
pub mod Gate
pub mod Governance
pub mod Indicators
pub mod Kernel
pub mod LevelTouch
pub mod Market
pub mod MarketData
pub mod Metrics
pub mod Router
pub mod Splits
