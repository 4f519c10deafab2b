-- ===== src/Lib.antt =====
-- Verification of the core of the multi-agent trading system: orders, risk, decisions, market data.
--
-- The agents exchange messages over a bus. Market data normalises candles, technical analysis turns
-- buffered candles into signals, the Decision agent fuses signals into trade proposals, the Risk
-- agent approves, resizes or rejects a proposal and reserves its size in a ledger, and the Execution
-- agent places approved orders with a broker and publishes results, which the Risk agent applies to
-- its ledger. What an agent publishes is what its model returns.
--
-- Models (core/models/trade.py, signals.py, market.py): the records of the messages.
-- Broker (agents/execution/paper_broker.py): State is the portfolio with `_remember`,
--   `get_balance` and `get_positions`; Order is `place_order`, cut at its sleep into begin_order and
--   finish_order, `_close` and `close_position`; Store is `connect`, `disconnect` and
--   `_save_portfolio_state` over the two Redis keys and the texts under them; Session lets the order
--   loop and the stop-loss monitor interleave. Invariant, Equity, Fill, Opening, Idempotent and
--   Restored hold the proofs.
-- Risk (agents/risk): Drawdown is drawdown_monitor.py, Breaker is circuit_breaker.py, Sizer is
--   position_sizer.py, and Agent is `_evaluate`, `_emergency_halt`, `_reject` and
--   `_apply_execution_result` of agent.py. Approval, Safety, Value, Latch, Ledger, Reservation and
--   Bounds hold the proofs.
-- Execution (agents/execution/agent.py): one assessment of `run_loop`, tickers, `_current_price`,
--   `_check_and_maybe_close` and a cycle of the paper monitor, taken with no order handled in between
--   (Agent), and the proofs (Monitor); Broker.Session is where orders and closes interleave.
-- Decision (agents/decision): Aggregator is signal_aggregator.py, Builder is proposal_builder.py, and
--   Agent is the signal handlers and `_try_aggregate_and_propose` of agent.py.
-- MarketData: Normalizer and Sorting are agents/market_data/normalizer.py, Buffer is
--   agents/technical_analysis/candle_buffer.py, Agent is agents/market_data/agent.py, and Streams is the
--   reconnecting streams of websocket_handler.py. Order, Window, Feed and Reconnect hold the proofs.
-- Technical (agents/technical_analysis): Series, Fallback, Results, Oscillators and Trend are
--   indicators.py, Scoring and Generator are signal_generator.py, Registry is the registry of candle
--   buffers, and Agent is the handlers of agent.py. Emitted, Warmup and Published hold the proofs.
-- Learning: Labels is agents/technical_analysis/ml/label_generator.py, Signals is
--   ml_signal_generator.py, Indicators, Features and Rows are feature_engineer.py, and WalkForward is
--   backtest/walkforward.py over rows of any kind, and Versions is model_registry.py for one symbol
--   and timeframe. Causal, Views, Hygiene, Parity, Leakage, Past, Lookahead and Saved hold the proofs.
-- Mt5 (agents/execution): Mapper is symbol_mapper.py, Bridge is the queue and the endpoints of
--   mt5_bridge.py, and Orders is its `place_order` and `close_position`. Queue and Answers hold the
--   proofs.
-- Monitoring (agents/monitoring/agent.py): Registry is what the agent knows of the others, and Agent is
--   its handlers and checks, a round of which takes the heartbeats that arrive while it sends
--   alerts. Alerts and Silence hold the proofs.
-- Lifecycle (agents/base.py): Base is the status, error counter, halt latch and overrides of an agent,
--   Supervisor is `run_agent`. Quarantine, Restarts and Halt hold the proofs.
-- Control (api/routers/control.py): Api is the key, `post_command`, `post_halt` and `post_resume`. Latched
--   and Guarded hold the proofs.
-- Backtest (backtest): Engine is `run_with_decider` of engine.py, Metrics is metrics.py, and Strategy is
--   `run_strategy` and the strategies of benchmarks.py. Accounting and Lookahead hold the proofs.
-- Sync: the Risk ledger beside the broker's portfolio, through the results that are published.
-- Prelude: integers, decimals, floats, dicts and deques. Samples and the modules named Tests hold
--   concrete data and runs.
--
-- Numbers. A Decimal is an integer of units of 10^-24, enough for the exact products of quantities
-- and prices of 8 places; the 28-digit context of Python's decimal is not modelled, and a product
-- or a quotient that it would round is rounded half to even at 24 places. Floats are a parameter:
-- an interface of the operations the code uses, with the laws of their order as a hypothesis where
-- a theorem needs them; Prelude.Fixed is an instance that meets the laws. Times are microseconds,
-- and symbols, ids and timeframes are numbers that are only compared. Random draws, fresh ids and
-- the time are arguments. TA-Lib, `str` and `Decimal` of texts, `json.dumps` and `json.loads`, the
-- means of NumPy, the classifier, calendar months, powers, the logarithm, sine and cosine are
-- parameters; the theorem on a restart assumes that a text that was written is read as the value
-- (AreFaithful in Broker.Store). Nearly every loop follows a list, and the supervisor counts the
-- crashes that are left. `stream_with_reconnect` runs on fuel, the number of rounds: one round
-- more than the reconnections that are allowed is enough, which Reconnect proves. The square root
-- of the instance Prelude.Fixed makes 128 rounds of Newton's method and serves the tests only.
--
-- Not modelled: logs, metrics, the audit rows of the database, the text of reasons, the network
-- (ccxt, the HTTP server, Redis itself), the training of the classifier, the report of a backtest,
-- the rest of the API, the scripts and the dashboard. The bus is modelled where an operation's
-- result depends on it (Broker.Store, Risk.Agent, Execution.Agent, Decision.Agent,
-- Technical.Agent, Monitoring.Agent, Control.Api).
pub mod Prelude
pub mod Models
pub mod Broker
pub mod Risk
pub mod Execution
pub mod Decision
pub mod MarketData
pub mod Lifecycle
pub mod Backtest
pub mod Sync
pub mod Samples
pub mod Control
pub mod Learning
pub mod Monitoring
pub mod Mt5
pub mod Technical
