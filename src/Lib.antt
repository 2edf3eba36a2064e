-- ===== src/Lib.antt =====
-- fpro_v2 collects Chinese A-share market data and backtests strategies on it. This library
-- models the parts whose results everything else relies on, and proves what makes them correct.
-- Paths are those of the repository, under src/.
--
-- The parts and their files:
--
-- * QuoteSequence (src/qmt_agent/quote_sequence.py). The agent keeps the last quotes in a ring
--   of fixed capacity and numbers them; receivers read windows by number. QuoteSequence/Defs
--   holds `QuoteSequenceBuffer`: `init` is `__init__`, `append`, `read` and `status` have their
--   names, and the validators of the two response classes (src/qmt_protocol/responses.py) are
--   run where the constructors run them. The lock makes each call atomic. A `read` that waits is
--   `wait_loop` on a list of wake-ups, each with the appends of other threads before it, up to
--   the deadline. QuoteSequence/Log states which log of quotes a buffer represents,
--   QuoteSequence/Reads relates the reads to the log.
--
-- * MarketData/Identity (src/market_data/identity.py). A security keeps its `sid` when its code
--   changes. `create` is the constructor of `SecurityCodeHistory` with its checks, `sid_of` is
--   `sid`, the other names are the source's. Identity/Consistency and Identity/Timeline hold the
--   proofs.
--
-- * Backtest (src/backtest/). Domain and Config hold the records of domain.py and config.py,
--   Clock the market hours, the timeline and the clock of clock.py. TradingRules is
--   trading_rules.py, Orders is orders.py. Portfolio is the account of portfolio.py: State (the
--   state, its views and `assert_valid`), Trading (sessions, fills, valuation), Dividends
--   (entitlements, dividends, bonus shares, write-offs). Broker is broker.py: Pricing (prices,
--   limits, fees, capacities), Execution (`_executable_quantity`, `_make_fill`), State (the
--   orders and `submit`, `cancel`, `cancel_symbol`, `expire_all`), Market (what a bar is matched
--   against), Matching (`match_bar`) and Lifecycle (sequences of these calls). CorporateActions
--   is the processor of corporate_actions.py, whose session events change the portfolio and the
--   broker together (`World`); its `load` is left out. Schedule is schedule.py: `Schedule` with
--   its checks and `_build_strategy_events`. Engine is the event loop of engine.py with the
--   context of strategy.py: Sessions (the start of a session and the lifecycles), Bars (a bar
--   and its fills), Calls (what a strategy asks for, `rebalance`), Replay (`run`); Engine/History
--   reads a run as a history of broker calls.
--
-- * QmtAgent (src/qmt_agent/). Callback is `QuoteCallbackGate` of subscription_callback.py.
--   Service is `QmtMarketService` of service.py: its state, Callbacks (`_on_market_quotes`,
--   `_on_stock_quotes` and the callback objects), Operations (subscribing, unsubscribing),
--   Closing (`close`), Latest (the readers of the caches); Service/Limits follows the number of stock subscriptions.
--
-- * QmtReceiver (src/qmt_receiver/). Receive is `QmtReceiver` of receiver.py over the interface
--   `Platform` (the agent, the store, the queue); Agent holds what an agent promises, Served
--   makes the buffer of QuoteSequence an agent. Ranges and SyncMeta are the completed
--   date ranges of storage.py, Sync is sync.py over the interface `SyncPlatform`.
--
-- The portfolio and the broker share no state: `match_bar` reads an account snapshot and answers
-- fills, which `apply_fill` books. Both ask MarketData/Identity for the code of a security on a
-- day, and both use the rules of TradingRules through the order quantities. The engine owns them
-- all: it moves the clock, lets the broker match a bar, books the fills, lets the corporate
-- actions change the account at the start of a session, and calls the strategy, which sees the
-- account and answers orders. What it reads of the market is the interface `Reader`, and the
-- strategy is a function of the context and a state of its own.
--
-- The service appends what XtData calls back to the sequence buffer; the receiver reads the
-- buffer through the agent. The service asks the interface `Gateway`, which answers together with
-- the callbacks that arrive before its answer.
--
-- Conventions. A method is a function of the object's state that answers a result and the state
-- it leaves (Base/Method); what was written before a raise stays written. Exceptions are values
-- of Base/Outcome, without their messages. Dates are ordinals and times are microseconds of one
-- time zone (Base/Time). A `str` is its list of code points, a `dict` an association list in
-- order of insertion (Base/Mapping). The numbers in `O00000001` and `F00000001` stand for these
-- texts; where orders are sorted by them, the text is written out (`order_label`). Integers are
-- unbounded, as in Python. A test that only the type of an argument decides (`isinstance`) is
-- left to the types.
--
-- Floats are a parameter: Base/Host is a record of the operations that Python gives on them, and
-- of the Unicode tests `isdigit` and `isspace`; the few theorems that need laws of the order of
-- IEEE 754 doubles take them as the hypothesis `IsOrdered`. `micro_host` is a fixed-point
-- instance that runs the tests. Sums add from the left; the compensation that Python 3.12 has
-- for sums of floats is not modelled.
--
-- Dates after 9999-12-31 are not refused. The documents of completed ranges are values, without
-- their JSON and the text form of their dates; the functions of texts that the synchronising uses
-- (`strip`, `upper`, `strptime`, `strftime`) are parameters. The digits of the minute rule of a
-- schedule are the ASCII ones. The two operation locks of the service are one: an operation is a
-- step, and a callback is a step of its own or part of the answer of the gateway.
--
-- Loops are structural, but some have fuel. `split_orders` of Orders has a round for each share
-- of the quantity and every round takes one share at least. `digits_from` of Base/Keys has `n +
-- 1` rounds for a number `n` that a division by ten makes smaller. `bars_from` of Clock has a
-- round for each step between the two ends of a segment, and `steps_from` of Schedule one for
-- each step of a minute rule. `year_from` of Schedule has 30 rounds, more than a date is years
-- after the one it starts from. `probe` of QmtReceiver has its rounds as an argument; `n + 2` are
-- enough for an agent that appends at most `2 ^ n` quotes between two probes, since a probe
-- doubles what it passes over. The loop of `_affordable_quantity` is
-- recursion on the quantity, which it lowers by one.
--
-- Not modelled: files and formats (Parquet, JSON), the network, the command lines, logging; the
-- market data reader, which the broker asks through the interface `DataView` of Broker/Market and
-- the engine through `Reader`; the Parquet store; the rows that the receiver stores; the selection
-- of universe.py; the metrics; the cleaning and cross-checking of data; the synchronising of
-- Tushare; the requests of the QMT protocol and the wrapper of its third-party library.
pub mod Base
pub mod QuoteSequence
pub mod Backtest
pub mod MarketData
pub mod QmtAgent
pub mod QmtReceiver
